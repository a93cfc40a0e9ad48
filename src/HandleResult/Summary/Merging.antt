-- ===== src/HandleResult/Summary/Merging.antt =====
-- How the report merges several cases with one id.
use yyou.Common.{
  ℕ, ◌≤◌, ◌≡◌, refl, subst, false, List, [], ◌∷◌, none, some, arith, Bool-cases, inl, inr,
  Option-cases,
}
use native.Mathlib.Nat.{le_trans}
use mathlib.Core.Option.{some-injective}
use yyou.Text.{Text, ◌==◌, replace}
use yyou.Text.Laws.{eq_sound}
use yyou.Text.Regex.{findall, case_id}
use yyou.Dict.{Dict, lookup, insert, lookup-insert, lookup-insert_self}
use yyou.Junit.{Testcase}
use yyou.HandleResult.Names.{get_author_name, plain_title, last, quote}
use yyou.HandleResult.Monitor.{is_monitor}
use yyou.HandleResult.Summary.{
  Result, pass, skip, fail, Entry, Found, merge, ocp_key, plain_key, record_ids, record_case,
  raw_title, summarize_case, summarize, result_of,
}

-- A failure counts more than a pass, and a pass more than a skip.
abbrev pub rank : Result → ℕ
rank skip = 0
rank pass = 1
rank fail = 2

-- The key has an entry with at least this rank.
abbrev pub IsAtLeast : ℕ → Text → Dict Entry → Type 0
IsAtLeast r k d = (e : Entry) × (lookup k d ≡ some e) × (r ≤ rank e.result)

merge-rank : (o : Entry) (f : Found) → rank o.result ≤ rank (merge (some o) f).result
unfolding merge
merge-rank o f = ground arith

-- The entry that a round of the loop over the ids writes.
abbrev written : Text → Text → Found → Dict Entry → Entry
written key author f d =
    let g = merge (lookup key d) f in
    record { result = g.result; title = replace g.casetitle quote []; author = author }

record_one-IsAtLeast :
    (r : ℕ) (k key author : Text) (f : Found) (d : Dict Entry)
    → IsAtLeast r k d
    → IsAtLeast r k (insert key (written key author f d) d)
record_one-IsAtLeast r k key author f d (e, h, m) = elim (Bool-cases (key == k)) [
  | inl same ↦ (
    written key author f d,
    rw (lookup-insert, same) refl,
    rw (eq_sound key k same, h) (le_trans m (merge-rank e f)),
  )
  | inr other ↦ (e, rw (lookup-insert, other) h, m)
]

record_ids-IsAtLeast :
    (r : ℕ) (k author : Text) (ids : List Text) (f : Found) (d : Dict Entry)
    → IsAtLeast r k d
    → IsAtLeast r k (record_ids author ids f d)
unfolding record_ids
record_ids-IsAtLeast r k author [] f d h = h
record_ids-IsAtLeast r k author (i ∷ is) f d h =
    record_ids-IsAtLeast r k author is _ _ (record_one-IsAtLeast r k (ocp_key i) author f d h)

-- No key of a case without id is a key of an id.
plain_key-ne-ocp_key : (author title id : Text) → (plain_key author title == ocp_key id) ≡ false
unfolding ◌==◌
plain_key-ne-ocp_key author title id = refl

record_case-IsAtLeast :
    (r : ℕ) (i : Text) (c : Testcase) (author : Text) (ids : List Text) (d out : Dict Entry)
    → record_case c author ids d ≡ some out
    → IsAtLeast r (ocp_key i) d
    → IsAtLeast r (ocp_key i) out
unfolding record_case
record_case-IsAtLeast r i c author [] d out h (e, g, m) = elim (Option-cases (plain_title c.name)) [
  | inl x ↦ absurd (ground arith)
  | inr (t, x) ↦
      subst (IsAtLeast r (ocp_key i)) (some-injective _ out (rw x at h))
        (e, rw (lookup-insert, plain_key-ne-ocp_key author t i) g, m)
]
record_case-IsAtLeast r i c author (j ∷ js) d out h a =
    elim (Option-cases (raw_title c.name (last j js))) [
      | inl x ↦ absurd (ground arith)
      | inr (t, x) ↦ subst (IsAtLeast r (ocp_key i)) (some-injective _ out (rw x at h)) (
          record_ids-IsAtLeast r (ocp_key i) author (j ∷ js)
            (record { result = result_of c; casetitle = t }) d a)
    ]

summarize_case-IsAtLeast :
    (r : ℕ) (i : Text) (c : Testcase) (d out : Dict Entry)
    → summarize_case c d ≡ some out
    → IsAtLeast r (ocp_key i) d
    → IsAtLeast r (ocp_key i) out
unfolding summarize_case
summarize_case-IsAtLeast r i c d out h a = elim (Bool-cases (is_monitor c)) [
  | inl x ↦ subst (IsAtLeast r (ocp_key i)) (some-injective d out (rw x at h)) a
  | inr x ↦ elim (Option-cases (get_author_name c.name)) [
    | inl y ↦ absurd (ground arith)
    | inr (author, y) ↦
        record_case-IsAtLeast r i c author (findall case_id c.name) d out (rw (x, y) at h) a
  ]
]

-- If the loop over the cases raises nothing, what the report says of an id never gets better for the
-- id's being met again: whatever cases follow, an entry that has failed stays failed, and one that has
-- passed is never turned to skipped.
pub summarize-IsAtLeast :
    (r : ℕ) (i : Text) (cs : List Testcase) (d out : Dict Entry)
    → summarize cs d ≡ some out
    → IsAtLeast r (ocp_key i) d
    → IsAtLeast r (ocp_key i) out
unfolding summarize
summarize-IsAtLeast r i [] d out h a = subst (IsAtLeast r (ocp_key i)) (some-injective d out h) a
summarize-IsAtLeast r i (c ∷ cs) d out h a = elim (Option-cases (summarize_case c d)) [
  | inl x ↦ absurd (ground arith)
  | inr (next, x) ↦
      summarize-IsAtLeast r i cs next out (rw x at h) (summarize_case-IsAtLeast r i c d next x a)
]

-- A case with two ids passes, the first id has failed before and the second is new: the second is
-- reported as failed, under the title of the other case.
pub record_ids_leak :
    (author i j title : Text) (d : Dict Entry) (old : Entry)
    → lookup (ocp_key i) d ≡ some old
    → old.result ≡ fail
    → (ocp_key i == ocp_key j) ≡ false
    → lookup (ocp_key j) d ≡ none
    → lookup
        (ocp_key j)
        (record_ids author (i ∷ j ∷ []) (record { result = pass; casetitle = title }) d)
      ≡ some (record { result = fail; title = replace old.title quote []; author = author })
unfolding record_ids merge
record_ids_leak author i j title d old h f n k = rw (h, f, lookup-insert_self, lookup-insert, n, k)
