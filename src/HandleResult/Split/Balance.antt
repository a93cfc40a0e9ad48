-- ===== src/HandleResult/Split/Balance.antt =====
-- The counts that `splitRP` writes are those of the cases in the document.
use yyou.Common.{
  ◌≤◌, ◌≡◌, List, [], ◌∷◌, none, some, arith, length, count, All, All-append, length-append,
  count-append, map, Bool-cases, inl, inr, Option-cases, ap, subst, ◌∙◌,
}
use mathlib.Core.Option.{some-injective}
use native.Mathlib.Nat.{add-zero}
use yyou.Text.Regex.{findall, case_id}
use yyou.Common.Int.{pos}
use yyou.Text.{Text, ◌==◌}
use yyou.Dict.{Dict, lookup, insert}
use yyou.Junit.{Testcase, Testsuite}
use yyou.HandleResult.Names.{get_names}
use yyou.HandleResult.Names.Laws.{get_names-total, name_count}
use yyou.HandleResult.Split.{
  CaseDesc, Mod, add_case, collect_mods, team_of, Import, import_mod, split_documents,
}
use yyou.HandleResult.Split.Counts.{
  has_failure, has_skipped, IsExclusive, failing, skipping, IsNamed, IsAhead, import_cases-IsAhead,
}

-- The counts of a subteam's record are those of its cases.
record IsCounted (v : Mod) : Type 0 where
  tests : v.tests ≡ length v.cases
  failures : v.failure ≡ count failing v.cases
  skips : v.skipped ≡ count skipping v.cases
  named : All IsNamed v.cases

add_case-IsCounted :
    (v : Mod) (d : CaseDesc) → IsNamed d → IsCounted v → IsCounted (add_case (some v) d)
unfolding add_case count
add_case-IsCounted v d h c = record {
  tests = ground (arith, c.tests, length-append v.cases (d ∷ []));
  failures = ground (arith, c.failures, count-append failing v.cases (d ∷ []));
  skips = ground (arith, c.skips, count-append skipping v.cases (d ∷ []));
  named = All-append IsNamed v.cases (d ∷ []) c.named (h, tt);
}

add_case-IsCounted_new : (d : CaseDesc) → IsNamed d → IsCounted (add_case none d)
unfolding add_case count
add_case-IsCounted_new d h = record {
  tests = ground arith;
  failures = ground arith;
  skips = ground arith;
  named = (h, tt);
}

abbrev AllCounted : Dict Mod → Type 0
AllCounted = All (λ (k, v). IsCounted v)

lookup-IsCounted :
    (k : Text) (mods : Dict Mod) (v : Mod) → AllCounted mods → lookup k mods ≡ some v → IsCounted v
unfolding lookup
lookup-IsCounted k [] v h e = absurd (cc)
lookup-IsCounted k ((j, w) ∷ mods) v h e = elim (Bool-cases (j == k)) [
  | inl same ↦ subst IsCounted (some-injective w v (rw same at e)) h.0
  | inr other ↦ lookup-IsCounted k mods v h.1 (rw other at e)
]

insert-AllCounted :
    (k : Text) (v : Mod) (mods : Dict Mod)
    → IsCounted v
    → AllCounted mods
    → AllCounted (insert k v mods)
unfolding insert
insert-AllCounted k v [] hv h = (hv, tt)
insert-AllCounted k v ((j, w) ∷ mods) hv h = elim (Bool-cases (j == k)) [
  | inl same ↦ rw same (hv, h.1)
  | inr other ↦ rw other (h.0, insert-AllCounted k v mods hv h.1)
]

next-IsCounted :
    (k : Text) (d : CaseDesc) (mods : Dict Mod)
    → IsNamed d
    → AllCounted mods
    → IsCounted (add_case (lookup k mods) d)
next-IsCounted k d mods hd h = elim (Option-cases (lookup k mods)) [
  | inl e ↦ rw e (add_case-IsCounted_new d hd)
  | inr (v, e) ↦ rw e (add_case-IsCounted v d hd (lookup-IsCounted k mods v h e))
]

name_count_pos : (name : Text) → 1 ≤ name_count name
name_count_pos name = go (findall case_id name)
  where
    go : (ids : List Text) → 1 ≤ elim ids [ [] ↦ 1 | id ∷ more ↦ length (id ∷ more) ]
    go [] = omega arith
    go (id ∷ ids) = omega arith

pub get_names_pos : (name : Text) (ns : List Text) → get_names name ≡ some ns → 1 ≤ length ns
get_names_pos name ns e =
    let (ms, f, g) = get_names-total name in ground (arith, name_count_pos name, g, f, e)

-- The two steps before a case is added.
pub collect_mods_inv :
    (c : Testcase) (cs : List Testcase) (mods : Dict Mod) {out : Dict Mod}
    → collect_mods (c ∷ cs) mods ≡ some out
    → (team : Text) × (names : List Text) × (team_of c.name ≡ some team)
      × (get_names c.name ≡ some names)
      × (collect_mods cs
            (insert team (add_case (lookup team mods) (record { case = c; names = names })) mods)
          ≡ some out)
unfolding collect_mods
collect_mods_inv c cs mods h = elim (Option-cases (team_of c.name)) [
  | inl e ↦ cc
  | inr (team, e) ↦ elim (Option-cases (get_names c.name)) [
    | inl f ↦ absurd (ground arith)
    | inr (names, f) ↦ (team, names, e, f, rw (e, f) at h)
  ]
]

collect_mods-AllCounted :
    (cs : List Testcase) (mods : Dict Mod) {out : Dict Mod}
    → All IsExclusive cs
    → AllCounted mods
    → collect_mods cs mods ≡ some out
    → AllCounted out
unfolding collect_mods
collect_mods-AllCounted [] mods {out} x h e = subst AllCounted (some-injective mods out e) h
collect_mods-AllCounted (c ∷ cs) mods x h e =
    let (team, names, _, f, rest) = collect_mods_inv c cs mods e in
    let d : CaseDesc = record { case = c; names = names } in
    let named : IsNamed d = (get_names_pos c.name names f, x.0) in
    collect_mods-AllCounted cs _ x.1
      (insert-AllCounted team _ mods (next-IsCounted team d mods named h) h) rest

-- The counts in a document are those of the cases in it.
pub record IsBalanced (s : Testsuite) : Type 0 where
  pub tests : s.tests ≡ some (pos (length s.cases))
  pub failures : s.failures ≡ some (pos (count has_failure s.cases))
  pub skipped : s.skipped ≡ some (pos (count has_skipped s.cases))

import_mod-IsBalanced : (time k : Text) (v : Mod) → IsCounted v → IsBalanced (import_mod time k v)
unfolding import_mod count
import_mod-IsBalanced time k v c =
    let start : Import = record {
      testscount = v.tests;
      failurescount = v.failure;
      skippedcount = v.skipped;
      children = [];
    } in
    let first : IsAhead start v.cases = record {
      tests = ground (arith, c.tests);
      failures = ground (arith, c.failures);
      skips = ground (arith, c.skips);
    } in
    let done = import_cases-IsAhead start v.cases c.named first in
    record {
      tests = ap (λ n. some (pos n)) (done.tests ∙ add-zero _);
      failures = ap (λ n. some (pos n)) (done.failures ∙ add-zero _);
      skipped = ap (λ n. some (pos n)) (done.skips ∙ add-zero _);
    }

map-IsBalanced :
    (time : Text) (mods : Dict Mod)
    → AllCounted mods
    → All IsBalanced (map (λ (k, v). import_mod time k v) mods)
map-IsBalanced time [] h = tt
map-IsBalanced time ((k, v) ∷ mods) h =
    (import_mod-IsBalanced time k v h.0, map-IsBalanced time mods h.1)

-- If no case of the input is failed and skipped at once, every document that `splitRP` builds has the
-- true counts: `tests` is the number of its cases, `failures` of the failed and `skipped` of the
-- skipped ones, copies for further ids included.
pub split_documents-IsBalanced :
    (s : Testsuite) (out : List Testsuite)
    → All IsExclusive s.cases
    → split_documents s ≡ some out
    → All IsBalanced out
unfolding split_documents
split_documents-IsBalanced s out x e = elim (Option-cases (collect_mods s.cases [])) [
  | inl f ↦ absurd (ground arith)
  | inr (mods, f) ↦
      subst (All IsBalanced)
        (some-injective (map (λ (k, v). import_mod s.time k v) mods) out (rw f at e))
        (map-IsBalanced s.time mods (collect_mods-AllCounted s.cases [] x tt f))
]
