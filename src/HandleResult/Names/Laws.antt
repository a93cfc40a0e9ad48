-- ===== src/HandleResult/Names/Laws.antt =====
-- `getNames` never raises, and gives one name for each id.
use yyou.Common.{
  ℕ, suc, ◌≤◌, ◌≡◌, refl, Bool, List, [], ◌∷◌, some, true, arith, length, All, Bool-cases, inl, inr,
  map, get_elem?, ◌+◌, zero, take, drop, ◌++◌, ap,
}
use yyou.Text.{Text, codes, contains, split, replace, starts_with}
use yyou.Text.Regex.{findall, case_id, author_tag, is_word, run}
use yyou.Text.Pieces.{
  IsIn, findall-All, starts_with-split, split_pos, split_two, get_elem?-total, second_last-total,
  findall-IsIn,
}
use yyou.HandleResult.Names.{
  get_author_name, plain_title, case_title, names_for, get_names, last, suite_tag, init, quote,
  plain_name, ocp_name,
}

-- One name for each id, and one for a case with no id.
abbrev pub name_count : Text → ℕ
name_count name = elim (findall case_id name) [ [] ↦ 1 | id ∷ ids ↦ length (id ∷ ids) ]

plain_title-total : (name : Text) → (t : Text) × (plain_title name ≡ some t)
unfolding plain_title
plain_title-total name =
    let tmpname = replace name quote [] in
    elim (Bool-cases (contains suite_tag tmpname)) [
      | inl e ↦ rw e (
          second_last-total (split tmpname suite_tag) (split_two tmpname suite_tag (omega arith) e))
      | inr e ↦ rw e (tmpname, refl)
    ]

case_title-total :
    (name id : Text) → 1 ≤ length id → IsIn name id → (t : Text) × (case_title name id ≡ some t)
unfolding case_title
case_title-total name id h e =
    let (rest, found) = get_elem?-total (split name id) 1 (split_two name id h e) in
    let title = replace rest quote [] in
    rw (found, case_title)
      (elim (Bool-cases (contains suite_tag title)) [
        | inl cut ↦ rw cut (get_elem?-total (split title suite_tag) 0 (split_pos title suite_tag))
        | inr whole ↦ rw whole (title, refl)
      ])

case_id-pos : (c : ℕ) (t : Text) (n : ℕ) → case_id (c ∷ t) ≡ some n → 1 ≤ length (take n (c ∷ t))
unfolding case_id
case_id-pos c t zero h = absurd (ground arith)
case_id-pos c t (suc n) h = omega arith

run-drop : (p : ℕ → Bool) (s : Text) → 1 ≤ run p s → (c : ℕ) × (r : Text) × (s ≡ c ∷ r)
unfolding run
run-drop p [] h = absurd (omega arith)
run-drop p (c ∷ s) h = (c, s, refl)

abbrev HasColon : Text → Type 0
HasColon tag = IsIn (init tag) (codes ":")

author_tag_inv :
    (s : Text) (n : ℕ)
    → author_tag s ≡ some n
    → (starts_with s (codes "Author:") ≡ true)
      × (1 ≤ run is_word (drop 7 s))
      × (n ≡ run is_word (drop 7 s) + 8)
unfolding author_tag
author_tag_inv s n h = ground arith

HasColon-tag : (x k : ℕ) (r : Text) → HasColon (take (k + 8) (codes "Author:" ++ (x ∷ r)))
unfolding init contains starts_with
HasColon-tag x k r = rw (eight k) refl
  where
    eight : (m : ℕ) → m + 8 ≡ suc (suc (suc (suc (suc (suc (suc (suc m)))))))
    eight m = omega arith

author_tag-HasColon :
    (c : ℕ) (t : Text) (n : ℕ) → author_tag (c ∷ t) ≡ some n → HasColon (take n (c ∷ t))
author_tag-HasColon c t n h =
    let (begins, pos, e) = author_tag_inv (c ∷ t) n h in
    let (x, r, rest) = run-drop is_word (drop 7 (c ∷ t)) pos in
    rw (e, starts_with-split (c ∷ t) (codes "Author:") begins, rest) (HasColon-tag x _ r)

get_author_name-total : (name : Text) → (a : Text) × (get_author_name name ≡ some a)
unfolding get_author_name
get_author_name-total name =
    go (findall author_tag name) (findall-All HasColon author_tag name author_tag-HasColon)
  where
    go :
        (tags : List Text)
        → All HasColon tags
        → (a : Text) × (elim tags [
          | [] ↦ some (codes "unknown")
          | tag ∷ more ↦ get_elem? (split (init tag) (codes ":")) 1
        ]
            ≡ some a)
    go [] h = (codes "unknown", refl)
    go (tag ∷ more) h =
        get_elem?-total (split (init tag) (codes ":")) 1
          (split_two (init tag) (codes ":") (omega arith) h.0)

last-All : (Q : Text → Type 0) (id : Text) (ids : List Text) → All Q (id ∷ ids) → Q (last id ids)
unfolding last
last-All Q id [] h = h.0
last-All Q id (x ∷ xs) h = last-All Q x xs h.1

length-map {ℓ κ} :
    {A : Type ℓ} {B : Type κ} (f : A → B) (xs : List A) → length (map f xs) ≡ length xs
length-map f [] = refl
length-map f (x ∷ xs) = ap suc (length-map f xs)

names_for-total :
    (name author : Text) (ids : List Text)
    → All (IsIn name) ids
    → All (λ id. 1 ≤ length id) ids
    → (ns : List Text) × (names_for name author ids ≡ some ns)
      × (length ns ≡ elim ids [ [] ↦ 1 | id ∷ more ↦ length (id ∷ more) ])
unfolding names_for
names_for-total name author [] h k =
    let (t, e) = plain_title-total name in (plain_name author t ∷ [], rw e refl, refl)
names_for-total name author (id ∷ ids) h k =
    let (t, e) = case_title-total name (last id ids) (last-All _ id ids k) (last-All _ id ids h) in
    (map (ocp_name author t) (id ∷ ids), rw e refl, length-map _ (id ∷ ids))

-- `getNames` returns for every name of a case: one name for each id in it, or one if it has none.
pub get_names-total :
    (name : Text) → (ns : List Text) × (get_names name ≡ some ns) × (length ns ≡ name_count name)
unfolding get_names
get_names-total name =
    let (author, e) = get_author_name-total name in
    let (ns, f, g) =
      names_for-total name author (findall case_id name) (findall-IsIn case_id name)
        (findall-All _ case_id name case_id-pos) in
    (ns, rw (e, f) refl, g)
