-- ===== src/Text/Pieces.antt =====
-- Splitting by a text that occurs gives two parts or more, and each match of `findall` occurs.
use yyou.Common.{
  ℕ, zero, suc, ◌-◌, ◌≤◌, true, List, [], ◌∷◌, ◌++◌, ◌≡◌, refl, arith, length, take, drop,
  Bool-cases, inl, inr, All, some, get_elem?, Option-cases,
}
use yyou.Text.{Text, starts_with, contains, cut, split, second_last}
use yyou.Text.Laws.{contains-starts}
use yyou.Text.Regex.{Pattern, scan, findall}

cut_pos : (sep s cur : Text) (skip : ℕ) → 1 ≤ length (cut sep s cur skip)
unfolding cut
cut_pos sep [] cur skip = omega arith
cut_pos sep (c ∷ s) cur (suc skip) = cut_pos sep s cur skip
cut_pos sep (c ∷ s) cur zero = ground (arith, cut_pos sep s (cur ++ (c ∷ [])) 0)

cut_two : (sep s cur : Text) → 1 ≤ length sep → contains sep s ≡ true → 2 ≤ length (cut sep s cur 0)
unfolding cut contains starts_with
cut_two [] s cur h e = absurd (omega arith)
cut_two (d ∷ sep) [] cur h e = absurd (cc)
cut_two (d ∷ sep) (c ∷ s) cur h e = elim (Bool-cases (starts_with (c ∷ s) (d ∷ sep))) [
  | inl now ↦ rw now (omega (arith, cut_pos (d ∷ sep) s [] (length (d ∷ sep) - 1)))
  | inr later ↦ rw later (cut_two (d ∷ sep) s (cur ++ (c ∷ [])) h (rw later at e))
]

pub split_pos : (s sep : Text) → 1 ≤ length (split s sep)
unfolding split
split_pos s sep = cut_pos sep s [] 0

pub split_two : (s sep : Text) → 1 ≤ length sep → contains sep s ≡ true → 2 ≤ length (split s sep)
unfolding split
split_two s sep h e = cut_two sep s [] h e

pub get_elem?-total {ℓ} :
    {A : Type ℓ} (xs : List A) (i : ℕ) → suc i ≤ length xs → (a : A) × (get_elem? xs i ≡ some a)
get_elem?-total [] i h = absurd (omega arith)
get_elem?-total (x ∷ xs) zero h = (x, refl)
get_elem?-total (x ∷ xs) (suc i) h = get_elem?-total xs i (omega arith)

pub second_last-total : (ps : List Text) → 2 ≤ length ps → (p : Text) × (second_last ps ≡ some p)
unfolding second_last
second_last-total [] h = absurd (omega arith)
second_last-total (p ∷ []) h = absurd (omega arith)
second_last-total (p ∷ q ∷ []) h = (p, refl)
second_last-total (p ∷ q ∷ r ∷ ps) h = second_last-total (q ∷ r ∷ ps) (omega arith)

starts_with-take : (s : Text) (n : ℕ) → starts_with s (take n s) ≡ true
unfolding starts_with
starts_with-take [] zero = refl
starts_with-take [] (suc n) = refl
starts_with-take (c ∷ s) zero = refl
starts_with-take (c ∷ s) (suc n) = ground (arith, starts_with-take s n)

abbrev pub IsIn : Text → Text → Type 0
IsIn s m = contains m s ≡ true

All-later : (c : ℕ) (s : Text) (ms : List Text) → All (IsIn s) ms → All (IsIn (c ∷ s)) ms
All-later c s [] h = tt
All-later c s (m ∷ ms) (hm, h) = (unfold contains in (ground arith), All-later c s ms h)

scan-IsIn : (p : Pattern) (s : Text) (skip : ℕ) → All (IsIn s) (scan p s skip)
unfolding scan
scan-IsIn p [] skip = tt
scan-IsIn p (c ∷ s) (suc skip) = All-later c s _ (scan-IsIn p s skip)
scan-IsIn p (c ∷ s) zero = elim (Option-cases (p (c ∷ s))) [
  | inl e ↦ rw (e, scan) (All-later c s _ (scan-IsIn p s 0))
  | inr (n, e) ↦
      rw (e, scan)
        (
          contains-starts (take n (c ∷ s)) (c ∷ s) (starts_with-take (c ∷ s) n),
          All-later c s _ (scan-IsIn p s (n - 1)),
        )
]

-- Every match that `findall` returns occurs in the text.
pub findall-IsIn : (p : Pattern) (s : Text) → All (IsIn s) (findall p s)
unfolding findall
findall-IsIn p s = scan-IsIn p s 0

-- What holds of each match at the start of a text holds of each match that `findall` returns.
scan-All :
    (Q : Text → Type 0) (p : Pattern) (s : Text) (skip : ℕ)
    → ((c : ℕ) (t : Text) (n : ℕ) → p (c ∷ t) ≡ some n → Q (take n (c ∷ t)))
    → All Q (scan p s skip)
unfolding scan
scan-All Q p [] skip h = tt
scan-All Q p (c ∷ s) (suc skip) h = scan-All Q p s skip h
scan-All Q p (c ∷ s) zero h = elim (Option-cases (p (c ∷ s))) [
  | inl e ↦ rw (e, scan) (scan-All Q p s 0 h)
  | inr (n, e) ↦ rw (e, scan) (h c s n e, scan-All Q p s (n - 1) h)
]

pub findall-All :
    (Q : Text → Type 0) (p : Pattern) (s : Text)
    → ((c : ℕ) (t : Text) (n : ℕ) → p (c ∷ t) ≡ some n → Q (take n (c ∷ t)))
    → All Q (findall p s)
unfolding findall
findall-All Q p s h = scan-All Q p s 0 h

pub starts_with-split : (s p : Text) → starts_with s p ≡ true → s ≡ p ++ drop (length p) s
unfolding starts_with
starts_with-split s [] h = refl
starts_with-split [] (d ∷ p) h = cc
starts_with-split (c ∷ s) (d ∷ p) h = ground (arith, starts_with-split s p)
