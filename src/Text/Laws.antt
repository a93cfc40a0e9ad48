-- ===== src/Text/Laws.antt =====
-- Laws of the operations on texts.
use yyou.Common.{true, [], ◌∷◌, ◌++◌, ◌≡◌, ◌↔◌, refl, subst, arith, append-nil}
use yyou.Text.{Text, ◌==◌, starts_with, contains}

pub eq_refl : (s : Text) → (s == s) ≡ true
unfolding ◌==◌
eq_refl [] = refl
eq_refl (c ∷ s) = ground (arith, eq_refl s)

pub eq_sound : (s t : Text) → (s == t) ≡ true → s ≡ t
unfolding ◌==◌
eq_sound [] [] h = refl
eq_sound [] (d ∷ t) h = cc
eq_sound (c ∷ s) [] h = cc
eq_sound (c ∷ s) (d ∷ t) h = ground (arith, eq_sound s t)

pub eq_iff : (s t : Text) → ((s == t) ≡ true) ↔ (s ≡ t)
eq_iff s t = (eq_sound s t, λ e. rw e (eq_refl t))

pub starts_with-append : (p s : Text) → starts_with (p ++ s) p ≡ true
unfolding starts_with
starts_with-append [] [] = refl
starts_with-append [] (c ∷ s) = refl
starts_with-append (c ∷ p) s = ground (arith, starts_with-append p s)

pub contains-starts : (p s : Text) → starts_with s p ≡ true → contains p s ≡ true
unfolding contains
contains-starts p [] h = h
contains-starts p (c ∷ s) h = ground arith

-- A text holds each of its middle parts.
pub contains-append : (a p b : Text) → contains p (a ++ p ++ b) ≡ true
unfolding contains
contains-append [] p b = contains-starts p (p ++ b) (starts_with-append p b)
contains-append (c ∷ a) p b = ground (arith, contains-append a p b)

pub contains_suffix : (a p : Text) → contains p (a ++ p) ≡ true
contains_suffix a p =
    subst (λ t. contains p t ≡ true) (append-nil (a ++ p)) (contains-append a p [])
