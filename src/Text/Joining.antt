-- ===== src/Text/Joining.antt =====
-- Splitting at one character undoes joining with it.
use yyou.Common.{
  ℕ, ◌≡◌, refl, ap, ◌∙◌, true, false, List, [], ◌∷◌, ◌++◌, arith, All, append_assoc, append-nil,
  ◌==◌ as nat_eq,
}
use yyou.Text.{Text, starts_with, cut, split, join}

-- The character does not occur.
abbrev pub Lacks : ℕ → Text → Type 0
Lacks c = All (λ d. nat_eq d c ≡ false)

starts_with-nil : (s : Text) → starts_with s [] ≡ true
unfolding starts_with
starts_with-nil [] = refl
starts_with-nil (c ∷ s) = refl

module _ (c : ℕ) where
  cut-last : (p cur : Text) → Lacks c p → cut (c ∷ []) p cur 0 ≡ (cur ++ p) ∷ []
  unfolding cut starts_with
  cut-last [] cur h = rw append-nil
  cut-last (d ∷ p) cur h =
      rw h.0 (cut-last p (cur ++ (d ∷ [])) h.1 ∙ ap (λ t. t ∷ []) (append_assoc cur (d ∷ []) p))

  cut-separator :
      (p s cur : Text)
      → Lacks c p
      → cut (c ∷ []) (p ++ (c ∷ s)) cur 0 ≡ (cur ++ p) ∷ cut (c ∷ []) s [] 0
  unfolding cut starts_with
  cut-separator [] s cur h = ground (arith, starts_with-nil s, append-nil cur)
  cut-separator (d ∷ p) s cur h = rw h.0 (
      cut-separator p s (cur ++ (d ∷ [])) h.1
      ∙ ap (λ t. t ∷ cut (c ∷ []) s [] 0) (append_assoc cur (d ∷ []) p))

  -- For at least one part, none of which holds the character.
  pub split-join :
      (p : Text) (ps : List Text)
      → All (Lacks c) (p ∷ ps)
      → split (join (c ∷ []) (p ∷ ps)) (c ∷ []) ≡ p ∷ ps
  unfolding split join
  split-join p [] h = cut-last p [] h.0
  split-join p (q ∷ qs) h =
      ap (λ t. cut (c ∷ []) t [] 0) (append_assoc p (c ∷ []) (join (c ∷ []) (q ∷ qs)))
      ∙ cut-separator p (join (c ∷ []) (q ∷ qs)) [] h.0
      ∙ ap (◌∷◌ p) (split-join q qs h.1)
