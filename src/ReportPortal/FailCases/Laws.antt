-- ===== src/ReportPortal/FailCases/Laws.antt =====
-- The case ids that `getFailCaseID` finds, and how the next run reads them.
use yyou.Common.{
  ℕ, suc, zero, ◌+◌, ◌≤◌, ◌≡◌, refl, sym, ap, ◌∙◌, subst, Bool, true, false, not, ◌&&◌, List, [],
  ◌∷◌, some, arith, All, length, drop, take, Bool-cases, inl, inr, &&-true, ◌==◌ as nat_eq,
}
use yyou.Text.{Text, codes, split, join, strip, strip_left, strip_right, is_space, member, ◌==◌}
use yyou.Text.Laws.{eq_sound}
use yyou.Text.Joining.{Lacks, split-join}
use yyou.Text.Pieces.{findall-All}
use yyou.Text.Regex.{is_digit, run, ocp_id, findall}
use yyou.HandleResult.Split.{subteam}
use yyou.ReportPortal.{Item}
use yyou.ReportPortal.Scenarios.{
  isv, valid_sub_team, valid_sub_teams, parse_scenarios, non_sub_teams,
  get_non_sub_team_per_scenarios,
}
use yyou.ReportPortal.FailCases.{fail_cases}

abbrev IsDigit : ℕ → Type 0
IsDigit c = is_digit c ≡ true

-- Four digits or more.
abbrev pub IsCaseNumber : Text → Type 0
IsCaseNumber t = All IsDigit t × (4 ≤ length t)

take-nil : (m : ℕ) → take {A = ℕ} m [] ≡ []
take-nil zero = refl
take-nil (suc m) = refl

drop-take : (k m n : ℕ) (s : Text) → n ≡ m + k → drop k (take n s) ≡ take m (drop k s)
drop-take zero m n s e = let same : n ≡ m = omega (arith, e) in rw same refl
drop-take (suc k) m zero s e = absurd (omega (arith, e))
drop-take (suc k) m (suc n) [] e = sym (take-nil m)
drop-take (suc k) m (suc n) (c ∷ s) e = drop-take k m n s (omega (arith, e))

run-All : (s : Text) → All IsDigit (take (run is_digit s) s)
unfolding run
run-All [] = tt
run-All (c ∷ s) = elim (Bool-cases (is_digit c)) [
  | inl digit ↦ rw digit (digit, run-All s)
  | inr other ↦ rw other tt
]

length-run : (s : Text) → length (take (run is_digit s) s) ≡ run is_digit s
unfolding run
length-run [] = refl
length-run (c ∷ s) = elim (Bool-cases (is_digit c)) [
  | inl digit ↦ rw digit (ap suc (length-run s))
  | inr other ↦ rw other refl
]

ocp_id-length :
    (s : Text) (n : ℕ)
    → ocp_id s ≡ some n
    → (n ≡ run is_digit (drop 4 s) + 4) × (4 ≤ run is_digit (drop 4 s))
unfolding ocp_id
ocp_id-length s n e = ground arith

ocp_id-IsCaseNumber :
    (c : ℕ) (t : Text) (n : ℕ) → ocp_id (c ∷ t) ≡ some n → IsCaseNumber (drop 4 (take n (c ∷ t)))
ocp_id-IsCaseNumber c t n e =
    let (same, enough) = ocp_id-length (c ∷ t) n e in
    let rest : Text = drop 4 (c ∷ t) in
    subst IsCaseNumber (sym (drop-take 4 (run is_digit rest) n (c ∷ t) same))
      (run-All rest, omega (arith, enough, length-run rest))

first_number :
    (ids rest : List Text)
    → All (λ id. IsCaseNumber (drop 4 id)) ids
    → All IsCaseNumber rest
    → All IsCaseNumber (elim ids [ [] ↦ rest | id ∷ more ↦ drop 4 id ∷ rest ])
first_number [] rest h a = a
first_number (id ∷ more) rest h a = (h.0, a)

pub fail_cases-IsCaseNumber : (is : List Item) → All IsCaseNumber (fail_cases is)
unfolding fail_cases
fail_cases-IsCaseNumber [] = tt
fail_cases-IsCaseNumber (i ∷ is) = elim (Bool-cases (i.type == codes "STEP")) [
  | inl step ↦ rw step (
      first_number (findall ocp_id i.name) (fail_cases is)
        (findall-All (λ id. IsCaseNumber (drop 4 id)) ocp_id i.name ocp_id-IsCaseNumber)
        (fail_cases-IsCaseNumber is))
  | inr other ↦ rw other (fail_cases-IsCaseNumber is)
]

digit-not_bar : (c : ℕ) → IsDigit c → nat_eq c b'|' ≡ false
unfolding is_digit
digit-not_bar c h = ground arith

digit-not_space : (c : ℕ) → IsDigit c → is_space c ≡ false
unfolding is_digit is_space
digit-not_space c h = ground arith

digits-Lacks : (t : Text) → All IsDigit t → Lacks b'|' t
digits-Lacks [] h = tt
digits-Lacks (c ∷ t) h = (digit-not_bar c h.0, digits-Lacks t h.1)

digits-strip_right : (t : Text) → All IsDigit t → strip_right t ≡ t
unfolding strip_right
digits-strip_right [] h = refl
digits-strip_right (c ∷ []) h = rw (digit-not_space c h.0) refl
digits-strip_right (c ∷ d ∷ t) h = rw (digits-strip_right (d ∷ t) h.1) refl

digits-strip : (t : Text) → All IsDigit t → strip t ≡ t
unfolding strip strip_left
digits-strip [] h = digits-strip_right [] tt
digits-strip (c ∷ t) h = rw (digit-not_space c h.0) (digits-strip_right (c ∷ t) h)

-- No name of a subteam begins with a digit.
unfoldable no_digit_first : List Text → Bool
no_digit_first [] = true
no_digit_first ([] ∷ ts) = no_digit_first ts
no_digit_first ((c ∷ t) ∷ ts) = not (is_digit c) && no_digit_first ts

subteam-no_digit : no_digit_first subteam ≡ true
unfolding no_digit_first subteam is_digit
subteam-no_digit = refl

not_digit :
    (c : ℕ) (t : Text) (ts : List Text)
    → IsDigit c
    → no_digit_first ts ≡ true
    → member (c ∷ t) ts ≡ false
unfolding no_digit_first member
not_digit c t [] digit h = refl
not_digit c t ([] ∷ ts) digit h = rw (not_digit c t ts digit h) refl
not_digit c t ((d ∷ u) ∷ ts) digit h =
    let (letter, rest) = &&-true (not (is_digit d)) (no_digit_first ts) h in
    elim (Bool-cases (c ∷ t == d ∷ u)) [
      | inl same ↦
          let heads : c ≡ d = head_equal (eq_sound (c ∷ t) (d ∷ u) same) in
          absurd (clash (ap is_digit heads) letter)
      | inr other ↦ rw other (not_digit c t ts digit rest)
    ]
  where
    head_equal : {c d : ℕ} {t u : Text} → c ∷ t ≡ d ∷ u → c ≡ d
    head_equal e = cc

    clash : is_digit c ≡ is_digit d → not (is_digit d) ≡ true → ⊥
    clash e l = absurd (ground arith)

number-member : (t : Text) → IsCaseNumber t → member t subteam ≡ false
number-member [] h = absurd (omega (arith, h.1))
number-member (c ∷ t) h = not_digit c t subteam h.0.0 subteam-no_digit

number-isv : (t : Text) → IsCaseNumber t → (t == isv) ≡ false
unfolding ◌==◌ is_digit
number-isv [] h = refl
number-isv (c ∷ t) h = ground (arith, h.0.0)

numbers-non_sub_teams : (ts : List Text) → All IsCaseNumber ts → non_sub_teams ts ≡ ts
unfolding non_sub_teams
numbers-non_sub_teams [] h = refl
numbers-non_sub_teams (t ∷ ts) h =
    rw (digits-strip t h.0.0, number-member t h.0, number-isv t h.0, numbers-non_sub_teams ts h.1)
      refl

numbers-valid_sub_teams : (ts : List Text) → All IsCaseNumber ts → valid_sub_teams ts ≡ []
unfolding valid_sub_teams valid_sub_team
numbers-valid_sub_teams [] h = refl
numbers-valid_sub_teams (t ∷ ts) h =
    rw (digits-strip t h.0.0, number-member t h.0, number-isv t h.0, numbers-valid_sub_teams ts h.1)
      refl

numbers-Lacks : (ts : List Text) → All IsCaseNumber ts → All (Lacks b'|') ts
numbers-Lacks [] h = tt
numbers-Lacks (t ∷ ts) h = (digits-Lacks t h.0.0, numbers-Lacks ts h.1)

numbers-split :
    (t : Text) (ts : List Text)
    → All IsCaseNumber (t ∷ ts)
    → split (join (codes "|") (t ∷ ts)) (codes "|") ≡ t ∷ ts
numbers-split t ts h = split-join b'|' t ts (numbers-Lacks (t ∷ ts) h)

-- The numbers of the failed cases, joined by `|`, are scenarios of the next run that are read there as
-- cases: `getNonSubTeamPerScenarios` keeps every one of them, and `parseScenarios` takes none of them
-- for a subteam. This holds if some item failed.
pub fail_cases-non_sub_team :
    (is : List Item) (t : Text) (ts : List Text)
    → fail_cases is ≡ t ∷ ts
    → (get_non_sub_team_per_scenarios (join (codes "|") (fail_cases is))
        ≡ join (codes "|") (fail_cases is))
      × (parse_scenarios (join (codes "|") (fail_cases is)) ≡ [])
      × All IsCaseNumber (fail_cases is)
unfolding get_non_sub_team_per_scenarios parse_scenarios
fail_cases-non_sub_team is t ts e =
    let numbers : All IsCaseNumber (t ∷ ts) =
      subst (All IsCaseNumber) e (fail_cases-IsCaseNumber is) in
    let parts = numbers-split t ts numbers in
    rw e (
      ap (λ ps. join (codes "|") (non_sub_teams ps)) parts
          ∙ ap (join (codes "|")) (numbers-non_sub_teams (t ∷ ts) numbers),
      ap valid_sub_teams parts ∙ numbers-valid_sub_teams (t ∷ ts) numbers,
      numbers,
    )
