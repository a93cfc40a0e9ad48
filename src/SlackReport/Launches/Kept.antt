-- ===== src/SlackReport/Launches/Kept.antt =====
-- pipeline/auto_result_tool/collect_result_to_slack.py: which launches `getLaunchIdWithLaunchName` keeps.
use yyou.Common.{
  ℕ, ◌≡◌, ◌≢◌, refl, ap, true, false, List, [], ◌∷◌, Option, none, some, arith, All, Bool-cases,
  inl, inr, ◌==◌ as nat_eq,
}
use yyou.Text.{Text, codes}
use yyou.Text.Laws.{eq_sound}
use yyou.Dict.{lookup}
use yyou.ReportPortal.{is_text}
use yyou.SlackReport.{Launch}
use yyou.SlackReport.Launches.{
  Info, Launchs, set_launch, pop_launch, info_of, keep_or_pop, add_launch, add_launches,
}

-- No version is asked for, or the launch has none, or it has the one that is asked for.
pub data IsVersion (release_version : Text) (info : Info) : Type 0 where
  any : release_version ≡ [] → IsVersion release_version info
  missing : lookup (codes "version") info.entries ≡ none → IsVersion release_version info
  matching :
      lookup (codes "version") info.entries ≡ some (some release_version)
      → IsVersion release_version info

abbrev pub IsKept : Text → ℕ × Info → Type 0
IsKept release_version (id, info) =
    (lookup (codes "profilename") info.entries ≢ none) × IsVersion release_version info

same_id : (id : ℕ) → nat_eq id id ≡ true
same_id id = ground arith

set_launch-All :
    (P : ℕ × Info → Type 0) (id : ℕ) (info : Info) (d : Launchs)
    → ((j : ℕ) → P (j, info))
    → All P d
    → All P (set_launch id info d)
unfolding set_launch
set_launch-All P id info [] p a = (p id, tt)
set_launch-All P id info ((j, old) ∷ d) p (q, a) = elim (Bool-cases (nat_eq j id)) [
  | inl here ↦ rw here (p j, a)
  | inr there ↦ rw there (q, set_launch-All P id info d p a)
]

-- A launch that is set and popped at once leaves the others as they are, but for its own id.
pop-set-All :
    (P : ℕ × Info → Type 0) (id : ℕ) (info : Info) (d : Launchs)
    → All P d
    → All P (pop_launch id (set_launch id info d))
unfolding pop_launch set_launch
pop-set-All P id info [] a = rw (same_id id) tt
pop-set-All P id info ((j, old) ∷ d) (q, a) = elim (Bool-cases (nat_eq j id)) [
  | inl here ↦ rw (here, here) a
  | inr there ↦ rw (there, there) (q, pop-set-All P id info d a)
]

is_text_sound : (o : Option Text) (t : Text) → is_text o t ≡ true → o ≡ some t
unfolding is_text
is_text_sound none t e = absurd (cc)
is_text_sound (some s) t e = ap some (eq_sound s t e)

keep_or_pop-All :
    (P : ℕ × Info → Type 0) (release_version : Text) (profile version : Option (Option Text))
    (kept popped : Launchs)
    → (profile ≢ none → version ≡ none → All P kept)
    → (profile ≢ none → release_version ≡ [] → All P kept)
    → (profile ≢ none → version ≡ some (some release_version) → All P kept)
    → All P popped
    → All P (keep_or_pop release_version profile version kept popped).0
unfolding keep_or_pop
keep_or_pop-All P release_version none version kept popped ka kb kc b = b
keep_or_pop-All P [] (some profile) version kept popped ka kb kc b = kb (λ x. absurd (cc)) refl
keep_or_pop-All P (c ∷ s) (some profile) none kept popped ka kb kc b = ka (λ x. absurd (cc)) refl
keep_or_pop-All P (c ∷ s) (some profile) (some version) kept popped ka kb kc b =
    elim (Bool-cases (is_text version (c ∷ s))) [
      | inl same ↦ rw same (kc (λ x. absurd (cc)) (ap some (is_text_sound version (c ∷ s) same)))
      | inr differs ↦ rw differs b
    ]

add_launch-IsKept :
    (release_version : Text) (l : Launch) (d : Launchs)
    → All (IsKept release_version) d
    → All (IsKept release_version) (add_launch release_version l d).0
unfolding add_launch
add_launch-IsKept release_version l d a =
    let set_it : lookup (codes "profilename") (info_of l).entries ≢ none
        → IsVersion release_version (info_of l)
        → All (IsKept release_version) (set_launch l.id (info_of l) d) =
      λ p v. set_launch-All (IsKept release_version) l.id (info_of l) d (λ j. (p, v)) a in
    keep_or_pop-All (IsKept release_version) release_version _ _ _ _ (λ p v. set_it p (missing v))
      (λ p v. set_it p (any v)) (λ p v. set_it p (matching v))
      (pop-set-All (IsKept release_version) l.id (info_of l) d a)

-- Each launch that `getLaunchIdWithLaunchName` collects from an answer has an attribute
-- "profilename", and if a version is asked for, it has that version or no attribute "version" at
-- all, provided that this holds of those collected before.
pub add_launches-IsKept :
    (release_version : Text) (content : List Launch) (d : Launchs)
    → All (IsKept release_version) d
    → All (IsKept release_version) (add_launches release_version content d)
unfolding add_launches
add_launches-IsKept release_version [] d a = a
add_launches-IsKept release_version (l ∷ ls) d a =
    let step = add_launch release_version l d in
    let next = add_launch-IsKept release_version l d a in
    elim (Bool-cases step.1) [
      | inl on ↦ rw on (add_launches-IsKept release_version ls step.0 next)
      | inr off ↦ rw off next
    ]

keep_or_pop_no_version :
    (c : ℕ) (s : Text) (profile : Option Text) (o v : Option (Option Text)) (kept popped : Launchs)
    → o ≡ some profile
    → v ≡ none
    → keep_or_pop (c ∷ s) o v kept popped ≡ (kept, false)
unfolding keep_or_pop
keep_or_pop_no_version c s profile o v kept popped p e = rw (p, e) refl

-- If a version is asked for, a launch with a profile and no attribute "version" is collected whatever
-- version it is of, and no launch after it is looked at.
pub add_launches_no_version :
    (c : ℕ) (s : Text) (l : Launch) (ls : List Launch) (d : Launchs) (profile : Option Text)
    → lookup (codes "profilename") (info_of l).entries ≡ some profile
    → lookup (codes "version") (info_of l).entries ≡ none
    → add_launches (c ∷ s) (l ∷ ls) d ≡ set_launch l.id (info_of l) d
unfolding add_launches add_launch
add_launches_no_version c s l ls d profile p v =
    rw
      (keep_or_pop_no_version c s profile (lookup (codes "profilename") (info_of l).entries)
        (lookup (codes "version") (info_of l).entries) (set_launch l.id (info_of l) d)
        (pop_launch l.id (set_launch l.id (info_of l) d)) p v)
      refl
