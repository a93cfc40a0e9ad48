-- ===== src/ReportPortal/Scenarios/Laws.antt =====
-- Every scenario is a subteam or is not, and the subteams are read back from the scenarios.
use yyou.Common.{
  ◌+◌, ◌≡◌, refl, ap, ◌∙◌, Bool, true, false, not, ◌&&◌, List, [], ◌∷◌, arith, All, length,
  if◌then◌else◌, Bool-cases, inl, inr, All-append, length-append, &&-true, ◌==◌ as nat_eq,
}
use yyou.Text.{Text, codes, split, join, strip, member, ◌==◌}
use yyou.Text.Laws.{eq_sound}
use yyou.Text.Joining.{Lacks, split-join}
use yyou.HandleResult.Split.{subteam}
use yyou.ReportPortal.Scenarios.{
  isv, valid_sub_team, valid_sub_teams, parse_scenarios, non_sub_teams,
}

member-All : (Q : Text → Type 0) (t : Text) (ts : List Text) → All Q ts → member t ts ≡ true → Q t
unfolding member
member-All Q t [] h e = absurd (cc)
member-All Q t (u ∷ us) h e = elim (Bool-cases (t == u)) [
  | inl same ↦ rw (eq_sound t u same) h.0
  | inr other ↦ member-All Q t us h.1 (rw other at e)
]

isv_is_no_team : member isv subteam ≡ false
unfolding member subteam ◌==◌
isv_is_no_team = refl

isv_operators : member (codes "ISV_Operators") subteam ≡ true
unfolding member subteam ◌==◌
isv_operators = refl

abbrev pub IsTeam : Text → Type 0
IsTeam t = member t subteam ≡ true

valid_sub_team-IsTeam : (s : Text) → All IsTeam (valid_sub_team s)
unfolding valid_sub_team
valid_sub_team-IsTeam s = elim (Bool-cases (strip s == isv)) [
  | inl x ↦ elim (Bool-cases (member (strip s) subteam)) [
    | inl y ↦ rw (x, y) (isv_operators, (y, tt))
    | inr y ↦ rw (x, y) (isv_operators, tt)
  ]
  | inr x ↦ elim (Bool-cases (member (strip s) subteam)) [
    | inl y ↦ rw (x, y) (y, tt)
    | inr y ↦ rw (x, y) tt
  ]
]

valid_sub_teams-IsTeam : (ss : List Text) → All IsTeam (valid_sub_teams ss)
unfolding valid_sub_teams
valid_sub_teams-IsTeam [] = tt
valid_sub_teams-IsTeam (s ∷ ss) =
    All-append IsTeam (valid_sub_team s) (valid_sub_teams ss) (valid_sub_team-IsTeam s)
      (valid_sub_teams-IsTeam ss)

one_of_both :
    (s : Text)
    → length (valid_sub_team s)
      ≡ (if not (strip s == isv) && not (member (strip s) subteam) then 0 else 1)
unfolding valid_sub_team
one_of_both s = elim (Bool-cases (strip s == isv)) [
  | inl x ↦
      let no_team : member (strip s) subteam ≡ false =
        ap (λ t. member t subteam) (eq_sound (strip s) isv x) ∙ isv_is_no_team in
      rw (x, no_team) refl
  | inr x ↦ rw x (ground arith)
]

sub_teams-length :
    (ss : List Text) → length (valid_sub_teams ss) + length (non_sub_teams ss) ≡ length ss
unfolding valid_sub_teams non_sub_teams
sub_teams-length [] = refl
sub_teams-length (s ∷ ss) = ground (
  arith,
  one_of_both s,
  length-append (valid_sub_team s) (valid_sub_teams ss),
  sub_teams-length ss,
)

-- Each part of the scenarios is counted exactly once, as a subteam or as no subteam, and all that
-- counts as a subteam is one.
pub parse_scenarios-partition :
    (scenarios : Text)
    → (length (parse_scenarios scenarios) + length (non_sub_teams (split scenarios (codes "|")))
        ≡ length (split scenarios (codes "|")))
      × All IsTeam (parse_scenarios scenarios)
unfolding parse_scenarios
parse_scenarios-partition scenarios = (
  sub_teams-length (split scenarios (codes "|")),
  valid_sub_teams-IsTeam (split scenarios (codes "|")),
)

-- A name of a subteam holds no `|`, has no white space round it and is not "isv]".
abbrev IsPlain : Text → Type 0
IsPlain t = Lacks b'|' t × (strip t ≡ t) × ((t == isv) ≡ false)

unfoldable no_bar : Text → Bool
no_bar [] = true
no_bar (c ∷ cs) = not (nat_eq c b'|') && no_bar cs

unfoldable plain_test : Text → Bool
plain_test t = no_bar t && ((strip t == t) && not (t == isv))

unfoldable all_plain : List Text → Bool
all_plain [] = true
all_plain (t ∷ ts) = plain_test t && all_plain ts

all_plain-true : all_plain subteam ≡ true
unfolding all_plain plain_test no_bar subteam strip ◌==◌
all_plain-true = refl

not-true : (b : Bool) → not b ≡ true → b ≡ false
not-true b h = ground arith

no_bar-Lacks : (t : Text) → no_bar t ≡ true → Lacks b'|' t
unfolding no_bar
no_bar-Lacks [] h = tt
no_bar-Lacks (c ∷ cs) h =
    let (here, rest) = &&-true (not (nat_eq c b'|')) (no_bar cs) h in
    (not-true (nat_eq c b'|') here, no_bar-Lacks cs rest)

plain_test-IsPlain : (t : Text) → plain_test t ≡ true → IsPlain t
unfolding plain_test
plain_test-IsPlain t h =
    let (lacks, rest) = &&-true (no_bar t) ((strip t == t) && not (t == isv)) h in
    let (same, other) = &&-true (strip t == t) (not (t == isv)) rest in
    (no_bar-Lacks t lacks, eq_sound (strip t) t same, not-true (t == isv) other)

all_plain-IsPlain : (ts : List Text) → all_plain ts ≡ true → All IsPlain ts
unfolding all_plain
all_plain-IsPlain [] h = tt
all_plain-IsPlain (t ∷ ts) h =
    let (here, rest) = &&-true (plain_test t) (all_plain ts) h in
    (plain_test-IsPlain t here, all_plain-IsPlain ts rest)

subteam-IsPlain : All IsPlain subteam
subteam-IsPlain = all_plain-IsPlain subteam all_plain-true

team-IsPlain : (t : Text) → IsTeam t → IsPlain t
team-IsPlain t h = member-All IsPlain t subteam subteam-IsPlain h

valid_sub_team-team : (t : Text) → IsTeam t → valid_sub_team t ≡ t ∷ []
unfolding valid_sub_team
valid_sub_team-team t h =
    let (_, stripped, other) = team-IsPlain t h in rw (stripped, other, h) refl

valid_sub_teams-teams : (ts : List Text) → All IsTeam ts → valid_sub_teams ts ≡ ts
unfolding valid_sub_teams
valid_sub_teams-teams [] h = refl
valid_sub_teams-teams (t ∷ ts) h = rw (valid_sub_team-team t h.0, valid_sub_teams-teams ts h.1) refl

teams-Lacks : (ts : List Text) → All IsTeam ts → All (Lacks b'|') ts
teams-Lacks [] h = tt
teams-Lacks (t ∷ ts) h = ((team-IsPlain t h.0).0, teams-Lacks ts h.1)

-- The subteams that did not match are passed to the next run joined by `|`, and are read back there.
parse_scenarios-join :
    (t : Text) (ts : List Text)
    → All IsTeam (t ∷ ts)
    → parse_scenarios (join (codes "|") (t ∷ ts)) ≡ t ∷ ts
unfolding parse_scenarios
parse_scenarios-join t ts h =
    ap valid_sub_teams (split-join b'|' t ts (teams-Lacks (t ∷ ts) h))
    ∙ valid_sub_teams-teams (t ∷ ts) h
