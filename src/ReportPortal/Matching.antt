-- ===== src/ReportPortal/Matching.antt =====
-- pipeline/reportportal.py: the part of `checkLaunchsByNameScenario` behind the request. `none` is an
-- `IndexError`.
use yyou.Common.Maybe.{◌>>=◌}
use yyou.Common.{
  ℕ, Bool, true, false, ◌&&◌, ◌||◌, not, List, [], ◌∷◌, ◌++◌, Option, none, some, if◌then◌else◌,
  get_elem?,
}
use yyou.Text.{Text, codes, split, replace, ◌==◌}
use yyou.Text.Regex.{is_build_num}
use yyou.ReportPortal.{Attr, Launch, is_text, is_golang_launch}
use yyou.ReportPortal.Scenarios.{parse_scenarios}

-- `s.split(sep)[i]`
abbrev pub part : Text → Text → ℕ → Option Text
part s sep i = get_elem? (split s sep) i

-- `bidType` and `bidJobName`; a number with no job name has the default one.
unfoldable pub bid_type : Text → Option Text
unfolding split replace
bid_type bid = do front ← part (replace bid (codes " ") []) (codes "_") 0; part front (codes "-") 1

unfoldable pub bid_job_name : Text → Text
unfolding split replace
bid_job_name bid = elim (part (replace bid (codes " ") []) (codes "_") 1) [
  | none ↦ codes "ginkgo-test"
  | some job ↦ job
]

-- The second text is compared only if the first ones are equal.
unfoldable pub is_same_job : Text → Text → Option Bool
unfolding bid_type bid_job_name ◌==◌
is_same_job buildnum bid = do
  kind ← bid_type bid
  job ← part buildnum (codes "_") 1
  if bid_job_name bid == job
      then part buildnum (codes "_") 0
        >>= (λ front. part front (codes "-") 1 >>= (λ type. some (kind == type)))
      else some false

-- The loop over the build numbers of a launch: its id, once for each that matches.
unfoldable pub match_bids : Text → ℕ → List Text → Option (List ℕ)
unfolding is_build_num is_same_job
match_bids buildnum id [] = some []
match_bids buildnum id (bid ∷ bids) =
    let rest = match_bids buildnum id bids in
    if not (is_build_num bid)
    then rest
    else is_same_job buildnum bid
      >>= (λ same. rest >>= (λ ids. some (if same then id ∷ ids else ids)))

-- The value of the last `gbuildnum`, starting from the empty text.
unfoldable pub build_num_of : List Attr → Text → Text
unfolding is_text
build_num_of [] found = found
build_num_of (a ∷ as') found = build_num_of as' (
    if is_text a.key (codes "gbuildnum") then elim a.value [ none ↦ found | some v ↦ v ] else found)

-- The loop over the attributes of a launch.
unfoldable pub match_attrs : Text → ℕ → Text → Text → List Attr → Option (List ℕ)
unfolding match_bids is_text split ◌==◌
match_attrs buildnum id st nums [] = some []
match_attrs buildnum id st nums (a ∷ as') =
    let rest = match_attrs buildnum id st nums as' in
    if is_text a.key (codes "team") && is_text a.value st && not (nums == [])
    then match_bids buildnum id (split nums (codes ","))
      >>= (λ ids. rest >>= (λ more. some (ids ++ more)))
    else rest

-- The loop over the launches.
unfoldable pub match_team : Text → Text → List Launch → Option (List ℕ)
unfolding match_attrs build_num_of is_golang_launch
match_team buildnum st [] = some []
match_team buildnum st (l ∷ ls) =
    let rest = match_team buildnum st ls in
    if not (is_golang_launch l.attributes)
    then rest
    else match_attrs buildnum l.id st (build_num_of l.attributes []) l.attributes
      >>= (λ ids. rest >>= (λ more. some (ids ++ more)))

pub record Matched : Type 0 where
  pub ids : List ℕ
  pub subteam_not_matched : List Text

abbrev pub is_nil : List ℕ → Bool
is_nil [] = true
is_nil (x ∷ xs) = false

-- The loop over the subteams.
unfoldable pub match_teams : Text → List Text → List Launch → Option Matched
unfolding match_team
match_teams buildnum [] content = some (record { ids = []; subteam_not_matched = [] })
match_teams buildnum (st ∷ sts) content = do
  ids ← match_team buildnum st content
  m ← match_teams buildnum sts content
  some (record {
    ids = ids ++ m.ids;
    subteam_not_matched = if is_nil ids then st ∷ m.subteam_not_matched else m.subteam_not_matched;
  })

-- What is returned: "LAUNCHRESULT" and "SUBMATCHRESULT".
pub data CheckResult : Type 0 where
  newlaunch newgolanglaunch nosubteaminscenario : CheckResult
  existinglaunch : Matched → CheckResult

unfoldable pub has_golang_launch : List Launch → Bool
unfolding is_golang_launch
has_golang_launch [] = false
has_golang_launch (l ∷ ls) = is_golang_launch l.attributes || has_golang_launch ls

unfoldable pub check_teams : Text → List Text → List Launch → Option CheckResult
unfolding match_teams
check_teams buildnum [] content = some nosubteaminscenario
check_teams buildnum (st ∷ sts) content = do
  m ← match_teams buildnum (st ∷ sts) content
  some (existinglaunch m)

unfoldable pub check_content : Text → Text → List Launch → Option CheckResult
unfolding check_teams has_golang_launch parse_scenarios
check_content buildnum scenarios [] = some newlaunch
check_content buildnum scenarios (l ∷ ls) =
    let checked = check_teams buildnum (parse_scenarios scenarios) (l ∷ ls) in
    if not (has_golang_launch (l ∷ ls)) then some newgolanglaunch else checked
