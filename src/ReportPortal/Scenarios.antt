-- ===== src/ReportPortal/Scenarios.antt =====
-- pipeline/reportportal.py: `parseScenarios` and `getNonSubTeamPerScenarios`.
pub mod Laws
use yyou.Common.{Bool, true, false, not, ◌&&◌, List, [], ◌∷◌, ◌++◌, if◌then◌else◌}
use yyou.Text.{Text, codes, split, join, strip, member, ◌==◌}
use yyou.HandleResult.Split.{subteam}

abbrev pub isv : Text
isv = codes "isv]"

-- What one part of the scenarios adds to the list of subteams.
unfoldable pub valid_sub_team : Text → List Text
valid_sub_team s =
    let sr = strip s in
    (if sr == isv then codes "ISV_Operators" ∷ [] else [])
    ++ (if member sr subteam then sr ∷ [] else [])

unfoldable pub valid_sub_teams : List Text → List Text
valid_sub_teams [] = []
valid_sub_teams (s ∷ ss) = valid_sub_team s ++ valid_sub_teams ss

unfoldable pub parse_scenarios : Text → List Text
parse_scenarios scenarios = valid_sub_teams (split scenarios (codes "|"))

unfoldable pub non_sub_teams : List Text → List Text
non_sub_teams [] = []
non_sub_teams (s ∷ ss) =
    let sr = strip s in
    let rest = non_sub_teams ss in
    if not (sr == isv) && not (member sr subteam) then sr ∷ rest else rest

-- An empty list joins to the empty text, which the source returns in a branch of its own.
unfoldable pub get_non_sub_team_per_scenarios : Text → Text
get_non_sub_team_per_scenarios scenarios =
    join (codes "|") (non_sub_teams (split scenarios (codes "|")))
