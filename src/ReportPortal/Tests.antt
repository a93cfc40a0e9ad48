-- ===== src/ReportPortal/Tests.antt =====
-- pipeline/reportportal.py: runs of the methods against a small service.
use yyou.Common.{◌+◌, ◌≡◌, refl, List, [], ◌∷◌, some, All, length}
use yyou.Text.{Text, codes, split, join}
use yyou.Session.{World, Event, Outcome, ok, Response, effects}
use yyou.Session.Trace.{Adds}
use yyou.ReportPortal.{Attr, Launch, Item, Body, launches, Request, Args}
use yyou.ReportPortal.Scenarios.{parse_scenarios, non_sub_teams, get_non_sub_team_per_scenarios}
use yyou.ReportPortal.Scenarios.Laws.{parse_scenarios-partition, IsTeam}
use yyou.ReportPortal.Matching.{Matched, match_teams}
use yyou.ReportPortal.Golang.{match_teams-IsGolangId, IsGolangId, IsUnmatched}
use yyou.ReportPortal.Launches.{
  get_launch_id_with_launch_name, delete_launch_by_name, merge_result, select_launches,
}
use yyou.ReportPortal.Removal.{delete_and_merge-IsGolangWork, IsGolangWork}
use yyou.ReportPortal.FailCases.{fail_cases}
use yyou.ReportPortal.FailCases.Laws.{fail_cases-non_sub_team, IsCaseNumber}
use yyou.ReportPortal.BuildNum.{add_more_build_num_to_launch}
use yyou.ReportPortal.Effects.{IsExtension, add_more_build_num-IsExtension}

abbrev pub args : Args
args = record {
  launch_url = codes "l";
  item_url = codes "i";
  log_url = codes "g";
  subteam = codes "OLM";
  buildnum = codes "7-aws_job";
  launchname = codes "n";
  scenarios = codes "OLM|12345";
}

abbrev attr : Text → Text → Attr
attr k v = record { key = some k; value = some v }

abbrev pub launch : Launch
launch = record {
  id = 4;
  uuid = codes "u";
  start_time = 1;
  end_time = 2;
  attributes =
      attr (codes "launchtype") (codes "golang")
      ∷ attr (codes "team") (codes "OLM")
      ∷ attr (codes "gbuildnum") (codes "7-aws_job")
      ∷ [];
}

abbrev answers : List (Event Request) → Request → Outcome (Response Body)
answers h r = ok (record { status_code = 200; text = []; json = launches (launch ∷ []) })

abbrev pub service : World Request Body
service = record {
  respond = answers;
  clock = λ h. record {
    year = 2023;
    month = 1;
    day = 1;
    hour = 0;
    minute = 0;
    second = 0;
    microsecond = 0;
  };
}

parse_scenarios-partition_example :
    (length (parse_scenarios (codes "OLM|12345"))
        + length (non_sub_teams (split (codes "OLM|12345") (codes "|")))
      ≡ length (split (codes "OLM|12345") (codes "|")))
    × All IsTeam (parse_scenarios (codes "OLM|12345"))
parse_scenarios-partition_example = parse_scenarios-partition (codes "OLM|12345")

abbrev matched : Matched
matched = record { ids = 4 ∷ []; subteam_not_matched = codes "SDN" ∷ [] }

teams_match :
    match_teams (codes "7-aws_job") (codes "OLM" ∷ codes "SDN" ∷ []) (launch ∷ []) ≡ some matched
unfolding match_teams
teams_match = refl

match_teams-IsGolangId_example :
    All (IsGolangId (launch ∷ [])) (4 ∷ [])
    × All (IsUnmatched (codes "7-aws_job") (launch ∷ [])) (codes "SDN" ∷ [])
match_teams-IsGolangId_example =
    match_teams-IsGolangId (codes "7-aws_job") (codes "OLM" ∷ codes "SDN" ∷ []) (launch ∷ [])
      matched teams_match

add_more_build_num-IsExtension_example :
    Adds (IsExtension args service 4) (add_more_build_num_to_launch args service 4)
add_more_build_num-IsExtension_example = add_more_build_num-IsExtension args service 4

abbrev failed : List Item
failed =
    record {
      id = 1;
      name = codes "OCP-12345:ab:x";
      type = codes "STEP";
      start_time = 1;
      end_time = 2;
    }
    ∷ record { id = 2; name = codes "y"; type = codes "STEP"; start_time = 1; end_time = 2 }
    ∷ []

failed_numbers : fail_cases failed ≡ codes "12345" ∷ []
unfolding fail_cases
failed_numbers = refl

fail_cases-non_sub_team_example :
    (get_non_sub_team_per_scenarios (join (codes "|") (fail_cases failed))
      ≡ join (codes "|") (fail_cases failed))
    × (parse_scenarios (join (codes "|") (fail_cases failed)) ≡ [])
    × All IsCaseNumber (fail_cases failed)
fail_cases-non_sub_team_example = fail_cases-non_sub_team failed (codes "12345") [] failed_numbers

launch_found :
    (get_launch_id_with_launch_name args service
      (codes "n")
      (some (codes "team", some (codes "OLM")))
      []).0
    ≡ ok (some (launch ∷ []))
unfolding get_launch_id_with_launch_name select_launches effects
launch_found = refl

delete_and_merge-IsGolangWork_example :
    Adds (IsGolangWork args service) (delete_launch_by_name args service)
    × Adds (IsGolangWork args service) (merge_result args service)
delete_and_merge-IsGolangWork_example = delete_and_merge-IsGolangWork args service
