-- ===== src/SlackReport/Tests.antt =====
-- pipeline/auto_result_tool/collect_result_to_slack.py: a report against a small service.
use yyou.Common.{ℕ, ◌≡◌, refl, true, false, List, [], ◌∷◌, Option, none, some, All}
use yyou.Text.{Text, codes, ◌==◌}
use yyou.Dict.{lookup}
use yyou.Session.{World, ok, raised}
use yyou.Session.Trace.{Adds}
use yyou.ReportPortal.{Attr}
use yyou.SlackReport.{Launch, Body, launches, Request, Args, check_subteam}
use yyou.SlackReport.Launches.{Tally, info_of, set_launch, add_launches}
use yyou.SlackReport.Launches.Kept.{IsKept, add_launches-IsKept, add_launches_no_version}
use yyou.SlackReport.Collect.{CaseResult, Testrun}
use yyou.SlackReport.Message.{all_team_lines, report_testruns, collect_all_result_to_slack}
use yyou.SlackReport.Message.Teams.{report_testruns_no_ids}
use yyou.SlackReport.Message.Effects.{IsReport, collect_all-IsReport}

abbrev attr : Text → Text → Attr
attr k v = record { key = some k; value = some v }

abbrev launch : Launch
launch = record {
  id = 4;
  name = codes "n";
  total = 9;
  failed = some 2;
  skipped = none;
  to_investigate = none;
  attributes = attr (codes "profilename") (codes "p") ∷ attr (codes "team") (codes "OLM") ∷ [];
}

abbrev args : Args
args = record {
  launch_url = codes "l";
  item_url = codes "i";
  ui_url = codes "u/";
  jenkins_url = codes "j/";
  slack_url = codes "s";
  launchnames = codes "n:m";
  subteam = codes "ALL";
  release_version = codes "4_10";
  cluster = [];
  filter_type = codes "equal";
  silence = false;
  additional_message = [];
}

abbrev service : World Request Body
service = record {
  respond = λ h r. ok (record { status_code = 200; text = []; json = launches (launch ∷ []) });
  clock = λ h. record {
    year = 2023;
    month = 1;
    day = 1;
    hour = 0;
    minute = 0;
    second = 0;
    microsecond = 0;
  };
}

teams_are_valid : check_subteam args ≡ true
unfolding check_subteam
teams_are_valid = refl

add_launches-IsKept_example :
    All (IsKept (codes "4_10")) (add_launches (codes "4_10") (launch ∷ []) [])
add_launches-IsKept_example = add_launches-IsKept (codes "4_10") (launch ∷ []) [] tt

has_profile : lookup (codes "profilename") (info_of launch).entries ≡ some (some (codes "p"))
unfolding lookup info_of
has_profile = refl

has_no_version : lookup (codes "version") (info_of launch).entries ≡ none
unfolding lookup info_of
has_no_version = refl

add_launches_no_version_example :
    add_launches (codes "4_10") (launch ∷ launch ∷ []) [] ≡ set_launch 4 (info_of launch) []
add_launches_no_version_example =
    add_launches_no_version b'4' (codes "_10") launch (launch ∷ []) [] (some (codes "p"))
      has_profile has_no_version

abbrev tally : ℕ → Tally
tally n = record { total = 9; failed = n; skipped = 0; to_investigate = 0 }

abbrev known : CaseResult
known = record { launch_id = 4; faild_case = some (codes "12345-ab"); counts = tally 1 }

abbrev unknown : CaseResult
unknown = record { launch_id = 5; faild_case = none; counts = tally 2 }

abbrev fine : CaseResult
fine = record { launch_id = 6; faild_case = none; counts = tally 0 }

abbrev two_teams : List (Option Text × CaseResult)
two_teams = (some (codes "OLM"), known) ∷ (some (codes "SDN"), fine) ∷ []

abbrev expected : List Text × Text
expected = (
  codes "---------- subteam: OLM -------------"
      ∷ codes "total: 9, failed: 1, skipped: 0, to_investigate: 0, u/4 "
      ∷ codes "Failed Cases: 12345-ab"
      ∷ [],
  codes "@olm-qe-team ",
)

two_teams_lines : all_team_lines (codes "u/") two_teams ≡ some expected
unfolding all_team_lines ◌==◌
two_teams_lines = refl

abbrev run : Testrun
run = record {
  profilename = some (codes "p");
  build_version = some (codes "b");
  gbuildnum = some (codes "7");
  case_result = (some (codes "OLM"), known) ∷ (some (codes "SDN"), unknown) ∷ [];
}

report_testruns_no_ids_example :
    report_testruns args service ((some (codes "r"), run) ∷ (some (codes "q"), run) ∷ []) 0 []
    ≡ (raised, [])
report_testruns_no_ids_example =
    report_testruns_no_ids args service (some (codes "r")) run ((some (codes "q"), run) ∷ []) 0
      ((some (codes "OLM"), known) ∷ []) [] (some (codes "SDN")) unknown [] refl refl refl

collect_all-IsReport_example : Adds (IsReport args) (collect_all_result_to_slack args service)
collect_all-IsReport_example = collect_all-IsReport args service
