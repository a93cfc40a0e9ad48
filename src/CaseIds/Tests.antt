-- ===== src/CaseIds/Tests.antt =====
-- pipeline/getfailcaseid.py: a run against a service with one launch, in which one case failed.
use yyou.Common.{◌≡◌, refl, List, [], ◌∷◌, some}
use yyou.Text.{codes}
use yyou.Session.{World, Event, Outcome, ok, Response, effects}
use yyou.ReportPortal.{Body, launches, items, Request, Args}
use yyou.CaseIds.{
  get_fail_case_id, get_launch_id_with_launch_name, answer_for, all_fitting, only_id, answer_of,
}
use yyou.CaseIds.Laws.{IsAnswer, get_fail_case_id-IsAnswer}

abbrev args : Args
args = record {
  launch_url = codes "l";
  item_url = codes "i";
  log_url = codes "g";
  subteam = codes "OLM";
  buildnum = [];
  launchname = codes "n";
  scenarios = [];
}

abbrev one_launch : Body
one_launch = launches (
    record {
      id = 4;
      uuid = codes "u";
      start_time = 1;
      end_time = 2;
      attributes = record { key = some (codes "team"); value = some (codes "OLM") } ∷ [];
    }
    ∷ [])

abbrev one_item : Body
one_item = items (
    record {
      id = 1;
      name = codes "OCP-12345:ab:x";
      type = codes "STEP";
      start_time = 1;
      end_time = 2;
    }
    ∷ [])

abbrev answered : Body → Outcome (Response Body)
answered json = ok (record { status_code = 200; text = []; json = json })

-- The launches come first, then the items.
abbrev respond : List (Event Request) → Request → Outcome (Response Body)
respond [] r = answered one_launch
respond (e ∷ es) r = answered one_item

abbrev service : World Request Body
service = record {
  respond = respond;
  clock = λ h. record {
    year = 2023;
    month = 1;
    day = 1;
    hour = 0;
    minute = 0;
    second = 0;
    microsecond = 0;
  };
}

one_failed : (get_fail_case_id args service []).0 ≡ ok (some (codes "12345"))
unfolding get_fail_case_id get_launch_id_with_launch_name all_fitting only_id answer_for answer_of
    effects
one_failed = refl

get_fail_case_id-IsAnswer_example : IsAnswer (codes "12345")
get_fail_case_id-IsAnswer_example =
    get_fail_case_id-IsAnswer args service [] (codes "12345") one_failed
