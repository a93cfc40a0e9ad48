-- ===== src/SheetReport/Tests.antt =====
-- pipeline/auto_result_tool/collect_result_to_googlesheet.py: a report against a small service.
use yyou.Common.{◌+◌, ◌≡◌, refl, true, false, List, [], ◌∷◌, none, some}
use yyou.Text.{Text, codes, show, contains, split, member, join, ◌==◌}
use yyou.Dict.{lookup}
use yyou.Session.{World, Response, ok, effects}
use yyou.Session.Trace.{Adds}
use yyou.SheetReport.{Request, Case, Library, Config, cells, which_sheet}
use yyou.SheetReport.Write.{ginkgo_google_report, report_console, write_cases}
use yyou.SheetReport.Rounds.{Run, rounds, round}
use yyou.SheetReport.Rows.{IsSheetWork, ginkgo_google_report-IsSheetWork}
use yyou.SheetReport.Counts.{number_in, rounds-number}
use yyou.SheetReport.Lost.{rounds_lose_config, IsUnreported, reads}

abbrev failed_case : Case
failed_case = record {
  attrib = (codes "name", codes "[sig-operators] OLM should Author:ab-High-30786-work [x]") ∷ [];
  texts = some (codes "bad") ∷ some (codes "out") ∷ [];
}

-- Every pattern finds the same text.
abbrev library_with : List Text → Library
library_with found = record {
  findall = λ pattern text. found;
  file_list = λ page. page;
  unescape = λ t. t;
  parse = λ t. some (failed_case ∷ []);
  local_date = λ t. codes "2023/01/01";
}

abbrev library : Library
library = library_with (codes "4_9" ∷ [])

abbrev service : World Request (Unit {0})
service = record {
  respond = λ h r. ok (record { status_code = 200; text = []; json = tt });
  clock = λ h. record {
    year = 2023;
    month = 1;
    day = 1;
    hour = 0;
    minute = 0;
    second = 0;
    microsecond = 0;
  };
}

abbrev config : Config
config = record { sheets = codes "s" ∷ []; end_num = 7 }

abbrev job : Text
job = codes "ginkgo-test"

ginkgo_google_report-IsSheetWork_example :
    Adds
      (IsSheetWork job (codes "8"))
      (ginkgo_google_report library service job (codes "8") config none)
ginkgo_google_report-IsSheetWork_example =
    ginkgo_google_report-IsSheetWork library service job (codes "8") config none

abbrev first_run : Run
first_run = record { file = some config; str_date = none }

abbrev last_run : Run
last_run = record {
  file = some (record { sheets = codes "s" ∷ []; end_num = 9 });
  str_date = some (codes "2023/01/01");
}

two_rounds : (rounds library service job 2 first_run []).0 ≡ ok (last_run, true)
unfolding rounds round ginkgo_google_report report_console write_cases cells lookup split member
    contains join which_sheet effects ◌==◌
two_rounds = refl

rounds-number_example : number_in last_run.file ≡ some (7 + 2)
rounds-number_example = rounds-number library service job 2 first_run last_run 7 [] refl two_rounds

-- A case that is passed over: it has no child, as one that has passed.
abbrev passed_library : Library
passed_library = record library { parse = λ t. some (record { attrib = []; texts = [] } ∷ []) }

abbrev reply : Response (Unit {0})
reply = record { status_code = 200; text = []; json = tt }

nothing_to_report : IsUnreported passed_library service job (show (config.end_num + 1)) config []
unfolding which_sheet cells join ◌==◌
nothing_to_report = record {
  page = reply;
  console = reply;
  file = reply;
  sheet_name = codes "s";
  cases = record { attrib = []; texts = [] } ∷ [];
  page_answer = refl;
  accepted = refl;
  has_file = refl;
  console_answer = refl;
  sheet = refl;
  has_launch = refl;
  file_answer = refl;
  parsed = refl;
  passed_over = (refl, tt);
}

rounds_lose_config_example : rounds passed_library service job 3 first_run [] ≡ (
  ok (record { file = none; str_date = none }, false),
  reads passed_library service job (show (config.end_num + 1)) reply [],
)
rounds_lose_config_example =
    rounds_lose_config passed_library service job 2 config [] nothing_to_report
