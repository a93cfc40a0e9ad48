-- ===== src/ReportPortal/RunTests.antt =====
-- pipeline/reportportal.py: runs of the reruns against small services.
use yyou.Common.{
  ℕ, ◌+◌, ◌≡◌, refl, Bool, true, false, ◌||◌, List, [], ◌∷◌, ◌++◌, Option, none, some,
}
use yyou.Text.{Text, codes, member, ◌==◌}
use yyou.Junit.{Testcase, Testsuite}
use yyou.Session.{World, Event, sent, Outcome, ok, effects}
use yyou.Session.Trace.{Adds}
use yyou.ReportPortal.{
  Body, created, launch_id, other, finish_item, Request, get, post, put, remove,
}
use yyou.ReportPortal.Tests.{args, launch, service}
use yyou.ReportPortal.Items.{
  finish_child, write_log, write_logs, first_text, create_child, start_child, start_at,
  finish_create_child, child_status, is_logged,
}
use yyou.ReportPortal.Items.Finished.{finish_child-IsLogged, finish_child_no_output, IsLogged}
use yyou.ReportPortal.Rerun.{Old, Progress, write_case, write_created, write_cases}
use yyou.Session.Runs.{Leaves}
use yyou.ReportPortal.Rerun.{write_launch}
use yyou.ReportPortal.Rerun.Runs.Launch.{write_launch-IsLaunchRun, IsLaunchRun}
use yyou.ReportPortal.Rerun.Cases.{
  write_cases-IsCaseWrite, write_cases-total_seconds, IsCaseWrite, total_seconds, any_failed,
}

-- It has a launch with the id 5, and starts items with the id 7.
abbrev reply : Request → Body
reply (get url) = launch_id 5
reply (post url json) = created (codes "7")
reply (put url json) = other
reply (remove url json) = other

abbrev runner : World Request Body
runner = record {
  respond = λ h r. ok (record { status_code = 200; text = []; json = reply r });
  clock = service.clock;
}

abbrev failed_case : Testcase
failed_case = record {
  name = codes "a";
  time = codes "3";
  failure = codes "bad" ∷ [];
  skipped = [];
  system_out = codes "out" ∷ [];
}

abbrev suite : Testsuite
suite = record {
  name = codes "s";
  time = codes "3";
  tests = none;
  failures = none;
  skipped = none;
  errors = none;
  cases = failed_case ∷ [];
}

abbrev nothing_old : Old
nothing_old = record { deleted_list = []; should_deleted_list = []; existing_case_time_map = [] }

abbrev start_progress : Progress
start_progress = record { suiteduration = 0; has_failed = false }

abbrev end_progress : Progress
end_progress = record { suiteduration = 3; has_failed = true }

abbrev three : Text → Option ℕ
three t = some 3

abbrev finished : Outcome Bool × List (Event Request)
finished =
    finish_child args runner (codes "7") (codes "u") (codes "1") (codes "2") (codes "bad" ∷ []) []
      (codes "out" ∷ []) []

finished_ok : finished.0 ≡ ok true
unfolding finish_child write_logs write_log first_text effects
finished_ok = refl

finish_child-IsLogged_example :
    (es : List (Event Request)) × (finished.1
      ≡ ([] ++ es)
        ++ (sent (
              put (args.item_url ++ codes "/" ++ codes "7") (
                finish_item
                  (codes "2")
                  (codes "u")
                  (some (child_status (codes "bad" ∷ []) []))
                  (is_logged args runner (codes "bad" ∷ []) [])))
            ∷ []))
    × IsLogged (codes "bad" ∷ []) [] (codes "out" ∷ []) args (codes "7") (codes "u") (codes "1") es
finish_child-IsLogged_example =
    finish_child-IsLogged args runner (codes "7") (codes "u") (codes "1") (codes "2")
      (codes "bad" ∷ []) [] (codes "out" ∷ []) [] finished_ok

no_text : first_text ([] ∷ []) ≡ none
unfolding first_text
no_text = refl

finish_child_no_output_example :
    finish_child args runner
      (codes "7")
      (codes "u")
      (codes "1")
      (codes "2")
      []
      (codes "x" ∷ [])
      ([] ∷ [])
      []
    ≡ (ok false, [])
finish_child_no_output_example =
    finish_child_no_output args runner (codes "7") (codes "u") (codes "1") (codes "2") []
      (codes "x" ∷ []) ([] ∷ []) [] refl no_text

write_cases-IsCaseWrite_example : Adds (IsCaseWrite args nothing_old) (
    write_cases args runner three
      (codes "7")
      (codes "u")
      nothing_old
      1
      (failed_case ∷ [])
      start_progress)
write_cases-IsCaseWrite_example =
    write_cases-IsCaseWrite args runner three nothing_old (codes "7") (codes "u") 1
      (failed_case ∷ []) start_progress

cases_written :
    (write_cases args runner three
      (codes "7")
      (codes "u")
      nothing_old
      1
      (failed_case ∷ [])
      start_progress
      []).0
    ≡ ok (end_progress, true)
unfolding write_cases write_case write_created create_child start_child start_at finish_create_child
    finish_child write_logs write_log first_text effects ◌==◌ member
cases_written = refl

write_cases-total_seconds_example :
    (n : ℕ) × (total_seconds three (failed_case ∷ []) ≡ some n)
    × (3 ≡ 0 + n)
    × (true ≡ (false || any_failed (failed_case ∷ [])))
write_cases-total_seconds_example =
    write_cases-total_seconds args runner three nothing_old (codes "7") (codes "u") 1
      (failed_case ∷ []) start_progress end_progress [] cases_written

write_launch-IsLaunchRun_example :
    Leaves (IsLaunchRun args launch suite) (write_launch args runner three launch suite nothing_old)
write_launch-IsLaunchRun_example =
    write_launch-IsLaunchRun args runner three launch suite nothing_old
