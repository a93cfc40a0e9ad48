-- ===== src/ReportPortal/Rerun/Closed.antt =====
-- pipeline/reportportal.py: a launch that `rerunResult` has opened again is closed again, whatever goes
-- wrong in between.
use yyou.Common.{ℕ, ◌≡◌, Bool, true, false, List, [], ◌∷◌, ◌++◌, Option, none, some}
use yyou.Text.{Text, codes}
use yyou.Junit.{Testcase, Testsuite}
use yyou.Session.{World, Event, sent, Outcome, ok}
use yyou.Session.Total.{
  Returns, Returns-pure, Returns-attempt, Returns-bind, Returns-when_some, Returns-if,
}
use yyou.ReportPortal.{Launch, Body, finish_item, launch_finished, Request, put, Args}
use yyou.ReportPortal.Items.{iso, later_by, start_at, start_suite}
use yyou.ReportPortal.Rerun.Handled.{IsAfter}
use yyou.ReportPortal.Rerun.{Old, Progress, suiteresult, advance, write_cases}

abbrev pub suite_end : Args → (uuid : Text) → Launch → Progress → Event Request
suite_end args uuid l p = sent (
    put (args.item_url ++ codes "/" ++ uuid)
      (finish_item (iso (later_by (later_by l.start_time 1) p.suiteduration)) l.uuid none false))

abbrev pub launch_end : Args → Launch → Progress → Event Request
launch_end args l p = sent (
    put (args.launch_url ++ codes "/" ++ l.uuid ++ codes "/finish")
      (launch_finished (iso (later_by (later_by l.start_time 1) p.suiteduration)) (suiteresult p)))

abbrev pub no_progress : Progress
no_progress = record { suiteduration = 0; has_failed = false }

module _ (args : Args) (w : World Request Body) (seconds : Text → Option ℕ) where
  pub write_cases-Returns :
      (containeruuid existinguuid : Text) (old : Old) (starttime : ℕ) (cs : List Testcase)
      (p : Progress)
      → Returns (write_cases args w seconds containeruuid existinguuid old starttime cs p)
  unfolding write_cases
  write_cases-Returns container uuid old start [] p = Returns-pure (p, true)
  write_cases-Returns container uuid old start (c ∷ cs) p =
      Returns-when_some (seconds c.time) (Returns-pure (p, false)) λ t.
        Returns-bind (Returns-attempt _ false) λ written.
          Returns-if written (write_cases-Returns container uuid old start cs (advance p c t))
            (Returns-pure (advance p c t, false))

  -- How a run goes on once the launch is open, after the events `h`: the suite cannot be started, and the
  -- launch is closed as passed with no duration, or it is started, and the last two events close the suite
  -- and the launch, with the duration and the result of the cases that were handled.
  pub data IsClosing (l : Launch) (suite : Testsuite) (h : List (Event Request))
      : Outcome Bool → List (Event Request) → Type 0 where
    no_suite :
        (start_suite args w suite.name l.uuid (later_by l.start_time 1) h).0 ≡ ok none
        → (es : List (Event Request))
        → IsClosing l suite h (ok false) (es ++ (launch_end args l no_progress ∷ []))
    with_suite :
        (uuid : Text)
        → (start_suite args w suite.name l.uuid (later_by l.start_time 1) h).0 ≡ ok (some uuid)
        → (p : Progress) (completed : Bool) (es : List (Event Request))
        → IsAfter seconds suite.cases no_progress p completed
        → IsClosing l suite h
            (ok completed)
            ((es ++ (suite_end args uuid l p ∷ [])) ++ (launch_end args l p ∷ []))

  pub start_suite-Returns : (name uuid : Text) (t : ℕ) → Returns (start_suite args w name uuid t)
  unfolding start_suite start_at
  start_suite-Returns name uuid t = Returns-attempt _ none
