-- ===== src/ReportPortal/Rerun/Runs/Launch.antt =====
-- pipeline/reportportal.py: the requests of `rerunResult` once the launch is open, as one sequence.
use yyou.Common.{ℕ, ◌≡◌, refl, Bool, false, List, [], ◌∷◌, ◌++◌, Option, none, All}
use yyou.Text.{Text, codes}
use yyou.Junit.{Testsuite}
use yyou.Session.{World, Event, sent, pure, ◌>>◌}
use yyou.Session.Trace.{trace}
use yyou.Session.Total.{Returns, Returns-pure, Returns-attempt, Returns-bind, Returns-when_some}
use yyou.Session.Runs.{
  Leaves, Leaves-pure, Leaves-bind, Leaves-bind_total, Leaves-attempt, Leaves-when_some,
  Leaves-send, Leaves-Adds,
}
use yyou.ReportPortal.{
  Launch, Body, Payload, start_item, finish_item, launch_finished, Request, post, put, Args,
}
use yyou.ReportPortal.Items.{finish_at, start_suite, finish_suite, finish_launch, later_by, iso}
use yyou.ReportPortal.Rerun.{Old, Progress, suiteresult, write_suite, write_launch}
use yyou.ReportPortal.Rerun.Closed.{
  suite_end, launch_end, no_progress, write_cases-Returns, start_suite-Returns,
}
use yyou.ReportPortal.Rerun.Runs.{
  IsCasesRun, write_cases-IsCasesRun, start_at-sent, IsNone, none-nil,
}

abbrev pub suite_start : Args → Launch → Testsuite → Event Request
suite_start args l suite = sent (
    post args.item_url
      (start_item suite.name (iso (later_by l.start_time 1)) (codes "TEST") l.uuid))

-- Nothing, or the items of the cases and then the end of the suite that they are in.
pub data IsSuiteRun (args : Args) (l : Launch) (suite : Testsuite)
    : List (Event Request) → Type 0 where
  skipped : IsSuiteRun args l suite []
  run :
      (uuid : Text) (p : Progress) (es : List (Event Request))
      → IsCasesRun args uuid l.uuid suite.cases es
      → IsSuiteRun args l suite (es ++ (suite_end args uuid l p ∷ []))

-- The start of the suite, what happens in it, and the end of the launch.
pub data IsLaunchRun (args : Args) (l : Launch) (suite : Testsuite)
    : List (Event Request) → Type 0 where
  launch_run :
      (p : Progress) (es : List (Event Request))
      → IsSuiteRun args l suite es
      → IsLaunchRun args l suite (suite_start args l suite ∷ (es ++ (launch_end args l p ∷ [])))

module _ (args : Args) (w : World Request Body) (seconds : Text → Option ℕ) where
  finish_at-sent :
      (url : Text) (item : Payload)
      → Leaves (λ es. es ≡ sent (put url item) ∷ []) (finish_at args w url item)
  unfolding finish_at
  finish_at-sent url item = Leaves-attempt false (
      Leaves-bind {P = λ es. es ≡ sent (put url item) ∷ []} {Q = All IsNone}
        (λ xs ys p q. rw (p, none-nil ys q) refl) tt (Leaves-send w (put url item))
        λ r. Leaves-Adds IsNone _ (search trace depth 20))

  -- What follows the end of an item, and sends nothing.
  then_pure {ℓ} :
      {A : Type ℓ} (url : Text) (item : Payload) (a : A)
      → Leaves (λ es. es ≡ sent (put url item) ∷ []) (finish_at args w url item >> pure a)
  then_pure url item a =
      Leaves-bind {P = λ es. es ≡ sent (put url item) ∷ []} {Q = λ es. es ≡ []}
        (λ xs ys p q. rw (p, q) refl) refl (finish_at-sent url item) λ b. Leaves-pure a refl

  write_suite-IsSuiteRun :
      (uuid : Text) (l : Launch) (suite : Testsuite) (old : Old)
      → Leaves (IsSuiteRun args l suite) (write_suite args w seconds uuid l suite old)
  unfolding write_suite finish_suite
  write_suite-IsSuiteRun uuid l suite old =
      Leaves-bind_total {P = IsCasesRun args uuid l.uuid suite.cases}
        {Q = λ es. (p : Progress) × (es ≡ suite_end args uuid l p ∷ [])}
        (λ xs ys r q. rw (q.1) (run uuid q.0 xs r))
        (write_cases-Returns args w seconds uuid l.uuid old (later_by l.start_time 1) suite.cases
          no_progress)
        (write_cases-IsCasesRun args w seconds uuid l.uuid old (later_by l.start_time 1) suite.cases
          no_progress)
        λ o. record {
          left = λ h.
              let (es, e, same) =
                (then_pure (args.item_url ++ codes "/" ++ uuid)
                    (finish_item (iso (later_by (later_by l.start_time 1) (o.0).suiteduration))
                      l.uuid none false)
                    o).left
                  h in
              (es, e, (o.0, same));
        }

  write_suite-Returns :
      (uuid : Text) (l : Launch) (suite : Testsuite) (old : Old)
      → Returns (write_suite args w seconds uuid l suite old)
  unfolding write_suite finish_suite finish_at
  write_suite-Returns uuid l suite old =
      Returns-bind
        (write_cases-Returns args w seconds uuid l.uuid old (later_by l.start_time 1) suite.cases
          no_progress)
        λ o. Returns-bind (Returns-attempt _ false) λ b. Returns-pure _

  abbrev Ending : Launch → Testsuite → List (Event Request) → Type 0
  Ending l suite zs =
      (p : Progress) × (es : List (Event Request)) × IsSuiteRun args l suite es
      × (zs ≡ es ++ (launch_end args l p ∷ []))

  finish-Ending :
      (l : Launch) (o : Progress × Bool)
      → Leaves
          (λ es. (p : Progress) × (es ≡ launch_end args l p ∷ []))
          (finish_launch args w
              (suiteresult o.0)
              l.uuid
              (later_by l.start_time 1)
              (o.0).suiteduration
            >> pure o.1)
  unfolding finish_launch
  finish-Ending l o = record {
    left = λ h.
        let (es, e, same) =
          (then_pure (args.launch_url ++ codes "/" ++ l.uuid ++ codes "/finish")
              (launch_finished (iso (later_by (later_by l.start_time 1) (o.0).suiteduration))
                (suiteresult o.0))
              o.1).left
            h in
        (es, e, (o.0, same));
  }

  -- Once the launch is open, `rerunResult` refines one sequence of items, whatever the service
  -- answers: the start of the suite, then the items of the cases one after the other, in the order
  -- of the cases up to some case, at most one for each case and each followed by logs and ends of
  -- one item only, then the end of the suite, or nothing of these, and last the end of the launch.
  pub write_launch-IsLaunchRun :
      (l : Launch) (suite : Testsuite) (old : Old)
      → Leaves (IsLaunchRun args l suite) (write_launch args w seconds l suite old)
  unfolding write_launch start_suite
  write_launch-IsLaunchRun l suite old =
      Leaves-bind_total {P = λ es. es ≡ suite_start args l suite ∷ []} {Q = Ending l suite}
        (λ xs ys p q. let (r, es, s, e) = q in rw (p, e) (launch_run r es s))
        (unfold start_suite in
          start_suite-Returns args w seconds suite.name l.uuid (later_by l.start_time 1))
        (start_at-sent args w args.item_url
          (start_item suite.name (iso (later_by l.start_time 1)) (codes "TEST") l.uuid))
        λ suiteuuid.
          Leaves-bind_total {P = IsSuiteRun args l suite}
            {Q = λ es. (p : Progress) × (es ≡ launch_end args l p ∷ [])}
            (λ xs ys s q. (q.0, xs, s, rw (q.1) refl))
            (Returns-when_some suiteuuid (Returns-pure (no_progress, false))
              λ uuid. write_suite-Returns uuid l suite old)
            (Leaves-when_some suiteuuid (Leaves-pure (no_progress, false) skipped)
              λ uuid. write_suite-IsSuiteRun uuid l suite old)
            (finish-Ending l)
