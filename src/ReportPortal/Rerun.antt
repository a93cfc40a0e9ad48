-- ===== src/ReportPortal/Rerun.antt =====
-- pipeline/reportportal.py: `rerunResult`. A launch is opened again, the cases that are run again take the
-- place of the old items, and the suite and the launch are closed. The parsed file is an argument, `none`
-- where the parser raises; `int(float(time))` is a parameter, `none` where it raises.
pub mod Handled
pub mod Closed
pub mod Cases
pub mod Runs
use yyou.Common.{
  ℕ, ◌+◌, Bool, true, false, not, ◌&&◌, ◌||◌, List, [], ◌∷◌, ◌++◌, Option, none, some,
  if◌then◌else◌,
}
use yyou.Text.{Text, codes, member}
use yyou.Dict.{Dict, lookup, insert}
use yyou.Junit.{Testcase, Testsuite, is_some_element}
use yyou.Session.{World, Action, pure, fault, guard, from_option, attempt, when_some, ◌>>=◌, ◌>>◌}
use yyou.ReportPortal.{Launch, Item, Body, Request, Args}
use yyou.ReportPortal.BuildNum.{add_more_build_num_to_launch}
use yyou.ReportPortal.Items.{
  later_by, get_child, delete_child, replace_child, finish_replace_child, create_child,
  finish_create_child, start_suite, finish_suite, start_launch, finish_launch,
}

-- What is known of the old items: the names of the deleted ones, of those that could not be deleted, and
-- the times of the first item of a name.
pub record Old : Type 0 where
  pub deleted_list : List Text
  pub should_deleted_list : List Text
  pub existing_case_time_map : Dict (ℕ × ℕ)

-- The local variables of the loop over the cases.
pub record Progress : Type 0 where
  pub suiteduration : ℕ
  pub has_failed : Bool

abbrev pub suiteresult : Progress → Text
suiteresult p = if p.has_failed then codes "FAILED" else codes "PASSED"

abbrev pub advance : Progress → Testcase → ℕ → Progress
advance p c casetime = record {
  suiteduration = p.suiteduration + casetime;
  has_failed = p.has_failed || is_some_element c.failure;
}

module _ (args : Args) (w : World Request Body) (seconds : Text → Option ℕ) where
  unfoldable pub delete_children : Text → List Item → Old → Action Request Old
  delete_children casename [] old = pure old
  delete_children casename (child ∷ childs) old = do
    done ← delete_child args w child.id
    delete_children casename childs (
        if done
        then record old { deleted_list = old.deleted_list ++ (casename ∷ []) }
        else record old { should_deleted_list = old.should_deleted_list ++ (casename ∷ []) })

  abbrev pub with_times : Text → List Item → Old → Old
  with_times casename [] old = old
  with_times casename (child ∷ childs) old = record old {
    existing_case_time_map =
        insert casename (child.start_time, child.end_time) old.existing_case_time_map;
  }

  -- The loop that deletes the old items of each case.
  unfoldable pub delete_old : ℕ → List Testcase → Old → Action Request Old
  delete_old existingid [] old = pure old
  delete_old existingid (c ∷ cs) old = do
    childitem ← get_child args w existingid c.name
    next ←
        when_some childitem (pure old)
          λ childs. delete_children c.name childs (with_times c.name childs old)
    delete_old existingid cs next

  unfoldable pub write_replaced :
      (containeruuid existinguuid : Text) → Old → Testcase → Action Request (Unit {0})
  write_replaced containeruuid existinguuid old c = do
    (starttime, endtime) ← from_option (lookup c.name old.existing_case_time_map)
    childitemid ← replace_child args w containeruuid c.name existinguuid starttime
    when_some childitemid (pure tt) λ id. do
      finish_replace_child args w id existinguuid starttime endtime c.failure c.skipped c.system_out
      pure tt

  unfoldable pub write_created :
      (containeruuid existinguuid : Text) (casestarttime caseendtime : ℕ)
      → Testcase
      → Action Request (Unit {0})
  write_created containeruuid existinguuid casestarttime caseendtime c = do
    childitemid ← create_child args w containeruuid c.name existinguuid casestarttime
    when_some childitemid (pure tt) λ id. do
      finish_create_child args w id existinguuid casestarttime caseendtime c.failure c.skipped
          c.system_out
      pure tt

  -- A case of which an old item is left is not written.
  unfoldable pub write_case :
      (containeruuid existinguuid : Text)
      → Old
      → (casestarttime caseendtime : ℕ) → Testcase
      → Action Request (Unit {0})
  write_case containeruuid existinguuid old casestarttime caseendtime c =
      if member c.name old.should_deleted_list
      then pure tt
      else if member c.name old.deleted_list
      then write_replaced containeruuid existinguuid old c
      else write_created containeruuid existinguuid casestarttime caseendtime c

  -- The loop over the cases, with the variables at its end and whether it came to its end: `finally` reads
  -- the variables also after an exception.
  unfoldable pub write_cases :
      (containeruuid existinguuid : Text)
      → Old
      → (starttime : ℕ) → List Testcase
      → Progress
      → Action Request (Progress × Bool)
  write_cases containeruuid existinguuid old starttime [] p = pure (p, true)
  write_cases containeruuid existinguuid old starttime (c ∷ cs) p =
      when_some (seconds c.time) (pure (p, false)) λ casetime. do
        let casestarttime : ℕ = later_by starttime p.suiteduration
        let q : Progress = advance p c casetime
        written ←
            attempt
              (write_case containeruuid existinguuid old casestarttime
                  (later_by casestarttime casetime) c
                >> pure true)
              false
        if written
            then write_cases containeruuid existinguuid old starttime cs q
            else pure (q, false)

  -- The part up to `startLaunch`: the parsed file and what is known of the old items.
  unfoldable pub reopen :
      (launchname : Text) → Launch → Option Testsuite → Action Request (Testsuite × Old)
  reopen launchname existinglaunch file = do
    suite ← from_option file
    old ←
        delete_old existinglaunch.id suite.cases
          (record { deleted_list = []; should_deleted_list = []; existing_case_time_map = [] })
    add_more_build_num_to_launch args w existinglaunch.id
    launchrestarted ←
        start_launch args w launchname existinglaunch.uuid (later_by existinglaunch.start_time 1)
    guard launchrestarted
    pure (suite, old)

  -- The loop, and what `finally` does for the suite.
  unfoldable pub write_suite :
      (suiteuuid : Text) → Launch → Testsuite → Old → Action Request (Progress × Bool)
  write_suite suiteuuid existinglaunch suite old = do
    let starttime : ℕ = later_by existinglaunch.start_time 1
    (p, completed) ←
        write_cases suiteuuid existinglaunch.uuid old starttime suite.cases
          (record { suiteduration = 0; has_failed = false })
    finish_suite args w suiteuuid existinglaunch.uuid starttime p.suiteduration
    pure (p, completed)

  -- What happens once the launch is open, with what `finally` does for the launch.
  unfoldable pub write_launch : Launch → Testsuite → Old → Action Request Bool
  write_launch existinglaunch suite old = do
    let starttime : ℕ = later_by existinglaunch.start_time 1
    suiteuuid ← start_suite args w suite.name existinglaunch.uuid starttime
    (p, completed) ←
        when_some suiteuuid (pure (record { suiteduration = 0; has_failed = false }, false))
          λ uuid. write_suite uuid existinglaunch suite old
    finish_launch args w (suiteresult p) existinglaunch.uuid starttime p.suiteduration
    pure completed

  unfoldable pub rerun_result :
      (launchname : Text) → Launch → Option Testsuite → Action Request Bool
  rerun_result launchname existinglaunch file = do
    opened ← attempt (reopen launchname existinglaunch file >>= λ o. pure (some o)) none
    when_some opened (pure false) λ o. write_launch existinglaunch o.0 o.1
