-- ===== src/ReportPortal/FailCases.antt =====
-- pipeline/reportportal.py: `getFailCaseID`.
pub mod Laws
use yyou.Common.{ℕ, Bool, true, false, List, [], ◌∷◌, ◌++◌, Option, none, some, if◌then◌else◌, drop}
use yyou.Text.{Text, codes, join, replace, show, ◌==◌}
use yyou.Text.Regex.{findall, ocp_id}
use yyou.Dict.{Dict, insert}
use yyou.Session.{World, Action, Response, pure, from_option, attempt, ◌>>=◌, send, is_200}
use yyou.ReportPortal.{Item, Body, Request, get, Args}
use yyou.ReportPortal.Scenarios.{get_non_sub_team_per_scenarios}
use yyou.ReportPortal.Matching.{
  Matched, CheckResult, newlaunch, newgolanglaunch, nosubteaminscenario, existinglaunch,
}
use yyou.ReportPortal.Launches.{items_of, check_launchs_by_name_scenario}

-- The loop over the items: the digits of the first id of each step.
unfoldable pub fail_cases : List Item → List Text
unfolding findall ocp_id ◌==◌
fail_cases [] = []
fail_cases (i ∷ is) =
    let rest = fail_cases is in
    if i.type == codes "STEP"
    then elim (findall ocp_id i.name) [ [] ↦ rest | id ∷ more ↦ drop 4 id ∷ rest ]
    else rest

pub record Failures : Type 0 where
  pub fail_case_list : List Text
  pub get_fail_reason : Dict Text

unfoldable pub reasons : Dict Text → Text
reasons [] = []
reasons ((k, v) ∷ d) = codes "\\n" ++ (v ++ reasons d)

-- Two lists of scenarios, each of which may be empty, joined by `|`.
unfoldable pub both : Text → Text → Text
unfolding ◌==◌
both [] t = t
both (c ∷ s) [] = c ∷ s
both (c ∷ s) (d ∷ t) = (c ∷ s) ++ (codes "|" ++ (d ∷ t))

unfoldable pub not_fail_case : Text → List Text → Text
unfolding both join get_non_sub_team_per_scenarios
not_fail_case scenarios not_matched =
    both (join (codes "|") not_matched) (get_non_sub_team_per_scenarios scenarios)

-- The scenarios of the next run.
unfoldable pub final_scenario : List Text → Text → Text
unfolding both join replace
final_scenario fail_case_list not_fail =
    replace (both (join (codes "|") fail_case_list) not_fail) (codes "ISV_Operators") (codes "isv]")

abbrev pub is_none_left : List Text → Text → Bool
is_none_left [] [] = true
is_none_left [] (c ∷ s) = false
is_none_left (x ∷ xs) t = false

unfoldable pub compose : Failures → Text → Text
unfolding reasons final_scenario ◌==◌
compose f not_fail =
    let return_string = reasons f.get_fail_reason in
    let warned =
      if return_string == []
      then []
      else return_string
        ++ codes "\\nThere is error to get failcase althoug we already get some fails case."
        ++ codes " maybe need to rerun again" in
    if is_none_left f.fail_case_list not_fail
    then return_string ++ codes "\\nNOFAILEDCASEFOUNDNONEWCASE-NORERUN"
    else warned ++ (codes "\\n" ++ final_scenario f.fail_case_list not_fail)

module _ (args : Args) (w : World Request Body) where
  -- One round of the loop over the launches.
  unfoldable pub add_failures : Failures → ℕ → Response Body → Action Request Failures
  add_failures f lid r =
      if is_200 r
      then (from_option (items_of r.json) >>= λ is.
          pure (record f { fail_case_list = f.fail_case_list ++ fail_cases is }))
      else pure (record f {
        get_fail_reason =
            insert (show lid)
              (codes "get launch id " ++ show lid ++ codes " item error: " ++ r.text)
              f.get_fail_reason;
      })

  unfoldable pub collect_failures : List ℕ → Failures → Action Request Failures
  collect_failures [] f = pure f
  collect_failures (lid ∷ lids) f = do
    r ← send w (
        get (
          args.item_url
          ++ codes "?filter.eq.launchId="
          ++ show lid
          ++ codes "&filter.eq.status=FAILED&isLatest=false&launchesLimit=0&page.size=300"))
    next ← add_failures f lid r
    collect_failures lids next

  unfoldable pub rerun_text : Matched → Action Request Text
  rerun_text m =
      attempt
        (do
          f ← collect_failures m.ids (record { fail_case_list = []; get_fail_reason = [] })
          pure (compose f (not_fail_case args.scenarios m.subteam_not_matched)))
        (codes "\\nEXCEPTION-NOREPLACE")

  unfoldable pub fail_case_text : Option CheckResult → Action Request Text
  fail_case_text none = pure (codes "\\nNOFOUND-GETLAUNCHERROR-NOREPLACE")
  fail_case_text (some newlaunch) = pure (codes "\\nNOFOUND-NEWLAUNCH-NOREPLACE")
  fail_case_text (some newgolanglaunch) = pure (codes "\\nNOFOUND-NEWGOLANGLAUNCH-NOREPLACE")
  fail_case_text (some nosubteaminscenario) =
      pure (codes "\\nNOFOUND-NOSUBTEAMINSCENARIO-NOREPLACE")
  fail_case_text (some (existinglaunch m)) = rerun_text m

  unfoldable pub get_fail_case_id : Action Request Text
  get_fail_case_id = do
    checkresult ← check_launchs_by_name_scenario args w args.launchname args.scenarios
    fail_case_text checkresult
