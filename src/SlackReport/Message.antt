-- ===== src/SlackReport/Message.antt =====
-- pipeline/auto_result_tool/collect_result_to_slack.py: `notifyToSlack`, `collectResultToSlack` and
-- `collectAllResultToSlack`.
pub mod Teams
pub mod Effects
use yyou.Common.Maybe.{◌>>=◌ as ◌>>=?◌}
use yyou.Common.{
  ℕ, ◌+◌, Bool, true, false, not, List, [], ◌∷◌, ◌++◌, Option, none, some, if◌then◌else◌,
  ◌==◌ as nat_eq,
}
use yyou.Text.{Text, codes, split, join, show, contains, ◌==◌}
use yyou.Dict.{lookup}
use yyou.Session.{
  World, Action, Response, pure, guard, from_option, attempt, ◌>>=◌, ◌>>◌, send, is_200_or_201,
}
use yyou.SlackReport.{Body, Request, post, Args, subteam_owner}
use yyou.SlackReport.Collect.{CaseResult, Testrun, Result, collect_result}

-- The format of the counts of a subteam.
unfoldable pub count_line : Text → CaseResult → Text
unfolding show
count_line ui_url c =
    codes "total: "
    ++ show c.counts.total
    ++ codes ", failed: "
    ++ show c.counts.failed
    ++ codes ", skipped: "
    ++ show c.counts.skipped
    ++ codes ", to_investigate: "
    ++ show c.counts.to_investigate
    ++ codes ", "
    ++ ui_url
    ++ show c.launch_id
    ++ codes " "

-- Whom to mention for a subteam.
unfoldable pub owner_of : Text → Text → Text
unfolding contains lookup subteam_owner
owner_of subteam faild_case =
    let owner : Text = elim (lookup subteam subteam_owner) [ none ↦ [] | some o ↦ o ] in
    if contains (codes "No fail case") faild_case then [] else owner

-- The lines of a subteam with failures, and its owner. `none` is the `TypeError` of `"…" + None`.
unfoldable pub team_lines : Text → Option Text → CaseResult → Option (List Text × Text)
unfolding count_line owner_of
team_lines ui_url team c = ◌>>=?◌ team λ subteam. ◌>>=?◌ c.faild_case λ faild. some (
  (codes "---------- subteam: " ++ subteam ++ codes " -------------")
      ∷ count_line ui_url c
      ∷ (codes "Failed Cases: " ++ faild)
      ∷ [],
  owner_of subteam faild,
)

-- The loop over the subteams of a test run.
unfoldable pub all_team_lines : Text → List (Option Text × CaseResult) → Option (List Text × Text)
unfolding team_lines
all_team_lines ui_url [] = some ([], [])
all_team_lines ui_url ((team, c) ∷ cs) =
    let others = all_team_lines ui_url cs in
    let here =
      ◌>>=?◌ (team_lines ui_url team c)
        λ mine. ◌>>=?◌ others λ rest. some (mine.0 ++ rest.0, mine.1 ++ rest.1) in
    if nat_eq c.counts.failed 0 then others else here

unfoldable pub debug_message : Args → Text → Text
unfolding ◌==◌
debug_message args owner =
    let debug_msg = owner ++ codes " Please debug failed cases, thanks!" in
    if args.cluster == []
    then debug_msg
    else debug_msg ++ codes " Cluster:" ++ args.jenkins_url ++ args.cluster

-- The lines of a test run. `none` raises.
unfoldable pub notification : Args → Option Text → Testrun → Option (List Text)
unfolding all_team_lines debug_message ◌==◌
notification args name t = ◌>>=?◌ name λ testrun. ◌>>=?◌ t.profilename λ profile.
    ◌>>=?◌ t.build_version λ build. ◌>>=?◌ t.gbuildnum λ number.
      ◌>>=?◌ (all_team_lines args.ui_url t.case_result) λ teams.
        let ending : List Text = codes "\n" ∷ [] in
        let added =
          if args.additional_message == [] then ending else args.additional_message ∷ ending in
        some (
          codes "****************************************************************"
          ∷ (codes "******      golang test result:"
              ++ testrun
              ++ codes "                      ******")
          ∷ (codes "profile:" ++ profile)
          ∷ (codes "build_version:" ++ build)
          ∷ (codes "gbuildnum:" ++ number)
          ∷ (teams.0 ++ (if args.silence then added else debug_message args teams.1 ∷ added)))

module _ (args : Args) (w : World Request Body) where
  unfoldable pub notify_to_slack : Text → Action Request (Option ℕ)
  notify_to_slack text =
      attempt
        (do
          r ← send w (post args.slack_url text)
          guard (is_200_or_201 r)
          pure (some r.status_code))
        none

  -- `number` counts the messages.
  unfoldable pub report_testruns : Result → ℕ → Action Request ℕ
  unfolding notification join ◌==◌
  report_testruns [] number = pure number
  report_testruns ((name, t) ∷ result) number = do
    lines ← from_option (notification args name t)
    sent_status ←
        if args.slack_url == [] then pure none else notify_to_slack (join (codes "\n") lines)
    report_testruns result (number + 1)

  unfoldable pub collect_result_to_slack : Text → ℕ → Action Request ℕ
  collect_result_to_slack launchname number = do
    result ← collect_result args w launchname
    report_testruns result number

  unfoldable pub collect_names : List Text → ℕ → Action Request ℕ
  collect_names [] number = pure number
  collect_names (launchname ∷ names) number = do
    next ← collect_result_to_slack launchname number
    collect_names names next

  unfoldable pub collect_all_result_to_slack : Action Request ℕ
  unfolding split
  collect_all_result_to_slack = collect_names (split args.launchnames (codes ":")) 0
