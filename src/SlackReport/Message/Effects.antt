-- ===== src/SlackReport/Message/Effects.antt =====
-- pipeline/auto_result_tool/collect_result_to_slack.py: what the report does to the services.
use yyou.Common.{
  ℕ, ◌+◌, ◌≡◌, false, List, [], ◌∷◌, Option, none, if◌then◌else◌, Bool-cases, inl, inr,
}
use yyou.Text.{Text, codes, split, join, ◌==◌}
use yyou.Session.{World, Event, sent, pure}
use yyou.Session.Trace.{
  Adds, Adds-bind, Adds-pure, Adds-send, Adds-attempt, Adds-if, Adds-from_option, trace,
}
use yyou.SlackReport.{Body, Request, get, post, Args}
use yyou.SlackReport.Launches.{Info, Launchs, get_launch_id_with_launch_name}
use yyou.SlackReport.Collect.{
  Result, get_fail_case_id, collect_launch, collect_launches, collect_result, is_wanted,
}
use yyou.SlackReport.Message.{
  notification, notify_to_slack, report_testruns, collect_result_to_slack, collect_names,
  collect_all_result_to_slack,
}

-- A read, or a message to the channel, if there is one.
pub data IsReport (args : Args) : Event Request → Type 0 where
  reads : (url : Text) → IsReport args (sent (get url))
  posts :
      (text : Text)
      → (args.slack_url == []) ≡ false
      → IsReport args (sent (post args.slack_url text))

module _ (args : Args) (w : World Request Body) where
  collect_launch-IsReport :
      (team : Option Text) (id : ℕ) (info : Info) (result : Result)
      → Adds (IsReport args) (collect_launch args w team id info result)
  unfolding collect_launch get_fail_case_id
  collect_launch-IsReport team id info result = search (trace, reads) depth 40

  collect_launches-IsReport :
      (ls : Launchs) (result : Result) → Adds (IsReport args) (collect_launches args w ls result)
  unfolding collect_launches
  collect_launches-IsReport [] result = Adds-pure result
  collect_launches-IsReport ((id, info) ∷ ls) result = Adds-bind (Adds-from_option _) λ team.
      Adds-bind
        (Adds-if (is_wanted args.subteam team) (collect_launch-IsReport team id info result)
          (Adds-pure result))
        λ next. collect_launches-IsReport ls next

  collect_result-IsReport :
      (launchname : Text) → Adds (IsReport args) (collect_result args w launchname)
  unfolding collect_result get_launch_id_with_launch_name
  collect_result-IsReport launchname =
      Adds-bind (search (trace, reads) depth 40) λ ls. collect_launches-IsReport ls []

  notify-IsReport :
      (text : Text)
      → (args.slack_url == []) ≡ false
      → Adds (IsReport args) (notify_to_slack args w text)
  unfolding notify_to_slack
  notify-IsReport text url =
      Adds-attempt none (Adds-bind (Adds-send w _ (posts text url)) λ r. search trace depth 12)

  notify_if-IsReport :
      (text : Text)
      → Adds
          (IsReport args)
          (if args.slack_url == [] then pure none else notify_to_slack args w text)
  notify_if-IsReport text = elim (Bool-cases (args.slack_url == [])) [
    | inl empty ↦ rw empty (Adds-pure none)
    | inr url ↦ rw url (notify-IsReport text url)
  ]

  report_testruns-IsReport :
      (result : Result) (number : ℕ) → Adds (IsReport args) (report_testruns args w result number)
  unfolding report_testruns
  report_testruns-IsReport [] number = Adds-pure number
  report_testruns-IsReport ((name, t) ∷ result) number =
      Adds-bind (Adds-from_option (notification args name t)) λ lines.
        Adds-bind (notify_if-IsReport (join (codes "\n") lines))
          λ s. report_testruns-IsReport result (number + 1)

  collect_names-IsReport :
      (names : List Text) (number : ℕ) → Adds (IsReport args) (collect_names args w names number)
  unfolding collect_names collect_result_to_slack
  collect_names-IsReport [] number = Adds-pure number
  collect_names-IsReport (launchname ∷ names) number =
      Adds-bind
        (Adds-bind (collect_result-IsReport launchname)
          λ result. report_testruns-IsReport result number)
        λ next. collect_names-IsReport names next

  -- Whatever the services answer, the report only reads from the service of launches and posts messages
  -- to the URL of the channel, and with no such URL it posts nothing.
  pub collect_all-IsReport : Adds (IsReport args) (collect_all_result_to_slack args w)
  unfolding collect_all_result_to_slack
  collect_all-IsReport = collect_names-IsReport (split args.launchnames (codes ":")) 0
