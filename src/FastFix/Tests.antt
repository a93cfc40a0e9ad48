-- ===== src/FastFix/Tests.antt =====
-- pipeline/fastfixmonitor.py: runs of the script against a small Bugzilla.
use yyou.Common.{◌≡◌, ◌≢◌, ◌⊎◌, refl, true, List, [], ◌∷◌, ◌++◌, some, All}
use yyou.Text.{Text, codes, show}
use yyou.Datetime.{Datetime, strftime}
use yyou.Session.{World, Event, sent, Outcome, ok, raised, Response, effects}
use yyou.FastFix.{
  text, Bug, Body, bugs, other, Request, get, put, post, Args, Notify, slack, continoustrack, Info,
  notify_note, pr_exists, is_pre_verified, is_already_notify,
}
use yyou.FastFix.Notes.{get_notify_time, is_due}
use yyou.FastFix.Requests.{
  update_by_id, get_whiteboard, update_qa_white_board, get_by_id, get_utctimestamp, last_bug,
}
use yyou.FastFix.Check.{
  get_interval_in_half_hour, is_send_track_email, is_escalated, check_notified, note_once,
  check_with_pr, check_found, check_bug,
}
use yyou.FastFix.Slack.{notification, check_bugs, handle_found, notify_qa_in_slack}
use yyou.FastFix.Reads.{IsQuiet}
use yyou.FastFix.Noted.{IsNoted, check_bug-IsNoted, check_with_pr-ne-slack}
use yyou.FastFix.Delivery.{handle_found_raised, notify_qa_in_slack_once}

abbrev args : Args
args = record {
  endpoint = codes "e";
  slack_url = codes "s";
  status = codes "ON_QA";
  keywords = codes "FastFix";
}

abbrev bug_with : Text → Bug
bug_with whiteboard = record {
  cf_verified = text [];
  cf_qa_whiteboard = whiteboard;
  last_change_time = [];
  external_bugs = codes "GitHub" ∷ [];
  keywords = [];
  qa_contact = codes "qa@x";
  status = codes "ON_QA";
  assigned_to = codes "dev@x";
}

-- The answers to every request, with one bug.
abbrev answers : Text → List (Event Request) → Request → Outcome (Response Body)
answers whiteboard h (get url) =
    ok (record { status_code = 200; text = []; json = bugs (bug_with whiteboard ∷ []) })
answers whiteboard h (put url key value) =
    ok (record { status_code = 200; text = []; json = other })
answers whiteboard h (post url message) = ok (record { status_code = 200; text = []; json = other })

abbrev ten_o_clock : List (Event Request) → Datetime
ten_o_clock h = record {
  year = 2023;
  month = 1;
  day = 1;
  hour = 10;
  minute = 0;
  second = 0;
  microsecond = 0;
}

abbrev bugzilla : Text → World Request Body
bugzilla whiteboard = record { respond = answers whiteboard; clock = ten_o_clock }

abbrev report : Notify → Info
report n = record { id = codes "1"; qa = codes "qa@x"; notify = n; assignee = codes "dev@x" }

abbrev noted : Text
noted = notify_note (codes "1") ++ codes " at UTC 2023-01-01T00:00:00.000000"

first_report : (check_bug args (bugzilla []) (codes "1") []).0 ≡ ok (some (report slack))
unfolding check_bug get_by_id last_bug check_found check_with_pr note_once get_utctimestamp
    update_qa_white_board get_whiteboard update_by_id pr_exists is_pre_verified is_already_notify
    strftime effects
first_report = refl

check_bug-IsNoted_example :
    IsNoted args
      (bugzilla [])
      (codes "1")
      (notify_note (codes "1"))
      (check_bug args (bugzilla []) (codes "1") []).1
check_bug-IsNoted_example =
    check_bug-IsNoted args (bugzilla []) (codes "1") [] (report slack) first_report refl

noted-is_already_notify : is_already_notify noted (codes "1") ≡ true
unfolding is_already_notify
noted-is_already_notify = refl

reminder :
    (check_with_pr args (bugzilla noted) (codes "1") (bug_with noted) []).0
    ≡ ok (some (report continoustrack))
unfolding check_with_pr check_notified is_escalated is_send_track_email get_notify_time
    get_utctimestamp get_interval_in_half_hour is_due is_pre_verified is_already_notify strftime
    effects
reminder = refl

check_with_pr-ne-slack_example : continoustrack ≢ slack
check_with_pr-ne-slack_example =
    check_with_pr-ne-slack args (bugzilla noted) (codes "1") (bug_with noted) []
      (report continoustrack) noted-is_already_notify reminder

abbrev reports : List Info
reports = report slack ∷ record (report slack) { id = codes "2" } ∷ []

-- A note that was cut short: the time on it cannot be parsed.
abbrev cut_short : Text
cut_short = notify_note (codes "1") ++ codes " at UTC 2023-01"

check_raises : (check_bugs args (bugzilla cut_short) (1 ∷ []) []).0 ≡ raised
unfolding check_bugs check_bug get_by_id last_bug check_found check_with_pr check_notified
    is_escalated is_send_track_email get_notify_time get_utctimestamp get_interval_in_half_hour
    pr_exists is_pre_verified is_already_notify strftime show effects
check_raises = refl

handle_found_raised_example :
    ((handle_found args (bugzilla cut_short) (1 ∷ []) []).0 ≡ raised)
    × (es : List (Event Request)) × ((handle_found args (bugzilla cut_short) (1 ∷ []) []).1 ≡ es)
    × All IsQuiet es
handle_found_raised_example = handle_found_raised args (bugzilla cut_short) 1 [] [] check_raises

notify_qa_in_slack_once_example :
    ((notify_qa_in_slack args (bugzilla []) reports []).0 ≢ raised)
    × ((reports ≡ []) × ((notify_qa_in_slack args (bugzilla []) reports []).1 ≡ [])
        ⊎ ((es : List (Event Request)) × ((notify_qa_in_slack args (bugzilla []) reports []).1
              ≡ (sent (post (codes "s") (notification reports)) ∷ []) ++ es)
            × All IsQuiet es))
notify_qa_in_slack_once_example = notify_qa_in_slack_once args (bugzilla []) reports []
