-- ===== src/FastFix/Check.antt =====
-- pipeline/fastfixmonitor.py: `isSendTrackEmail`, `isCommented` and `checkBug`.
use yyou.Common.{ℕ, Bool, true, false, not, List, [], ◌∷◌, ◌++◌, Option, none, some, if◌then◌else◌}
use yyou.Text.{Text, codes, member}
use yyou.Datetime.{strptime_micro}
use yyou.Common.Int.{ℤ}
use yyou.Session.{World, Action, pure, from_option, when_some, ◌>>=◌}
use yyou.FastFix.{
  Bug, Comment, Body, Request, Args, Notify, slack, contactdevforpr, escalatetrack, continoustrack,
  Info, pr_exists, is_pre_verified, is_already_notify, is_already_query_dev, notify_note,
  query_note,
}
use yyou.FastFix.Notes.{get_notify_time, half_hours, is_due, commented_since}
use yyou.FastFix.Requests.{update_qa_white_board, get_by_id, get_comments_by_id, get_utctimestamp}

module _ (args : Args) (w : World Request Body) where
  -- The note is parsed before the clock is read. `from_option` raises the `ValueError` of `strptime`.
  unfoldable pub get_interval_in_half_hour : Text → Action Request ℤ
  unfolding strptime_micro half_hours
  get_interval_in_half_hour notifytime = do
    notify ← from_option (strptime_micro notifytime)
    now ← get_utctimestamp args w
    current ← from_option (strptime_micro now)
    pure (half_hours notify current)

  unfoldable pub is_send_track_email : Text → Text → ℕ → ℕ → Action Request Bool
  is_send_track_email id cf_qa_whiteboard interval offset =
      when_some (get_notify_time cf_qa_whiteboard id) (pure false) λ notify_time. do
        interval_half_hour ← get_interval_in_half_hour notify_time
        pure (is_due interval_half_hour interval offset)

  -- With the comments at hand.
  unfoldable pub commented_in : Text → Text → Text → List Comment → Action Request Bool
  commented_in id qa cf_qa_whiteboard [] = pure false
  commented_in id qa cf_qa_whiteboard (c ∷ cs) =
      when_some (get_notify_time cf_qa_whiteboard id) (pure true) λ notify_time. do
        first_notify ← from_option (strptime_micro notify_time)
        from_option (commented_since qa first_notify (c ∷ cs))

  unfoldable pub is_commented : Text → Text → Text → Action Request Bool
  is_commented id qa cf_qa_whiteboard = do
    comments_info ← get_comments_by_id args w id
    when_some comments_info (pure true) (commented_in id qa cf_qa_whiteboard)

  abbrev info : Text → Bug → Notify → Option Info
  info id b notify =
      some (record { id = id; qa = b.qa_contact; notify = notify; assignee = b.assigned_to })

  -- A note is written on the whiteboard, and reported if that succeeds.
  unfoldable pub note_once : Text → Bug → Text → Notify → Action Request (Option Info)
  note_once id b note notify = do
    time ← get_utctimestamp args w
    updated ← update_qa_white_board args w id (note ++ (codes " at UTC " ++ time))
    when_some updated (pure none) (λ _. pure (info id b notify))

  unfoldable pub check_without_pr : Text → Bug → Action Request (Option Info)
  check_without_pr id b =
      if member b.status (codes "NEW" ∷ codes "ASSIGNED" ∷ [])
      then pure none
      else if is_already_query_dev b.cf_qa_whiteboard id
      then pure none
      else note_once id b (query_note id) contactdevforpr

  -- `isSendTrackEmail(…, 96, 48) and not isCommented(…)`
  unfoldable pub is_escalated : Text → Bug → Action Request Bool
  is_escalated id b = do
    due ← is_send_track_email id b.cf_qa_whiteboard 96 48
    if due
        then (do commented ← is_commented id b.qa_contact b.cf_qa_whiteboard; pure (not commented))
        else pure false

  unfoldable pub check_notified : Text → Bug → Action Request (Option Info)
  check_notified id b = do
    escalated ← is_escalated id b
    if escalated then pure (info id b escalatetrack) else (do
      due ← is_send_track_email id b.cf_qa_whiteboard 20 0
      if due then pure (info id b continoustrack) else pure none)

  unfoldable pub check_with_pr : Text → Bug → Action Request (Option Info)
  check_with_pr id b =
      if is_pre_verified b.cf_verified
      then pure none
      else if is_already_notify b.cf_qa_whiteboard id
      then check_notified id b
      else note_once id b (notify_note id) slack

  unfoldable pub check_found : Text → Option (Option Bug) → Action Request (Option Info)
  check_found id none = pure none
  check_found id (some none) = pure none
  check_found id (some (some b)) =
      if pr_exists b.external_bugs then check_with_pr id b else check_without_pr id b

  unfoldable pub check_bug : Text → Action Request (Option Info)
  check_bug id = do bug_info ← get_by_id args w id; check_found id bug_info
