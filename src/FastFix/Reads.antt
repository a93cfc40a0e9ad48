-- ===== src/FastFix/Reads.antt =====
-- What the methods of BugzillaClient send.
use yyou.Common.{ℕ, List, [], ◌∷◌}
use yyou.Text.{Text}
use yyou.Session.{World, Event, sent, read_clock}
use yyou.Session.Trace.{Adds, trace}
use yyou.FastFix.{Bug, Comment, Body, Request, get, put, post, Args}
use yyou.FastFix.Requests.{get_by_id, get_comments_by_id, get_utctimestamp}
use yyou.FastFix.Check.{
  get_interval_in_half_hour, is_send_track_email, commented_in, is_commented, is_escalated,
  check_notified,
}

-- A request that changes nothing, or a reading of the clock.
abbrev pub IsRead : Event Request → Type 0
IsRead (sent (get url)) = Unit
IsRead (sent (put url key value)) = ⊥
IsRead (sent (post url notification)) = ⊥
IsRead read_clock = Unit

-- Any event but a message to Slack.
abbrev pub IsQuiet : Event Request → Type 0
IsQuiet (sent (get url)) = Unit
IsQuiet (sent (put url key value)) = Unit
IsQuiet (sent (post url notification)) = ⊥
IsQuiet read_clock = Unit

module _ (args : Args) (w : World Request Body) where
  get_comments_by_id-reads : (id : Text) → Adds IsRead (get_comments_by_id args w id)
  unfolding get_comments_by_id
  get_comments_by_id-reads id = search trace depth 12

  pub get_utctimestamp-reads : Adds IsRead (get_utctimestamp args w)
  unfolding get_utctimestamp
  get_utctimestamp-reads = search trace depth 12

  get_interval_in_half_hour-reads : (t : Text) → Adds IsRead (get_interval_in_half_hour args w t)
  unfolding get_interval_in_half_hour
  get_interval_in_half_hour-reads t = search (trace, get_utctimestamp-reads) depth 12

  is_send_track_email-reads :
      (id wb : Text) (i o : ℕ) → Adds IsRead (is_send_track_email args w id wb i o)
  unfolding is_send_track_email
  is_send_track_email-reads id wb i o = search (trace, get_interval_in_half_hour-reads) depth 12

  commented_in-reads :
      (id qa wb : Text) (cs : List Comment) → Adds IsRead (commented_in args w id qa wb cs)
  unfolding commented_in
  commented_in-reads id qa wb [] = search trace
  commented_in-reads id qa wb (c ∷ cs) = search trace depth 12

  is_commented-reads : (id qa wb : Text) → Adds IsRead (is_commented args w id qa wb)
  unfolding is_commented
  is_commented-reads id qa wb =
      search (trace, get_comments_by_id-reads, commented_in-reads) depth 12

  is_escalated-reads : (id : Text) (b : Bug) → Adds IsRead (is_escalated args w id b)
  unfolding is_escalated
  is_escalated-reads id b = search (trace, is_send_track_email-reads, is_commented-reads) depth 12

  pub check_notified-reads : (id : Text) (b : Bug) → Adds IsRead (check_notified args w id b)
  unfolding check_notified
  check_notified-reads id b = search (trace, is_escalated-reads, is_send_track_email-reads) depth 12

  pub get_by_id-reads : (id : Text) → Adds IsRead (get_by_id args w id)
  unfolding get_by_id
  get_by_id-reads id = search trace depth 12

pub IsRead→IsQuiet : (e : Event Request) → IsRead e → IsQuiet e
IsRead→IsQuiet (sent (get url)) h = tt
IsRead→IsQuiet (sent (put url key value)) h = absurd h
IsRead→IsQuiet (sent (post url notification)) h = absurd h
IsRead→IsQuiet read_clock h = tt
