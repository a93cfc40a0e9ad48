-- ===== src/FastFix/Requests.antt =====
-- pipeline/fastfixmonitor.py: the methods that make one request or two. `none` is Python's `None`.
use yyou.Common.{ℕ, List, [], ◌∷◌, ◌++◌, Option, none, some, if◌then◌else◌}
use yyou.Text.{Text, codes, split, strip, ◌==◌}
use yyou.HandleResult.Names.{init}
use yyou.Datetime.{strftime}
use yyou.Session.{
  World, Action, pure, guard, from_option, attempt, ◌>>=◌, ◌>>◌, send, utcnow, is_200_or_201,
}
use yyou.FastFix.{
  Bug, Comment, Body, bugs, ids, comments, other, Request, get, put, Args, crlf, is_already_notify,
}
use yyou.FastFix.Notes.{remaining}

-- `r.json()["bugs"]` and the like.
abbrev pub bugs_of : Body → Option (List Bug)
bugs_of (bugs bs) = some bs
bugs_of (ids _) = none
bugs_of (comments _) = none
bugs_of other = none

abbrev pub ids_of : Body → Option (List ℕ)
ids_of (ids is) = some is
ids_of (bugs _) = none
ids_of (comments _) = none
ids_of other = none

abbrev pub comments_of : Body → Option (List Comment)
comments_of (comments cs) = some cs
comments_of (bugs _) = none
comments_of (ids _) = none
comments_of other = none

abbrev first_bug : List Bug → Option Bug
first_bug [] = none
first_bug (b ∷ bs) = some b

-- Each bug of the answer is written under the same key, so the last one stays.
unfoldable pub last_bug : List Bug → Option Bug
last_bug [] = none
last_bug (b ∷ []) = some b
last_bug (b ∷ c ∷ bs) = last_bug (c ∷ bs)

abbrev pub whiteboard_key : Text
whiteboard_key = codes "cf_qa_whiteboard"

-- The loop over the statuses of `getByFilter`, with the last `&` cut off.
unfoldable pub status_terms : List Text → Text
unfolding strip
status_terms [] = []
status_terms (s ∷ ss) = codes "bug_status=" ++ (strip s ++ (codes "&" ++ status_terms ss))

-- An empty filter leaves its variable unbound, which raises.
unfoldable pub search_filter : Args → Option Text
unfolding status_terms init split strip ◌==◌
search_filter args =
    if args.status == []
    then none
    else if args.keywords == []
    then none
    else some (
        init (status_terms (split args.status (codes ",")))
        ++ codes "&"
        ++ codes "classification=Red%20Hat"
        ++ codes "&"
        ++ (codes "keywords=" ++ strip args.keywords ++ codes "%2C%20&keywords_type=allwords")
        ++ codes "&"
        ++ codes "product=OpenShift%20Container%20Platform")

module _ (args : Args) (w : World Request Body) where
  abbrev pub bug_url : Text
  bug_url = args.endpoint ++ codes "/bug"

  abbrev pub bug_path : Text → Text
  bug_path bid = bug_url ++ codes "/" ++ bid

  unfoldable pub update_by_id : Text → Text → Text → Action Request (Option ℕ)
  update_by_id bid attr_key attr_value =
      attempt
        (do
          r ← send w (put (bug_path bid) attr_key attr_value)
          guard (is_200_or_201 r)
          pure (some r.status_code))
        none

  -- What both methods on the whiteboard read first.
  unfoldable pub get_whiteboard : Text → Action Request (ℕ × Text)
  get_whiteboard bid = do
    r ← send w (get (bug_path bid ++ codes "?include_fields=_default"))
    guard (is_200_or_201 r)
    bs ← from_option (bugs_of r.json)
    b ← from_option (first_bug bs)
    pure (r.status_code, b.cf_qa_whiteboard)

  unfoldable pub update_qa_white_board : Text → Text → Action Request (Option ℕ)
  update_qa_white_board bid contents =
      attempt
        (do
          (_, whiteboard) ← get_whiteboard bid
          update_by_id bid whiteboard_key (whiteboard ++ crlf ++ contents))
        none

  unfoldable pub remove_notify_white_board : Text → Action Request (Option ℕ)
  remove_notify_white_board bid =
      attempt
        (do
          (status_code, whiteboard) ← get_whiteboard bid
          if is_already_notify whiteboard bid
              then update_by_id bid whiteboard_key (remaining bid (split whiteboard crlf) [])
              else pure (some status_code))
        none

  -- The inner option is the dictionary with one key or with none.
  unfoldable pub get_by_id : Text → Action Request (Option (Option Bug))
  get_by_id bid =
      attempt
        (do
          r ← send w (
              get (
                bug_path bid
                ++ codes "?include_fields="
                ++ codes "id,cf_verified,cf_qa_whiteboard,last_change_time,external_bugs,"
                ++ codes "keywords,qa_contact,status,assigned_to"))
          guard (is_200_or_201 r)
          bs ← from_option (bugs_of r.json)
          pure (some (last_bug bs)))
        none

  unfoldable pub get_comments_by_id : Text → Action Request (Option (List Comment))
  get_comments_by_id bid =
      attempt
        (do
          r ← send w (get (bug_path bid ++ codes "/comment"))
          guard (is_200_or_201 r)
          cs ← from_option (comments_of r.json)
          pure (some cs))
        none

  unfoldable pub get_by_filter : Action Request (Option (List ℕ))
  get_by_filter =
      attempt
        (do
          filters ← from_option (search_filter args)
          r ←
              send w
                (get (bug_url ++ codes "?" ++ filters ++ codes "&" ++ codes "include_fields=id"))
          guard (is_200_or_201 r)
          is ← from_option (ids_of r.json)
          pure (some is))
        none

  unfoldable pub get_utctimestamp : Action Request Text
  get_utctimestamp = do now ← utcnow w; pure (strftime now)
