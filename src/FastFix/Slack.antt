-- ===== src/FastFix/Slack.antt =====
-- pipeline/fastfixmonitor.py: `notifyQaInSlack` and `handleBugs`.
use yyou.Common.{
  ℕ, Bool, true, false, List, [], ◌∷◌, ◌++◌, Option, none, some, if◌then◌else◌, get_elem?, keep,
}
use yyou.Text.{Text, codes, split, show}
use yyou.Dict.{Dict, lookup, insert}
use yyou.Session.{World, Action, pure, fault, when_some, attempt, ◌>>=◌, ◌>>◌, send, is_200_or_201}
use yyou.FastFix.{
  Body, Request, post, Args, Notify, slack, contactdevforpr, escalatetrack, continoustrack, Info,
}
use yyou.FastFix.Requests.{remove_notify_white_board, get_by_filter}
use yyou.FastFix.Check.{check_bug}

-- The ids of a contact, with one more.
abbrev pub with_id : Option (List Text) → Text → List Text
with_id none id = id ∷ []
with_id (some ids) id = ids ++ (id ∷ [])

-- The first loop: the ids by contact.
unfoldable pub group : List Info → Dict (List Text) → Dict (List Text)
unfolding lookup insert
group [] qa_list = qa_list
group (bug ∷ slack_list) qa_list =
    group slack_list (insert bug.qa (with_id (lookup bug.qa qa_list) bug.id) qa_list)

unfoldable pub links : List Text → Text
links [] = []
links (id ∷ ids) =
    codes "https://bugzilla.redhat.com/show_bug.cgi?id=" ++ (id ++ (codes "\n" ++ links ids))

-- `qa.split("@")[0]`; a split has a first part.
unfoldable pub account : Text → Text
unfolding split
account qa = elim (get_elem? (split qa (codes "@")) 0) [ none ↦ [] | some name ↦ name ]

unfoldable pub greetings : Dict (List Text) → Text
unfolding links account
greetings [] = []
greetings ((qa, ids) ∷ qa_list) =
    codes "Hi @"
    ++ account qa
    ++ codes ", please finish the verification of fastfix bugs in one day per process required:\n"
    ++ links ids
    ++ codes "Thanks!\n"
    ++ greetings qa_list

unfoldable pub notification : List Info → Text
unfolding group greetings
notification slack_list =
    greetings (group slack_list [])
    ++ codes "\nFor How, please refer to https://docs.google.com/document/d/"
    ++ codes "1qSVZtKR4TGsrZjj-IDNW3IN40YicbZm9F2UzFTy1qvI/edit?usp=sharing \n"
    ++ codes "cc @openshift-qe-lead\n"

abbrev pub is_slack : Notify → Bool
is_slack slack = true
is_slack contactdevforpr = false
is_slack escalatetrack = false
is_slack continoustrack = false

module _ (args : Args) (w : World Request Body) where
  -- The notes are taken back, one bug after the other.
  unfoldable pub remove_notes : List Info → Action Request (Unit {0})
  remove_notes [] = pure tt
  remove_notes (bug ∷ bugs) = do remove_notify_white_board args w bug.id; remove_notes bugs

  unfoldable pub post_slack : List Info → Action Request (Option ℕ)
  post_slack slack_list = do
    r ← send w (post args.slack_url (notification slack_list))
    if is_200_or_201 r then pure (some r.status_code) else (do remove_notes slack_list; fault)

  unfoldable pub notify_qa_in_slack : List Info → Action Request (Option ℕ)
  notify_qa_in_slack [] = pure none
  notify_qa_in_slack (bug ∷ bugs) = attempt (post_slack (bug ∷ bugs)) none

  -- The loop over the bugs: all that is reported.
  unfoldable pub check_bugs : List ℕ → Action Request (List Info)
  check_bugs [] = pure []
  check_bugs (id ∷ ids) = do
    bug_info ← check_bug args w (show id)
    all_list ← check_bugs ids
    pure (elim bug_info [ none ↦ all_list | some i ↦ i ∷ all_list ])

  -- What is written to /tmp/fast_fix.json, if anything.
  unfoldable pub handle_found : List ℕ → Action Request (Option (List Info))
  handle_found [] = pure none
  handle_found (id ∷ ids) = do
    all_list ← check_bugs (id ∷ ids)
    notify_qa_in_slack (keep (λ i. is_slack i.notify) all_list)
    pure (some all_list)

  unfoldable pub handle_bugs : Action Request (Option (List Info))
  handle_bugs = do bug_list ← get_by_filter args w; when_some bug_list (pure none) handle_found
