-- ===== src/FastFix/Delivery.antt =====
-- What reaches Slack: the grouping by contact, and how often a run posts.
use yyou.Common.{
  ℕ, ◌≡◌, ◌≢◌, refl, sym, List, [], ◌∷◌, ◌++◌, Option, none, some, arith, Bool-cases, inl, inr,
  append_assoc, append-nil, keep, map, All, ◌⊎◌,
}
use yyou.Text.{Text, show, ◌==◌}
use yyou.Text.Laws.{eq_sound}
use yyou.Dict.{Dict, lookup, insert, lookup-insert, NodupKeys, insert-NodupKeys}
use yyou.Session.{
  World, Event, sent, raised, Outcome-cases, attempt, pure, ◌>>=◌, send, is_200_or_201,
}
use yyou.Session.Trace.{Adds, Adds-mono, Adds-bind, Adds-pure, Adds-fault, trace}
use yyou.FastFix.{Bug, Body, Request, post, Args, Notify, Info}
use yyou.FastFix.Reads.{
  IsRead, IsQuiet, IsRead→IsQuiet, check_notified-reads, get_by_id-reads, get_utctimestamp-reads,
}
use yyou.FastFix.Requests.{
  update_by_id, get_whiteboard, update_qa_white_board, remove_notify_white_board, get_by_id,
  get_utctimestamp,
}
use yyou.FastFix.Check.{
  note_once, check_without_pr, check_notified, check_with_pr, check_found, check_bug,
}
use yyou.FastFix.Slack.{
  with_id, group, notification, remove_notes, post_slack, notify_qa_in_slack, check_bugs,
  handle_found,
}

-- The ids that are listed for a contact.
abbrev ids_or_nil : Option (List Text) → List Text
ids_or_nil none = []
ids_or_nil (some ids) = ids

abbrev pub ids_for : Text → Dict (List Text) → List Text
ids_for qa d = ids_or_nil (lookup qa d)

abbrev pub ids_of_contact : Text → List Info → List Text
ids_of_contact qa bugs = map (λ i. i.id) (keep (λ i. i.qa == qa) bugs)

with_id-append : (o : Option (List Text)) (id : Text) → with_id o id ≡ ids_or_nil o ++ (id ∷ [])
with_id-append none id = refl
with_id-append (some ids) id = refl

group-ids_for :
    (qa : Text) (bugs : List Info) (d : Dict (List Text))
    → ids_for qa (group bugs d) ≡ ids_for qa d ++ ids_of_contact qa bugs
unfolding group keep
group-ids_for qa [] d = sym (append-nil (ids_for qa d))
group-ids_for qa (b ∷ bs) d =
    let d' = insert b.qa (with_id (lookup b.qa d) b.id) d in
    let ih = group-ids_for qa bs d' in
    elim (Bool-cases (b.qa == qa)) [
      | inl e ↦
          rw (ih, lookup-insert, e)
            (rw (with_id-append, eq_sound b.qa qa e) (append_assoc (ids_for qa d) (b.id ∷ []) _))
      | inr e ↦ rw (ih, lookup-insert, e) refl
    ]

group-NodupKeys : (bugs : List Info) (d : Dict (List Text)) → NodupKeys d → NodupKeys (group bugs d)
unfolding group
group-NodupKeys [] d h = h
group-NodupKeys (b ∷ bs) d h = group-NodupKeys bs _ (insert-NodupKeys b.qa _ d h)

-- The message greets every contact once, with the ids of all of the contact's bugs in their order.
group-partition :
    (bugs : List Info)
    → NodupKeys (group bugs [])
      × ((qa : Text) → ids_for qa (group bugs []) ≡ ids_of_contact qa bugs)
unfolding lookup
group-partition bugs = (group-NodupKeys bugs [] tt, λ qa. group-ids_for qa bugs [])

module _ (args : Args) (w : World Request Body) where
  update_by_id-IsQuiet : (id key value : Text) → Adds IsQuiet (update_by_id args w id key value)
  unfolding update_by_id
  update_by_id-IsQuiet id key value = search trace depth 12

  get_whiteboard-IsQuiet : (id : Text) → Adds IsQuiet (get_whiteboard args w id)
  unfolding get_whiteboard
  get_whiteboard-IsQuiet id = search trace depth 12

  update_qa_white_board-IsQuiet :
      (id note : Text) → Adds IsQuiet (update_qa_white_board args w id note)
  unfolding update_qa_white_board
  update_qa_white_board-IsQuiet id note =
      search (trace, update_by_id-IsQuiet, get_whiteboard-IsQuiet) depth 12

  remove_notify_white_board-IsQuiet :
      (id : Text) → Adds IsQuiet (remove_notify_white_board args w id)
  unfolding remove_notify_white_board
  remove_notify_white_board-IsQuiet id =
      search (trace, update_by_id-IsQuiet, get_whiteboard-IsQuiet) depth 12

  remove_notes-IsQuiet : (bugs : List Info) → Adds IsQuiet (remove_notes args w bugs)
  unfolding remove_notes
  remove_notes-IsQuiet [] = search trace
  remove_notes-IsQuiet (b ∷ bs) =
      Adds-bind (remove_notify_white_board-IsQuiet b.id) (λ _. remove_notes-IsQuiet bs)

  get_utctimestamp-IsQuiet : Adds IsQuiet (get_utctimestamp args w)
  get_utctimestamp-IsQuiet =
      Adds-mono IsRead IsQuiet _ IsRead→IsQuiet (get_utctimestamp-reads args w)

  get_by_id-IsQuiet : (id : Text) → Adds IsQuiet (get_by_id args w id)
  get_by_id-IsQuiet id = Adds-mono IsRead IsQuiet _ IsRead→IsQuiet (get_by_id-reads args w id)

  check_notified-IsQuiet : (id : Text) (b : Bug) → Adds IsQuiet (check_notified args w id b)
  check_notified-IsQuiet id b =
      Adds-mono IsRead IsQuiet _ IsRead→IsQuiet (check_notified-reads args w id b)

  note_once-IsQuiet :
      (id : Text) (b : Bug) (note : Text) (n : Notify) → Adds IsQuiet (note_once args w id b note n)
  unfolding note_once
  note_once-IsQuiet id b note n =
      search (trace, update_qa_white_board-IsQuiet, get_utctimestamp-IsQuiet) depth 12

  check_with_pr-IsQuiet : (id : Text) (b : Bug) → Adds IsQuiet (check_with_pr args w id b)
  unfolding check_with_pr
  check_with_pr-IsQuiet id b = search (trace, note_once-IsQuiet, check_notified-IsQuiet) depth 12

  check_without_pr-IsQuiet : (id : Text) (b : Bug) → Adds IsQuiet (check_without_pr args w id b)
  unfolding check_without_pr
  check_without_pr-IsQuiet id b = search (trace, note_once-IsQuiet) depth 12

  check_found-IsQuiet :
      (id : Text) (o : Option (Option Bug)) → Adds IsQuiet (check_found args w id o)
  unfolding check_found
  check_found-IsQuiet id none = search trace
  check_found-IsQuiet id (some none) = search trace
  check_found-IsQuiet id (some (some b)) =
      search (trace, check_with_pr-IsQuiet, check_without_pr-IsQuiet)

  check_bug-IsQuiet : (id : Text) → Adds IsQuiet (check_bug args w id)
  unfolding check_bug
  check_bug-IsQuiet id = search (trace, check_found-IsQuiet, get_by_id-IsQuiet) depth 12

  check_bugs-IsQuiet : (ids : List ℕ) → Adds IsQuiet (check_bugs args w ids)
  unfolding check_bugs
  check_bugs-IsQuiet [] = search trace
  check_bugs-IsQuiet (id ∷ ids) =
      Adds-bind (check_bug-IsQuiet (show id))
        λ o. Adds-bind (check_bugs-IsQuiet ids) λ more. Adds-pure _

-- If the check of one bug raises, the run raises and has sent nothing to Slack, whatever notes it has
-- written on the whiteboards of the bugs before.
pub handle_found_raised :
    (args : Args) (w : World Request Body) (id : ℕ) (ids : List ℕ) (h : List (Event Request))
    → (check_bugs args w (id ∷ ids) h).0 ≡ raised
    → ((handle_found args w (id ∷ ids) h).0 ≡ raised)
      × (es : List (Event Request)) × ((handle_found args w (id ∷ ids) h).1 ≡ h ++ es)
      × All IsQuiet es
unfolding handle_found ◌>>=◌
handle_found_raised args w id ids h e =
    let (es, f, q) = (check_bugs-IsQuiet args w (id ∷ ids)).added h in (rw e refl, es, rw (e) f, q)

module _ (args : Args) (w : World Request Body) where
  abbrev slack_post : List Info → Event Request
  slack_post bugs = sent (post args.slack_url (notification bugs))

  post_slack-trace :
      (bugs : List Info) (h : List (Event Request))
      → (es : List (Event Request)) × ((post_slack args w bugs h).1
          ≡ (h ++ (slack_post bugs ∷ [])) ++ es)
        × All IsQuiet es
  unfolding post_slack ◌>>=◌ send
  post_slack-trace bugs h =
      let request = post args.slack_url (notification bugs) in
      let g = h ++ (slack_post bugs ∷ []) in
      elim (Outcome-cases (w.respond h request)) [
        | inl e ↦ ([], rw (e, append-nil) refl, tt)
        | inr (r, e) ↦ elim (Bool-cases (is_200_or_201 r)) [
          | inl a ↦ ([], rw (e, a, append-nil) (unfold pure in refl), tt)
          | inr a ↦
              let (es, f, q) =
                (Adds-bind (remove_notes-IsQuiet args w bugs)
                    (λ _. Adds-fault {A = Option ℕ})).added
                  g in
              (es, rw (e, a) f, q)
        ]
      ]

-- `notifyQaInSlack` never raises. For no bug it does nothing; else it posts one message, on all the
-- bugs, before anything else, and no other message after it.
pub notify_qa_in_slack_once :
    (args : Args) (w : World Request Body) (bugs : List Info) (h : List (Event Request))
    → ((notify_qa_in_slack args w bugs h).0 ≢ raised)
      × ((bugs ≡ []) × ((notify_qa_in_slack args w bugs h).1 ≡ h)
          ⊎ ((es : List (Event Request)) × ((notify_qa_in_slack args w bugs h).1
                ≡ (h ++ (sent (post args.slack_url (notification bugs)) ∷ [])) ++ es)
              × All IsQuiet es))
unfolding notify_qa_in_slack attempt pure
notify_qa_in_slack_once args w [] h = (ground arith, inl (refl, refl))
notify_qa_in_slack_once args w (b ∷ bs) h = (ground arith, inr (post_slack-trace args w (b ∷ bs) h))
