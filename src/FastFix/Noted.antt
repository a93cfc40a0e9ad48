-- ===== src/FastFix/Noted.antt =====
-- A bug is handed to Slack once: after a note on its whiteboard, and never when the note is there.
use yyou.Common.{
  ℕ, ◌≡◌, ◌≢◌, sym, ap, ◌∙◌, subst, true, List, [], ◌∷◌, ◌++◌, Option, none, some, arith,
  Bool-cases, inl, inr, append_assoc,
}
use yyou.Text.{Text, codes, contains, member}
use yyou.Text.Laws.{contains-append}
use yyou.Session.{World, Event, sent, ok, Response, is_200_or_201, effects, Outcome-cases, pure}
use yyou.Session.Steps.{bind-ok, attempt-some, when_some-some}
use yyou.Session.Trace.{Adds, trace}
use yyou.FastFix.{
  Bug, Body, Request, put, Args, Notify, slack, contactdevforpr, Info, notify_note, query_note,
  crlf, is_already_notify, is_already_query_dev, is_pre_verified, pr_exists,
}
use yyou.FastFix.Reads.{IsRead, check_notified-reads}
use yyou.FastFix.Requests.{
  whiteboard_key, bug_path, update_by_id, get_whiteboard, update_qa_white_board, get_utctimestamp,
  get_by_id,
}
use yyou.FastFix.Check.{
  note_once, check_notified, check_with_pr, check_without_pr, check_found, check_bug,
}

module _ (args : Args) (w : World Request Body) where
  -- The last event is a write to the whiteboard of the bug, which the service accepted, of a text
  -- that holds the note.
  pub record IsNoted (id note : Text) (h : List (Event Request)) : Type 0 where
    pub before : List (Event Request)
    pub whiteboard : Text
    pub response : Response Body
    pub last_event : h ≡ before ++ (sent (put (bug_path args w id) whiteboard_key whiteboard) ∷ [])
    pub answered :
        w.respond before (put (bug_path args w id) whiteboard_key whiteboard) ≡ ok response
    pub accepted : is_200_or_201 response ≡ true
    pub holds_note : contains note whiteboard ≡ true

  update_by_id-some :
      (bid key value : Text) (g : List (Event Request)) {s : ℕ}
      → (update_by_id args w bid key value g).0 ≡ ok (some s)
      → (r : Response Body) × (w.respond g (put (bug_path args w bid) key value) ≡ ok r)
        × (is_200_or_201 r ≡ true)
        × ((update_by_id args w bid key value g).1
            ≡ g ++ (sent (put (bug_path args w bid) key value) ∷ []))
  unfolding update_by_id effects
  update_by_id-some bid key value g h =
      elim (Outcome-cases (w.respond g (put (bug_path args w bid) key value))) [
        | inl e ↦ absurd (ground arith)
        | inr (r, e) ↦ (r, e, ground arith, ground arith)
      ]

  update_qa_white_board-some :
      (bid note rest : Text) (g : List (Event Request)) {s : ℕ}
      → (update_qa_white_board args w bid (note ++ rest) g).0 ≡ ok (some s)
      → IsNoted bid note (update_qa_white_board args w bid (note ++ rest) g).1
  unfolding update_qa_white_board
  update_qa_white_board-some bid note rest g h =
      let (body, same) = attempt-some _ g h in
      let ((_, wb), _, done, step) = bind-ok (get_whiteboard args w bid) _ g body in
      let g' = (get_whiteboard args w bid g).1 in
      let text = wb ++ crlf ++ (note ++ rest) in
      let (r, answered, accepted, event) = update_by_id-some bid whiteboard_key text g' done in
      record {
        before = g';
        whiteboard = text;
        response = r;
        last_event = same ∙ step ∙ event;
        answered = answered;
        accepted = accepted;
        holds_note =
            subst (λ t. contains note t ≡ true) (append_assoc (wb ++ crlf) note rest)
              (contains-append (wb ++ crlf) note rest);
      }

  note_once-some :
      (id : Text) (b : Bug) (note : Text) (n : Notify) (h : List (Event Request)) {i : Info}
      → (note_once args w id b note n h).0 ≡ ok (some i)
      → IsNoted id note (note_once args w id b note n h).1 × (i.notify ≡ n)
  unfolding note_once
  note_once-some id b note n h {i} e =
      let (time, _, rest, step) = bind-ok (get_utctimestamp args w) _ h e in
      let g = (get_utctimestamp args w h).1 in
      let contents = note ++ (codes " at UTC " ++ time) in
      let (updated, u, last, step') = bind-ok (update_qa_white_board args w id contents) _ g rest in
      let (s, some_status, reported, step'') = when_some-some updated _ _ last in
      let noted = update_qa_white_board-some id note _ g (u ∙ ap ok some_status) in
      (
        subst (IsNoted id note) (sym (step ∙ step' ∙ step'')) noted,
        sym (ap (λ (j : Info). j.notify) reported),
      )

  -- `checkNotified` never reports a bug for the first message.
  check_notified-ne-slack :
      (id : Text) (b : Bug) (h : List (Event Request)) {i : Info}
      → (check_notified args w id b h).0 ≡ ok (some i)
      → i.notify ≢ slack
  unfolding check_notified effects
  check_notified-ne-slack id b h e = ground arith

  check_without_pr-ne-slack :
      (id : Text) (b : Bug) (h : List (Event Request)) {i : Info}
      → (check_without_pr args w id b h).0 ≡ ok (some i)
      → i.notify ≢ slack
  unfolding check_without_pr pure
  check_without_pr-ne-slack id b h {i} e =
      elim (Bool-cases (member b.status (codes "NEW" ∷ codes "ASSIGNED" ∷ []))) [
        | inl x ↦ absurd (ground arith)
        | inr x ↦ elim (Bool-cases (is_already_query_dev b.cf_qa_whiteboard id)) [
          | inl y ↦ absurd (ground arith)
          | inr y ↦
              let (_, n) = note_once-some id b (query_note id) contactdevforpr h (rw (x, y) at e) in
              ground arith
        ]
      ]

  check_with_pr-slack :
      (id : Text) (b : Bug) (h : List (Event Request)) {i : Info}
      → (check_with_pr args w id b h).0 ≡ ok (some i)
      → i.notify ≡ slack
      → IsNoted id (notify_note id) (check_with_pr args w id b h).1
  unfolding check_with_pr pure
  check_with_pr-slack id b h e s = elim (Bool-cases (is_pre_verified b.cf_verified)) [
    | inl x ↦ absurd (ground arith)
    | inr x ↦ elim (Bool-cases (is_already_notify b.cf_qa_whiteboard id)) [
      | inl y ↦ absurd (check_notified-ne-slack id b h (rw (x, y) at e) s)
      | inr y ↦ rw (x, y) (note_once-some id b (notify_note id) slack h (rw (x, y) at e)).0
    ]
  ]

  check_found-slack :
      (id : Text) (o : Option (Option Bug)) (h : List (Event Request)) {i : Info}
      → (check_found args w id o h).0 ≡ ok (some i)
      → i.notify ≡ slack
      → IsNoted id (notify_note id) (check_found args w id o h).1
  unfolding check_found pure
  check_found-slack id none h e s = absurd (ground arith)
  check_found-slack id (some none) h e s = absurd (ground arith)
  check_found-slack id (some (some b)) h e s = elim (Bool-cases (pr_exists b.external_bugs)) [
    | inl x ↦ rw x (check_with_pr-slack id b h (rw x at e) s)
    | inr x ↦ absurd (check_without_pr-ne-slack id b h (rw x at e) s)
  ]

-- `checkBug` hands a bug to Slack only when the last thing that it did was to write the note for this
-- bug on the bug's whiteboard, by a request that the service answered with 200 or 201.
pub check_bug-IsNoted :
    (args : Args) (w : World Request Body) (id : Text) (h : List (Event Request)) (i : Info)
    → (check_bug args w id h).0 ≡ ok (some i)
    → i.notify ≡ slack
    → IsNoted args w id (notify_note id) (check_bug args w id h).1
unfolding check_bug
check_bug-IsNoted args w id h i e s =
    let (o, _, rest, step) = bind-ok (get_by_id args w id) (check_found args w id) h e in
    subst (IsNoted args w id (notify_note id)) (sym step)
      (check_found-slack args w id o (get_by_id args w id h).1 rest s)

-- The check of a bug with a PR whose whiteboard holds the note sends no request that could change
-- anything.
check_with_pr-IsRead :
    (args : Args) (w : World Request Body) (id : Text) (b : Bug)
    → is_already_notify b.cf_qa_whiteboard id ≡ true
    → Adds IsRead (check_with_pr args w id b)
unfolding check_with_pr
check_with_pr-IsRead args w id b noted = elim (Bool-cases (is_pre_verified b.cf_verified)) [
  | inl x ↦ rw x (search trace)
  | inr x ↦ rw (x, noted) (check_notified-reads args w id b)
]

-- A bug with a PR whose whiteboard holds the note is never handed to Slack again.
pub check_with_pr-ne-slack :
    (args : Args) (w : World Request Body) (id : Text) (b : Bug) (h : List (Event Request))
    (i : Info)
    → is_already_notify b.cf_qa_whiteboard id ≡ true
    → (check_with_pr args w id b h).0 ≡ ok (some i)
    → i.notify ≢ slack
unfolding check_with_pr
check_with_pr-ne-slack args w id b h i noted e = elim (Bool-cases (is_pre_verified b.cf_verified)) [
  | inl x ↦ absurd (unfold pure in (ground arith))
  | inr x ↦ check_notified-ne-slack args w id b h (rw (x, noted) at e)
]
