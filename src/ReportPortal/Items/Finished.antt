-- ===== src/ReportPortal/Items/Finished.antt =====
-- pipeline/reportportal.py: what `finishChild` has sent when it reports success.
use yyou.Common.{
  ◌≡◌, refl, sym, ap, ◌∙◌, inl, inr, true, false, List, [], ◌∷◌, ◌++◌, Option, none, some,
  Bool-cases, Option-cases, if◌then◌else◌, append_assoc, append-nil,
}
use yyou.Text.{Text, codes}
use yyou.Session.{
  World, Event, sent, ok, pure, guard, attempt, ◌>>=◌, send, from_option, is_200_or_201,
  Outcome-cases,
}
use yyou.Session.Steps.{bind-ok, from_option-ok, attempt-true, from_option-trace, guard-trace}
use yyou.ReportPortal.{Body, Payload, finish_item, log, Request, post, put, Args}
use yyou.ReportPortal.Items.{
  first_text, child_status, is_logged, write_log, write_logs, finish_child,
}

-- The logs of a case: the text of the failure, if there is one, and the output.
abbrev pub log_events :
    Args
    → (childid existinguuid starttime : Text) → (message : Option Text) → (output : Text)
    → List (Event Request)
log_events args id uuid start none output =
    sent (post args.log_url (log uuid id start output (codes "INFO"))) ∷ []
log_events args id uuid start (some message) output =
    sent (post args.log_url (log uuid id start message (codes "ERROR")))
    ∷ sent (post args.log_url (log uuid id start output (codes "INFO")))
    ∷ []

-- What stands in the logs of a case with these elements.
pub data IsLogged
    : (failures skipped systemouts : List Text)
      → Args
      → (id uuid start : Text) → List (Event Request)
      → Type 0 where
  passed :
      (systemouts : List Text) (args : Args) (id uuid start : Text)
      → IsLogged [] [] systemouts args id uuid start []
  skipped :
      (s : Text) (ss systemouts : List Text) (args : Args) (id uuid start output : Text)
      → first_text systemouts ≡ some output
      → IsLogged []
          (s ∷ ss)
          systemouts
          args
          id
          uuid
          start
          (log_events args id uuid start none output)
  failed :
      (f : Text) (fs ss systemouts : List Text) (args : Args) (id uuid start message output : Text)
      → first_text (f ∷ fs) ≡ some message
      → first_text systemouts ≡ some output
      → IsLogged
          (f ∷ fs)
          ss
          systemouts
          args
          id
          uuid
          start
          (log_events args id uuid start (some message) output)

followed_by : {g h : List (Event Request)} (es : List (Event Request)) → g ≡ h → g ++ es ≡ h ++ es
followed_by es e = ap (λ k. k ++ es) e

module _ (args : Args) (w : World Request Body) where
  write_log-ok :
      (entry : Payload) (h : List (Event Request)) {u : Unit {0}}
      → (write_log args w entry h).0 ≡ ok u
      → (write_log args w entry h).1 ≡ h ++ (sent (post args.log_url entry) ∷ [])
  unfolding write_log ◌>>=◌ send guard
  write_log-ok entry h e = elim (Outcome-cases (w.respond h (post args.log_url entry))) [
    | inl lost ↦ rw lost refl
    | inr (r, answer) ↦ elim (Bool-cases (is_200_or_201 r)) [
      | inl good ↦ rw (answer, good) refl
      | inr bad ↦ rw (answer, bad) refl
    ]
  ]

  logs-IsLogged :
      (id uuid start : Text) (failures skips systemouts : List Text) (h : List (Event Request))
      {u : Unit {0}}
      → ((if is_logged args w failures skips
            then write_logs args w id uuid start failures systemouts
            else pure tt)
          h).0
        ≡ ok u
      → (es : List (Event Request)) × (((if is_logged args w failures skips
              then write_logs args w id uuid start failures systemouts
              else pure tt)
            h).1
          ≡ h ++ es)
        × IsLogged failures skips systemouts args id uuid start es
  unfolding write_logs
  logs-IsLogged id uuid start [] [] systemouts h e =
      ([], unfold pure in (sym (append-nil h)), passed systemouts args id uuid start)
  logs-IsLogged id uuid start [] (s ∷ ss) systemouts h e =
      let (output, there, rest, step) = bind-ok (from_option (first_text systemouts)) _ h e in
      (
        log_events args id uuid start none output,
        step
            ∙ write_log-ok (log uuid id start output (codes "INFO")) _ rest
            ∙ followed_by (log_events args id uuid start none output)
                (from_option-trace (first_text systemouts) h),
        skipped s ss systemouts args id uuid start output (from_option-ok _ output h there),
      )
  logs-IsLogged id uuid start (f ∷ fs) skips systemouts h e =
      let (message, e0, rest0, step0) = bind-ok (from_option (first_text (f ∷ fs))) _ h e in
      let (output, e1, rest1, step1) = bind-ok (from_option (first_text systemouts)) _ _ rest0 in
      let (u, e2, rest2, step2) = bind-ok (write_log args w _) _ _ rest1 in
      let error = sent (post args.log_url (log uuid id start message (codes "ERROR"))) in
      let info = sent (post args.log_url (log uuid id start output (codes "INFO"))) in
      (
        error ∷ info ∷ [],
        step0
            ∙ step1
            ∙ step2
            ∙ write_log-ok (log uuid id start output (codes "INFO")) _ rest2
            ∙ followed_by (info ∷ []) (
                write_log-ok (log uuid id start message (codes "ERROR")) _ e2
                ∙ followed_by (error ∷ []) (
                    from_option-trace (first_text systemouts) _
                    ∙ from_option-trace (first_text (f ∷ fs)) h))
            ∙ append_assoc h (error ∷ []) (info ∷ []),
        failed f fs skips systemouts args id uuid start message output
            (from_option-ok _ message h e0) (from_option-ok _ output _ e1),
      )

  -- If `finishChild` returns `True`, it has sent the text of the first failure of a failed case as an
  -- error, then the first output of a failed or skipped case, and then, as the last thing, the end of the
  -- item with the status that fits the case, and nothing else.
  pub finish_child-IsLogged :
      (id uuid start finish : Text) (failures skips systemouts : List Text)
      (h : List (Event Request))
      → (finish_child args w id uuid start finish failures skips systemouts h).0 ≡ ok true
      → (es : List (Event Request)) × ((finish_child args w id uuid start finish failures skips
            systemouts h).1
          ≡ (h ++ es)
            ++ (sent (
                  put (args.item_url ++ codes "/" ++ id) (
                    finish_item finish uuid
                      (some (child_status failures skips))
                      (is_logged args w failures skips)))
                ∷ []))
        × IsLogged failures skips systemouts args id uuid start es
  unfolding finish_child
  finish_child-IsLogged id uuid start finish failures skips systemouts h e =
      let (body, same) = attempt-true _ h e in
      let (u, logged, rest, step) =
        bind-ok
          (if is_logged args w failures skips
            then write_logs args w id uuid start failures systemouts
            else pure tt)
          _ h body in
      let (es, trace, l) = logs-IsLogged id uuid start failures skips systemouts h logged in
      let (r, _, rest1, step1) = bind-ok (send w _) _ _ rest in
      let (v, _, _, step2) = bind-ok (guard (is_200_or_201 r)) _ _ rest1 in
      (
        es,
        same
            ∙ step
            ∙ step1
            ∙ step2
            ∙ unfold pure send in (guard-trace (is_200_or_201 r) _ ∙ followed_by (_ ∷ []) trace),
        l,
      )

  -- For a case that has failed or was skipped and whose first output element has no text, or that
  -- has no such element, `finishChild` sends nothing, not even the end of the item, and returns
  -- `False`.
  pub finish_child_no_output :
      (id uuid start finish : Text) (failures skips systemouts : List Text)
      (h : List (Event Request))
      → is_logged args w failures skips ≡ true
      → first_text systemouts ≡ none
      → finish_child args w id uuid start finish failures skips systemouts h ≡ (ok false, h)
  unfolding finish_child write_logs attempt ◌>>=◌ from_option
  finish_child_no_output id uuid start finish [] [] systemouts h logged e = absurd (cc)
  finish_child_no_output id uuid start finish [] (s ∷ ss) systemouts h logged e = rw e refl
  finish_child_no_output id uuid start finish (f ∷ fs) skips systemouts h logged e =
      elim (Option-cases (first_text (f ∷ fs))) [
        | inl empty ↦ rw empty refl
        | inr (message, there) ↦ rw (there, e) refl
      ]
