-- ===== src/ReportPortal/Rerun/Runs.antt =====
-- pipeline/reportportal.py: the loop of `rerunResult` over the cases, as a sequence of items.
pub mod Launch
use yyou.Common.{
  ℕ, ◌≡◌, refl, sym, ap, subst, Bool, true, false, List, [], ◌∷◌, ◌++◌, Option, none, some, All,
  if◌then◌else◌, append-nil,
}
use yyou.Text.{Text, codes, member}
use yyou.Junit.{Testcase}
use yyou.Dict.{lookup}
use yyou.Session.{
  World, Event, sent, Action, pure, guard, attempt, when_some, ◌>>=◌, ◌>>◌, send, from_option,
  is_200_or_201,
}
use yyou.Session.Trace.{Adds, Adds-bind, Adds-pure, Adds-guard, Adds-from_option, trace}
use yyou.Session.Runs.{
  Leaves, Leaves-pure, Leaves-bind, Leaves-attempt, Leaves-when_some, Leaves-if, Leaves-send,
  Leaves-Adds, Leaves-from_option,
}
use yyou.ReportPortal.{Body, Payload, start_item, finish_item, log, Request, post, put, Args}
use yyou.ReportPortal.Launches.{created_of}
use yyou.ReportPortal.Items.{
  start_at, start_child, create_child, replace_child, write_log, write_logs, finish_child,
  finish_create_child, finish_replace_child, later_by, iso,
}
use yyou.ReportPortal.Rerun.{
  Old, Progress, advance, write_replaced, write_created, write_case, write_cases,
}

-- A log or the end of the item with the id.
pub data IsOfItem (args : Args) (id : Text) : Event Request → Type 0 where
  logs :
      (uuid time text level : Text)
      → IsOfItem args id (sent (post args.log_url (log uuid id time text level)))
  ends :
      (uuid time : Text) (status : Option Text) (issue : Bool)
      → IsOfItem args id
          (sent (put (args.item_url ++ codes "/" ++ id) (finish_item time uuid status issue)))

-- Nothing, or the start of an item under the name and then only logs and ends of one item.
pub data IsItemRun (args : Args) (container uuid name : Text) : List (Event Request) → Type 0 where
  silent : IsItemRun args container uuid name []
  started :
      (time id : Text) (es : List (Event Request))
      → All (IsOfItem args id) es
      → IsItemRun args container uuid name (
          sent (
            post
              (args.item_url ++ codes "/" ++ container)
              (start_item name time (codes "STEP") uuid))
          ∷ es)

-- The items of the cases one after the other, in the order of the cases, up to some case.
pub data IsCasesRun (args : Args) (container uuid : Text)
    : List Testcase → List (Event Request) → Type 0 where
  stop : (cs : List Testcase) → IsCasesRun args container uuid cs []
  next :
      (c : Testcase) (cs : List Testcase) (xs ys : List (Event Request))
      → IsItemRun args container uuid c.name xs
      → IsCasesRun args container uuid cs ys
      → IsCasesRun args container uuid (c ∷ cs) (xs ++ ys)

pub data IsNone : Event Request → Type 0 where

pub none-nil : (es : List (Event Request)) → All IsNone es → es ≡ []
none-nil [] a = refl
none-nil (e ∷ es) (x, a) = elim x [ ]

module _ (args : Args) (w : World Request Body) where
  finish_child-IsOfItem :
      (id uuid start finish : Text) (failures skips systemouts : List Text)
      → Adds (IsOfItem args id) (finish_child args w id uuid start finish failures skips systemouts)
  unfolding finish_child write_logs write_log
  finish_child-IsOfItem id uuid start finish [] skips systemouts =
      search (trace, logs, ends) depth 40
  finish_child-IsOfItem id uuid start finish (f ∷ fs) skips systemouts =
      search (trace, logs, ends) depth 40

  start_at-sent :
      (url : Text) (item : Payload)
      → Leaves (λ es. es ≡ sent (post url item) ∷ []) (start_at args w url item)
  unfolding start_at
  start_at-sent url item = Leaves-attempt none (
      Leaves-bind {P = λ es. es ≡ sent (post url item) ∷ []} {Q = All IsNone}
        (λ xs ys p q. rw (p, none-nil ys q) refl) tt (Leaves-send w (post url item))
        λ r. Leaves-Adds IsNone _ (search trace depth 20))

  -- The start of an item, and its end if the start has returned an id.
  item-IsItemRun :
      (container uuid name time : Text) (end : Text → Action Request Bool)
      → ((id : Text) → Adds (IsOfItem args id) (end id))
      → Leaves {0} (IsItemRun args container uuid name) (
          start_child args w container name uuid time >>= λ o.
          when_some o (pure tt) λ id. end id >> pure tt)
  unfolding start_child
  item-IsItemRun container uuid name time end is_end =
      Leaves-bind
        {P = λ es.
          es
          ≡ sent (
              post (args.item_url ++ codes "/" ++ container)
                (start_item name time (codes "STEP") uuid))
            ∷ []}
        {Q = λ es. (id : Text) × All (IsOfItem args id) es}
        (λ xs ys p q. rw p (started time q.0 ys q.1)) ([], tt)
        (start_at-sent (args.item_url ++ codes "/" ++ container)
          (start_item name time (codes "STEP") uuid))
        λ o. Leaves-when_some o (Leaves-pure tt ([], tt)) λ id. ended id
    where
      ended :
          (id : Text) → Leaves {0} (λ es. (i : Text) × All (IsOfItem args i) es) (end id >> pure tt)
      ended id =
          let a = (Adds-bind (is_end id) λ b. Adds-pure {P = IsOfItem args id} tt) in
          record { left = λ h. let (es, e, all) = a.added h in (es, e, (id, all)) }

  module _ (seconds : Text → Option ℕ) (container uuid : Text) (old : Old) where
    write_case-IsItemRun :
        (start end : ℕ) (c : Testcase)
        → Leaves
            (IsItemRun args container uuid c.name)
            (write_case args w seconds container uuid old start end c)
    unfolding write_case write_replaced write_created replace_child create_child
        finish_replace_child finish_create_child
    write_case-IsItemRun start end c =
        Leaves-if (member c.name old.should_deleted_list) (Leaves-pure tt silent) (
          Leaves-if (member c.name old.deleted_list)
            (Leaves-bind {P = λ es. es ≡ []} {Q = IsItemRun args container uuid c.name}
              (λ xs ys p q. rw p q) silent
              (Leaves-from_option (lookup c.name old.existing_case_time_map))
              λ times.
                item-IsItemRun container uuid c.name _ _
                  λ id. finish_child-IsOfItem id uuid _ _ _ _ _)
            (item-IsItemRun container uuid c.name _ _
              λ id. finish_child-IsOfItem id uuid _ _ _ _ _))

    -- Whatever the service answers, the loop over the cases writes one item after the other, at most one for
    -- each case and in their order: what is sent for a case is nothing, or the start of an item under its
    -- name, followed by logs and ends of one and the same item only.
    pub write_cases-IsCasesRun :
        (start : ℕ) (cs : List Testcase) (p : Progress)
        → Leaves
            (IsCasesRun args container uuid cs)
            (write_cases args w seconds container uuid old start cs p)
    unfolding write_cases
    write_cases-IsCasesRun start [] p = Leaves-pure (p, true) (stop [])
    write_cases-IsCasesRun start (c ∷ cs) p =
        Leaves-when_some (seconds c.time) (Leaves-pure (p, false) (stop (c ∷ cs))) λ t.
          Leaves-bind {P = IsItemRun args container uuid c.name}
            {Q = IsCasesRun args container uuid cs} (next c cs) (stop cs)
            (Leaves-attempt false (written _ _ c))
            λ b.
              Leaves-if b (write_cases-IsCasesRun start cs (advance p c t))
                (Leaves-pure (advance p c t, false) (stop cs))
      where
        written :
            (start end : ℕ) (c : Testcase)
            → Leaves
                (IsItemRun args container uuid c.name)
                (write_case args w seconds container uuid old start end c >> pure true)
        written start end c =
            Leaves-bind {P = IsItemRun args container uuid c.name} {Q = λ es. es ≡ []}
              (λ xs ys p q. rw (q, append-nil xs) p) refl (write_case-IsItemRun start end c)
              λ u. Leaves-pure true refl
