-- ===== src/ReportPortal/Rerun/Cases.antt =====
-- pipeline/reportportal.py: what `rerunResult` writes for the cases, and which of them.
use yyou.Common.{
  ℕ, ◌+◌, ◌≡◌, refl, inl, inr, Bool, true, false, ◌||◌, List, [], ◌∷◌, ◌++◌, Option, none, some,
  arith, Bool-cases, Option-cases,
}
use yyou.Text.{Text, codes, member}
use yyou.Junit.{Testcase, is_some_element}
use yyou.Dict.{lookup}
use yyou.Session.{Outcome, World, Event, sent, ok, pure, attempt, when_some}
use yyou.Session.Trace.{
  Adds, Adds-bind, Adds-pure, Adds-send, Adds-attempt, Adds-if, Adds-when_some, Adds-from_option,
  trace,
}
use yyou.Session.Steps.{bind-ok}
use yyou.ReportPortal.{Body, start_item, finish_item, log, Request, post, put, Args}
use yyou.ReportPortal.Items.{
  start_at, start_child, replace_child, create_child, write_log, write_logs, finish_child,
  finish_replace_child, finish_create_child,
}
use yyou.ReportPortal.Rerun.{
  Old, Progress, advance, write_replaced, write_created, write_case, write_cases,
}

abbrev pub ended : Progress → Bool → Outcome (Progress × Bool)
ended p completed = ok (p, completed)

-- The seconds of all cases, if all of them can be read.
unfoldable pub total_seconds : (Text → Option ℕ) → List Testcase → Option ℕ
total_seconds seconds [] = some 0
total_seconds seconds (c ∷ cs) = elim (seconds c.time) [
  | none ↦ none
  | some t ↦ elim (total_seconds seconds cs) [ none ↦ none | some n ↦ some (t + n) ]
]

pub total_seconds-cons :
    (seconds : Text → Option ℕ) (c : Testcase) (cs : List Testcase) (t n : ℕ)
    → seconds c.time ≡ some t
    → total_seconds seconds cs ≡ some n
    → total_seconds seconds (c ∷ cs) ≡ some (t + n)
unfolding total_seconds
total_seconds-cons seconds c cs t n e f = ground arith

unfoldable pub any_failed : List Testcase → Bool
any_failed [] = false
any_failed (c ∷ cs) = is_some_element c.failure || any_failed cs

-- A step or a log of a case is written, and an item is started only under the name of a case whose old
-- items are all gone.
pub data IsCaseWrite (args : Args) (old : Old) : Event Request → Type 0 where
  starts :
      (parentid name time uuid : Text)
      → member name old.should_deleted_list ≡ false
      → IsCaseWrite args old (
          sent (
            post
              (args.item_url ++ codes "/" ++ parentid)
              (start_item name time (codes "STEP") uuid)))
  logs :
      (uuid id time message level : Text)
      → IsCaseWrite args old (sent (post args.log_url (log uuid id time message level)))
  finishes :
      (id time uuid : Text) (status : Option Text) (issue : Bool)
      → IsCaseWrite args old
          (sent (put (args.item_url ++ codes "/" ++ id) (finish_item time uuid status issue)))

module _ (args : Args) (w : World Request Body) (old : Old) where
  start_child-IsCaseWrite :
      (parentid name uuid time : Text)
      → member name old.should_deleted_list ≡ false
      → Adds (IsCaseWrite args old) (start_child args w parentid name uuid time)
  unfolding start_child start_at
  start_child-IsCaseWrite parentid name uuid time gone =
      Adds-attempt none
        (Adds-bind (Adds-send w _ (starts parentid name time uuid gone)) λ r. search trace depth 12)

  write_logs-IsCaseWrite :
      (id uuid time : Text) (failures systemouts : List Text)
      → Adds (IsCaseWrite args old) (write_logs args w id uuid time failures systemouts)
  unfolding write_logs write_log
  write_logs-IsCaseWrite id uuid time [] systemouts = search (trace, logs) depth 14
  write_logs-IsCaseWrite id uuid time (f ∷ fs) systemouts = search (trace, logs) depth 14

  finish_child-IsCaseWrite :
      (id uuid start finish : Text) (failures skipped systemouts : List Text)
      → Adds
          (IsCaseWrite args old)
          (finish_child args w id uuid start finish failures skipped systemouts)
  unfolding finish_child
  finish_child-IsCaseWrite id uuid start finish failures skipped systemouts =
      search (trace, write_logs-IsCaseWrite, finishes) depth 14

module _ (args : Args) (w : World Request Body) (seconds : Text → Option ℕ) (old : Old) where
  write_case-IsCaseWrite :
      (container uuid : Text) (start end : ℕ) (c : Testcase)
      → Adds (IsCaseWrite args old) (write_case args w seconds container uuid old start end c)
  unfolding write_case write_replaced write_created replace_child create_child finish_replace_child
      finish_create_child
  write_case-IsCaseWrite container uuid start end c =
      elim (Bool-cases (member c.name old.should_deleted_list)) [
        | inl left ↦ rw left (Adds-pure tt)
        | inr gone ↦ rw gone (
            Adds-if (member c.name old.deleted_list)
              (Adds-bind (Adds-from_option (lookup c.name old.existing_case_time_map)) λ times.
                Adds-bind (start_child-IsCaseWrite args w old container c.name uuid _ gone) λ o.
                  Adds-when_some o (Adds-pure tt) λ id.
                    Adds-bind
                      (finish_child-IsCaseWrite args w old id uuid _ _ c.failure c.skipped
                        c.system_out)
                      λ b. Adds-pure tt)
              (Adds-bind (start_child-IsCaseWrite args w old container c.name uuid _ gone) λ o.
                Adds-when_some o (Adds-pure tt) λ id.
                  Adds-bind
                    (finish_child-IsCaseWrite args w old id uuid _ _ c.failure c.skipped
                      c.system_out)
                    λ b. Adds-pure tt))
      ]

  -- Whatever the service answers, the loop over the cases starts no item under the name of a case of which
  -- an old item could not be deleted, and sends nothing else but logs and ends of items.
  pub write_cases-IsCaseWrite :
      (container uuid : Text) (start : ℕ) (cs : List Testcase) (p : Progress)
      → Adds (IsCaseWrite args old) (write_cases args w seconds container uuid old start cs p)
  unfolding write_cases
  write_cases-IsCaseWrite container uuid start [] p = Adds-pure (p, true)
  write_cases-IsCaseWrite container uuid start (c ∷ cs) p =
      Adds-when_some (seconds c.time) (Adds-pure (p, false)) λ t.
        Adds-bind
          (Adds-attempt false
            (Adds-bind (write_case-IsCaseWrite container uuid _ _ c) λ u. Adds-pure true))
          λ written.
            Adds-if written (write_cases-IsCaseWrite container uuid start cs (advance p c t))
              (Adds-pure (advance p c t, false))

  -- If the loop comes to its end, the duration of the suite has grown by the seconds of all cases, and the
  -- result of the suite is a failure if it was one before or some case has failed.
  pub write_cases-total_seconds :
      (container uuid : Text) (start : ℕ) (cs : List Testcase) (p q : Progress)
      (h : List (Event Request))
      → (write_cases args w seconds container uuid old start cs p h).0 ≡ ok (q, true)
      → (n : ℕ) × (total_seconds seconds cs ≡ some n)
        × (q.suiteduration ≡ p.suiteduration + n)
        × (q.has_failed ≡ (p.has_failed || any_failed cs))
  unfolding write_cases total_seconds any_failed when_some pure
  write_cases-total_seconds container uuid start [] p q h e =
      let same : p ≡ q = cc in (0, refl, ground arith, ground arith)
  write_cases-total_seconds container uuid start (c ∷ cs) p q h e =
      elim (Option-cases (seconds c.time)) [
        | inl unread ↦ let stopped : ended p false ≡ ended q true = rw unread at e in absurd (cc)
        | inr (t, read) ↦
            let (written, _, rest, _) = bind-ok (attempt _ false) _ h (rw read at e) in
            elim (Bool-cases written) [
              | inl done ↦
                  let (n, f, g, i) =
                    write_cases-total_seconds container uuid start cs (advance p c t) q _
                      (rw done at rest) in
                  (
                    t + n,
                    total_seconds-cons seconds c cs t n read f,
                    omega (arith, g),
                    ground (arith, i),
                  )
              | inr stop ↦
                  let stopped : ended (advance p c t) false ≡ ended q true = rw stop at rest in
                  absurd (cc)
            ]
      ]
