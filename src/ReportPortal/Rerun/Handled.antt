-- ===== src/ReportPortal/Rerun/Handled.antt =====
-- pipeline/reportportal.py: how far the loop of `rerunResult` over the cases has come, also where it does
-- not come to its end.
use yyou.Common.{
  ℕ, ◌+◌, ◌≡◌, refl, ap, inl, inr, ◌⊎◌, Bool, true, false, ◌||◌, List, [], ◌∷◌, ◌++◌, Option, some,
  arith, Bool-cases, Option-cases, subst,
}
use yyou.Text.{Text}
use yyou.Junit.{Testcase}
use yyou.Session.{World, Event, ok, pure, attempt, when_some}
use yyou.Session.Steps.{bind-ok}
use yyou.ReportPortal.{Body, Request, Args}
use yyou.ReportPortal.Rerun.{Old, Progress, advance, write_cases}
use yyou.ReportPortal.Rerun.Cases.{total_seconds, total_seconds-cons, any_failed, ended}

-- From `p`, the loop has handled the first of the cases and is at `q`. At its end no case is left.
pub record IsAfter (seconds : Text → Option ℕ) (cs : List Testcase) (p q : Progress)
    (completed : Bool) : Type 0 where
  pub handled : List Testcase
  pub rest : List Testcase
  pub all : cs ≡ handled ++ rest
  pub n : ℕ
  pub read : total_seconds seconds handled ≡ some n
  pub duration : q.suiteduration ≡ p.suiteduration + n
  pub failed : q.has_failed ≡ (p.has_failed || any_failed handled)
  pub end : (completed ≡ false) ⊎ (rest ≡ [])

module _ (seconds : Text → Option ℕ) where
  none_handled : (cs : List Testcase) (p : Progress) → IsAfter seconds cs p p false
  unfolding total_seconds any_failed
  none_handled cs p = record {
    handled = [];
    rest = cs;
    all = refl;
    n = 0;
    read = refl;
    duration = omega arith;
    failed = ground arith;
    end = inl refl;
  }

  all_handled : (p : Progress) → IsAfter seconds [] p p true
  unfolding total_seconds any_failed
  all_handled p = record {
    handled = [];
    rest = [];
    all = refl;
    n = 0;
    read = refl;
    duration = omega arith;
    failed = ground arith;
    end = inr refl;
  }

  one_more :
      (c : Testcase) (cs : List Testcase) (p q : Progress) (t : ℕ) (completed : Bool)
      → seconds c.time ≡ some t
      → IsAfter seconds cs (advance p c t) q completed
      → IsAfter seconds (c ∷ cs) p q completed
  unfolding any_failed
  one_more c cs p q t completed e a = record {
    handled = c ∷ a.handled;
    rest = a.rest;
    all = ap (◌∷◌ c) a.all;
    n = t + a.n;
    read = total_seconds-cons seconds c a.handled t a.n e a.read;
    duration = omega (arith, a.duration);
    failed = ground (arith, a.failed);
    end = a.end;
  }

  outcome-IsAfter :
      (cs : List Testcase) (p q r : Progress) (x completed : Bool)
      → IsAfter seconds cs r p x
      → ended p x ≡ ended q completed
      → IsAfter seconds cs r q completed
  outcome-IsAfter cs p q r x completed a e =
      let last : p ≡ q = cc in
      let flag : x ≡ completed = cc in
      subst (λ b. IsAfter seconds cs r q b) flag (subst (λ z. IsAfter seconds cs r z x) last a)

module _ (args : Args) (w : World Request Body) (seconds : Text → Option ℕ) (old : Old) where
  pub write_cases-IsAfter :
      (container uuid : Text) (start : ℕ) (cs : List Testcase) (p q : Progress) (completed : Bool)
      (h : List (Event Request))
      → (write_cases args w seconds container uuid old start cs p h).0 ≡ ok (q, completed)
      → IsAfter seconds cs p q completed
  unfolding write_cases when_some pure
  write_cases-IsAfter container uuid start [] p q completed h e =
      outcome-IsAfter seconds [] p q p true completed (all_handled seconds p) e
  write_cases-IsAfter container uuid start (c ∷ cs) p q completed h e =
      elim (Option-cases (seconds c.time)) [
        | inl unread ↦
            outcome-IsAfter seconds (c ∷ cs) p q p false completed (none_handled seconds (c ∷ cs) p)
              (rw unread at e)
        | inr (t, read) ↦
            let (written, _, rest, _) = bind-ok (attempt _ false) _ h (rw read at e) in
            one_more seconds c cs p q t completed read (elim (Bool-cases written) [
              | inl done ↦
                  write_cases-IsAfter container uuid start cs (advance p c t) q completed _
                    (rw done at rest)
              | inr stop ↦
                  outcome-IsAfter seconds cs (advance p c t) q (advance p c t) false completed
                    (none_handled seconds cs (advance p c t)) (rw stop at rest)
            ])
      ]
