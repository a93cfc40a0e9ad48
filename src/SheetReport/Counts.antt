-- ===== src/SheetReport/Counts.antt =====
-- pipeline/auto_result_tool/collect_result_to_googlesheet.py: the number that the main part keeps.
use mathlib.Core.Option.{some-injective}
use yyou.Common.{
  ◌≢◌, ℕ, zero, suc, ◌+◌, ◌≡◌, ap, ◌∙◌, sym, Bool, true, false, List, Option, none, some, arith,
  Bool-cases, Option-cases, inl, inr,
}
use yyou.Text.{Text}
use yyou.Session.{World, Event, Outcome, ok, pure, attempt}
use yyou.Session.Steps.{bind-ok}
use yyou.SheetReport.{Request, Library, Config}
use yyou.SheetReport.Rounds.{Run, store, after_report, round, rounds}

false-ne-true : false ≢ true
false-ne-true e = cc

abbrev ended : Run → Bool → Outcome (Run × Bool)
ended run on = ok (run, on)

ok_pair : (a b : Run) (x y : Bool) → ended a x ≡ ended b y → (a ≡ b) × (x ≡ y)
ok_pair a b x y e = (cc, cc)

-- The number in the configuration file, where there is one.
abbrev pub number_in : Option Config → Option ℕ
number_in none = none
number_in (some config) = some config.end_num

module _ (lib : Library) (w : World Request (Unit {0})) (jobname : Text) where
  store-number :
      (run next : Run) (config : Config) (reported : Option (Option Text))
      (h : List (Event Request))
      → (pure (after_report lib w jobname run config reported) h).0 ≡ ok (next, true)
      → number_in next.file ≡ some (config.end_num + 1)
  unfolding store pure
  store-number run next config none h e = absurd (false-ne-true (ok_pair run next false true e).1)
  store-number run next config (some none) h e =
      absurd (false-ne-true (ok_pair _ next false true e).1)
  store-number run next config (some (some date)) h e =
      ap (λ (r : Run). number_in r.file) (sym (ok_pair _ next true true e).0)

  round-number :
      (run next : Run) (n : ℕ) (h : List (Event Request))
      → number_in run.file ≡ some n
      → (round lib w jobname run h).0 ≡ ok (next, true)
      → number_in next.file ≡ some (n + 1)
  unfolding round
  round-number run next n h here e = elim (Option-cases run.file) [
    | inl empty ↦ let gone : some n ≡ none = sym here ∙ ap number_in empty in absurd (cc)
    | inr (config, there) ↦
        let (reported, _, rest, _) = bind-ok (attempt _ none) _ h (rw there at e) in
        let same : config.end_num ≡ n = some-injective _ n (sym (ap number_in there) ∙ here) in
        store-number (record { file = some config; str_date = run.str_date }) next config reported _
          rest
        ∙ ap (λ m. some (m + 1)) same
  ]

  -- If all rounds come to their end, the number in the configuration file has grown by the number of
  -- rounds.
  pub rounds-number :
      (k : ℕ) (run last : Run) (n : ℕ) (h : List (Event Request))
      → number_in run.file ≡ some n
      → (rounds lib w jobname k run h).0 ≡ ok (last, true)
      → number_in last.file ≡ some (n + k)
  unfolding rounds pure
  rounds-number zero run last n h here e =
      ap (λ (r : Run). number_in r.file) (sym (ok_pair run last true true e).0)
      ∙ here
      ∙ ap some (omega arith)
  rounds-number (suc k) run last n h here e =
      let ((next, on), e1, rest, _) = bind-ok (round lib w jobname run) _ h e in
      elim (Bool-cases on) [
        | inl going ↦
            rounds-number k next last (n + 1) _
              (round-number run next n h here (e1 ∙ ap (λ b. ok (next, b)) going))
              (rw going at rest)
            ∙ ap some (omega arith)
        | inr stopped ↦ absurd (false-ne-true (ok_pair next last false true (rw stopped at rest)).1)
      ]
