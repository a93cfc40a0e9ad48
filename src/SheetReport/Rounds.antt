-- ===== src/SheetReport/Rounds.antt =====
-- pipeline/auto_result_tool/collect_result_to_googlesheet.py: the main part, which reports one run of
-- the job after the other and keeps the number of the last one in the configuration file.
use yyou.Common.{ℕ, zero, suc, ◌+◌, ◌||◌, Bool, true, false, Option, none, some, if◌then◌else◌}
use yyou.Text.{Text, codes, show, ◌==◌}
use yyou.Session.{World, Action, pure, attempt, ◌>>=◌}
use yyou.SheetReport.{Request, Library, Config}
use yyou.SheetReport.Write.{ginkgo_google_report}

-- The configuration file, `none` if it is empty, and the global variable `strDate`, null as long as it is
-- not bound.
pub record Run : Type 0 where
  pub file : Option Config
  pub str_date : Option Text

-- The second `with` block of a round. The file is empty once it has been opened for writing, and
-- `print(strDate)` raises where the variable is not bound.
unfoldable pub store : Config → Option Text → Run × Bool
store config none = (record { file = none; str_date = none }, false)
store config (some date) = (
  record {
    file = some (record { sheets = config.sheets; end_num = config.end_num + 1 });
    str_date = some date;
  },
  true,
)

module _ (lib : Library) (w : World Request (Unit {0})) (jobname : Text) where
  abbrev pub after_report : Run → Config → Option (Option Text) → Run × Bool
  after_report run config none = (run, false)
  after_report run config (some str_date) = store config str_date

  -- One round, with what it leaves and whether it did not raise.
  unfoldable pub round : Run → Action Request (Run × Bool)
  unfolding store show
  round run = elim run.file [
    | none ↦ pure (run, false)
    | some config ↦ do
      reported ←
          attempt
            (ginkgo_google_report lib w jobname (show (config.end_num + 1)) config run.str_date
              >>= λ d. pure (some d))
            none
      pure (after_report run config reported)
  ]

  unfoldable pub rounds : ℕ → Run → Action Request (Run × Bool)
  rounds zero run = pure (run, true)
  rounds (suc n) run = do (next, on) ← round run; if on then rounds n next else pure (next, false)

  -- The main part, with the number of rounds and the configuration file as it is found.
  unfoldable pub main : ℕ → Option Config → Action Request (Run × Bool)
  unfolding ◌==◌
  main num file =
      let run : Run = record { file = file; str_date = none } in
      if jobname == codes "ginkgo-test-vm" || jobname == codes "ginkgo-test"
      then rounds num run
      else pure (run, true)
