-- ===== src/SheetReport/Lost.antt =====
-- pipeline/auto_result_tool/collect_result_to_googlesheet.py: a run of the job with nothing to report.
use yyou.Common.{◌≡◌, refl, ◌+◌, ℕ, suc, true, false, List, [], ◌∷◌, ◌++◌, none, some, All}
use yyou.Text.{Text, codes, show, ◌==◌}
use yyou.Session.{
  World, Event, sent, Response, ok, pure, guard, from_option, attempt, when_some, ◌>>=◌, send,
  is_200,
}
use yyou.SheetReport.{Request, get, Case, Library, Config, which_sheet, cells}
use yyou.SheetReport.Write.{
  write_cases, report_console, ginkgo_google_report, run_url, joined, build_version_pattern,
  launch_name_pattern, xml_filename_pattern,
}
use yyou.SheetReport.Rounds.{store, round, rounds}

module _ (lib : Library) (w : World Request (Unit {0})) (jobname run_id : Text) where
  abbrev found_in : (pattern : Text) → Text → Text
  found_in pattern text = joined lib w jobname run_id pattern text

  abbrev page_url : Text
  page_url = run_url lib w jobname run_id

  abbrev xml_filename : Response (Unit {0}) → Text
  xml_filename page = found_in xml_filename_pattern (lib.file_list page.text)

  abbrev file_url : Response (Unit {0}) → Text
  file_url page = page_url ++ codes "/artifact/private/" ++ xml_filename page

  abbrev after_page : List (Event Request) → List (Event Request)
  after_page h = h ++ (sent (get page_url) ∷ [])

  abbrev after_console : List (Event Request) → List (Event Request)
  after_console h = after_page h ++ (sent (get (page_url ++ codes "/consoleFull")) ∷ [])

  -- The three reads of a report.
  abbrev pub reads : Response (Unit {0}) → List (Event Request) → List (Event Request)
  reads page h = after_console h ++ (sent (get (file_url page)) ∷ [])

  -- The service has a page, a console and a file of results for the run, and no case of the file gives a
  -- row, as where all have passed.
  pub record IsUnreported (config : Config) (h : List (Event Request)) : Type 0 where
    pub page : Response (Unit {0})
    pub console : Response (Unit {0})
    pub file : Response (Unit {0})
    pub sheet_name : Text
    pub cases : List Case
    pub page_answer : w.respond h (get page_url) ≡ ok page
    pub accepted : is_200 page ≡ true
    pub has_file : (xml_filename page == []) ≡ false
    pub console_answer :
        w.respond (after_page h) (get (page_url ++ codes "/consoleFull")) ≡ ok console
    pub sheet : which_sheet config (found_in build_version_pattern console.text) ≡ some sheet_name
    pub has_launch : (found_in launch_name_pattern console.text == []) ≡ false
    pub file_answer : w.respond (after_console h) (get (file_url page)) ≡ ok file
    pub parsed : lib.parse file.text ≡ some cases
    pub passed_over : All (λ c. cells lib c ≡ none) cases

  write_cases-none :
      (profile launch sheet_name : Text) (cs : List Case) (xs : List Text)
      (h : List (Event Request))
      → All (λ c. cells lib c ≡ none) cs
      → write_cases lib w jobname run_id profile launch sheet_name cs xs none h ≡ (ok none, h)
  unfolding write_cases when_some pure
  write_cases-none profile launch sheet_name [] xs h all = refl
  write_cases-none profile launch sheet_name (c ∷ cs) xs h (e, all) =
      rw e (write_cases-none profile launch sheet_name cs xs h all)

  report_console-none :
      (config : Config) (h : List (Event Request)) (u : IsUnreported config h)
      → report_console lib w jobname run_id config
          (xml_filename u.page)
          u.console.text
          none
          (after_console h)
        ≡ (ok none, reads u.page h)
  unfolding report_console attempt ◌>>=◌ send from_option when_some pure
  report_console-none config h u =
      rw (u.sheet, u.has_launch, u.file_answer, u.parsed)
        (write_cases-none _ _ _ u.cases [] (reads u.page h) u.passed_over)

  ginkgo_google_report-none :
      (config : Config) (h : List (Event Request)) (u : IsUnreported config h)
      → ginkgo_google_report lib w jobname run_id config none h ≡ (ok none, reads u.page h)
  unfolding ginkgo_google_report ◌>>=◌ send guard pure
  ginkgo_google_report-none config h u =
      rw (u.page_answer, u.accepted, u.has_file, u.console_answer) (report_console-none config h u)

module _ (lib : Library) (w : World Request (Unit {0})) (jobname : Text) where
  -- If the service has the page, the console and the results of the first run to be reported, with a sheet
  -- and a launch, and no case of it gives a row, as where all its cases have passed, the configuration
  -- file is left empty and no other round follows, however many were asked for: these three are read and
  -- nothing else is sent.
  pub rounds_lose_config :
      (k : ℕ) (config : Config) (h : List (Event Request))
      (u : IsUnreported lib w jobname (show (config.end_num + 1)) config h)
      → rounds lib w jobname (suc k) (record { file = some config; str_date = none }) h ≡ (
        ok (record { file = none; str_date = none }, false),
        reads lib w jobname (show (config.end_num + 1)) u.page h,
      )
  unfolding rounds round store ◌>>=◌ attempt pure
  rounds_lose_config k config h u =
      rw (ginkgo_google_report-none lib w jobname (show (config.end_num + 1)) config h u) refl
