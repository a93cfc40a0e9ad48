-- ===== src/SheetReport/Write.antt =====
-- pipeline/auto_result_tool/collect_result_to_googlesheet.py: `write_google_sheet` and
-- `ginkgo_google_report`. The files console.html and junit_e2e.xml, through which the answers pass, are
-- left out.
use yyou.Common.{
  ℕ, zero, suc, ◌-◌, List, [], ◌∷◌, ◌++◌, Option, none, some, if◌then◌else◌, length, take,
  get_elem?,
}
use yyou.Text.{Text, codes, join, ◌==◌}
use yyou.Session.{
  World, Action, pure, guard, from_option, attempt, when_some, ◌>>=◌, ◌>>◌, send, utcnow, is_200,
}
use yyou.SheetReport.{
  Request, get, open_worksheet, insert_row, update_acell, Case, Library, Config, which_sheet, Cells,
  cells,
}

-- `result_list[i] = value`, of an index in the list
unfoldable pub set_elem : ℕ → Text → List Text → List Text
set_elem i value [] = []
set_elem zero value (x ∷ xs) = value ∷ xs
set_elem (suc i) value (x ∷ xs) = x ∷ set_elem i value xs

-- `del xs[-2:]`
unfoldable pub del_last_two : List Text → List Text
del_last_two xs = take (length xs - 2) xs

abbrev pub jenkins : Text
jenkins =
    codes
      "https://mastern-jenkins-csb-openshift-qe.apps.ocp4.prod.psi.redhat.com/job/ocp-common/job/"

-- The value of the cell F2.
unfoldable pub hyperlink : (jobname run_id jenkins_num : Text) → Text
hyperlink jobname run_id jenkins_num =
    codes "=HYPERLINK(CONCATENATE(\""
    ++ jenkins
    ++ codes "\",\""
    ++ jobname
    ++ codes "\",\"/\","
    ++ run_id
    ++ codes ",\"/testReport/\"),\""
    ++ jenkins_num
    ++ codes "\")"

-- The patterns of `ginkgo_google_report`.
abbrev pub build_version_pattern : Text
build_version_pattern =
    codes
      "<span class=\"timestamp\"><b>.*?</b> </span><span style=\"display: none\">.*?]</span> build_version: \"(.*?)\""

abbrev pub launch_name_pattern : Text
launch_name_pattern =
    codes
      "<span class=\"timestamp\"><b>.*?</b> </span><span style=\"display: none\">.*?</span> LAUNCH_NAME=(.*)"

abbrev pub profile_name_pattern : Text
profile_name_pattern =
    codes
      "<span class=\"timestamp\"><b>.*?</b> </span><span style=\"display: none\">.*?]</span> PROFILE_NAME=(.*)"

abbrev pub xml_filename_pattern : Text
xml_filename_pattern =
    codes
      "</td><td><a href=\"artifact/private/(.*?)\">junit_e2e_.*?.xml</a></td><td class=\"fileSize\">"

-- `last_result`
unfoldable pub last_result : Cells → (jenkins_result : List Text) → (date : Text) → List Text
last_result c jenkins_result date =
    (c.case_id ∷ c.describe ∷ c.author ∷ c.department ∷ [])
    ++ (jenkins_result ++ (([] ∷ date ∷ []) ++ (c.failure ∷ c.sysout ∷ [])))

module _ (lib : Library) (w : World Request (Unit {0})) (jobname run_id : Text) where
  unfoldable pub write_google_sheet : List Text → Text → Action Request (Unit {0})
  unfolding set_elem hyperlink
  write_google_sheet result_list sheet_name = do
    send w (open_worksheet sheet_name)
    jenkins_num ← from_option (get_elem? result_list 5)
    send w (insert_row sheet_name (set_elem 5 [] result_list))
    send w (update_acell sheet_name (codes "F2") (hyperlink jobname run_id jenkins_num))
    pure tt

  -- The loop over the cases, with `jenkins_result` and `strDate`.
  unfoldable pub write_cases :
      (profile launch sheet_name : Text)
      → List Case
      → (jenkins_result : List Text) → (str_date : Option Text) → Action Request (Option Text)
  unfolding cells last_result del_last_two
  write_cases profile launch sheet_name [] jenkins_result str_date = pure str_date
  write_cases profile launch sheet_name (c ∷ cs) jenkins_result str_date =
      when_some (cells lib c) (write_cases profile launch sheet_name cs jenkins_result str_date)
        λ o. do
          now ← utcnow w
          let date : Text = lib.local_date now
          let added : List Text = jenkins_result ++ (profile ∷ launch ∷ [])
          attempt (write_google_sheet (last_result o added date) sheet_name) tt
          write_cases profile launch sheet_name cs (del_last_two added) (some date)

  abbrev pub run_url : Text
  run_url = jenkins ++ jobname ++ codes "/" ++ run_id

  abbrev pub joined : Text → Text → Text
  joined pattern text = join [] (lib.findall pattern text)

  -- The part behind the console.
  unfoldable pub report_console :
      Config → (xml_filename console : Text) → Option Text → Action Request (Option Text)
  report_console config xml_filename console str_date = do
    let build_version : Text = joined build_version_pattern console
    let launch_name : Text = joined launch_name_pattern console
    let profile_name : Text = joined profile_name_pattern console
    sheet_name ← from_option (which_sheet config build_version)
    if launch_name == [] then pure str_date else do
      testsuite ←
          attempt
            (do
              r ← send w (get (run_url ++ codes "/artifact/private/" ++ xml_filename))
              cases ← from_option (lib.parse r.text)
              pure (some cases))
            none
      when_some testsuite (pure str_date)
          λ cases. write_cases (lib.unescape profile_name) launch_name sheet_name cases [] str_date

  -- `xml_filename` is not bound where the answer is not 200. The result is `strDate`, null as long as it is
  -- not bound.
  unfoldable pub ginkgo_google_report : Config → Option Text → Action Request (Option Text)
  ginkgo_google_report config str_date = do
    r ← send w (get run_url)
    guard (is_200 r)
    let xml_filename : Text = joined xml_filename_pattern (lib.file_list r.text)
    if xml_filename == [] then pure str_date else do
      console ← send w (get (run_url ++ codes "/consoleFull"))
      report_console config xml_filename console.text str_date
