-- ===== src/SheetReport/Rows.antt =====
-- pipeline/auto_result_tool/collect_result_to_googlesheet.py: what a row of the sheet holds.
use yyou.Common.Maybe.{bind-some}
use mathlib.Core.Option.{some-injective}
use yyou.Common.{
  ◌≡◌, ap, ◌∙◌, sym, true, ◌||◌, List, [], ◌∷◌, Option, none, some, Bool-cases, Option-cases, inl,
  inr, get_elem?,
}
use yyou.Text.{Text, codes, member, ◌==◌}
use yyou.Dict.{Dict, lookup}
use yyou.Session.{
  World, Event, sent, read_clock, pure, from_option, attempt, when_some, ◌>>=◌, send, is_200,
}
use yyou.Session.Trace.{
  Adds, Adds-bind, Adds-pure, Adds-send, Adds-attempt, Adds-when_some, Adds-if, Adds-from_option,
  Adds-guard, Adds-utcnow, trace,
}
use yyou.ReportPortal.Matching.{part}
use yyou.SheetReport.{
  Request, get, open_worksheet, insert_row, update_acell, Case, Library, Config, Cells, cells,
  named_cells, author_of, departments, str_of,
}
use yyou.SheetReport.Write.{
  hyperlink, last_result, write_google_sheet, write_cases, report_console, ginkgo_google_report,
  del_last_two, set_elem, run_url,
}

named_cells-department :
    (lib : Library) (attrib : Dict Text) (name failure sysout : Text) (c : Cells)
    → named_cells lib attrib name failure sysout ≡ some c
    → member c.department departments ≡ true
unfolding named_cells
named_cells-department lib attrib name failure sysout c e =
    let (department, _, e1) = bind-some (part name (codes " ") 1) _ e in
    let (tmp_author, _, e2) = bind-some (part name (codes "Author:") 1) _ e1 in
    elim (Bool-cases (member department departments)) [
      | inl there ↦
          let (author, _, e3) = bind-some (author_of attrib tmp_author) _ (rw there at e2) in
          ap (λ (o : Cells). member o.department departments) (sym (some-injective _ c e3)) ∙ there
      | inr missing ↦ let gone : some c ≡ none = sym (rw missing at e2) in absurd (cc)
    ]

-- The cells are of a case of one of the three departments.
cells-department :
    (lib : Library) (o : Case) (c : Cells)
    → cells lib o ≡ some c
    → member c.department departments ≡ true
unfolding cells
cells-department lib o c e =
    let (first, _, e1) = bind-some (get_elem? o.texts 0) _ e in
    let (second, _, e2) = bind-some (get_elem? o.texts 1) _ e1 in
    let (name, _, e3) = bind-some (lookup (codes "name") o.attrib) _ e2 in
    elim (Bool-cases (str_of first == [] || name == [])) [
      | inl skipped ↦ let gone : some c ≡ none = sym (rw skipped at e3) in absurd (cc)
      | inr kept ↦ named_cells-department lib o.attrib name (str_of first) _ c (rw kept at e3)
    ]

-- A read of the clock or a page, the opening of a sheet, a row of ten cells with a case of one of the three
-- departments, in which the cell of the launch is still empty, or the link of the last row to the run
-- under the name of the launch.
pub data IsSheetWork (jobname run_id : Text) : Event Request → Type 0 where
  clock : IsSheetWork jobname run_id read_clock
  reads : (url : Text) → IsSheetWork jobname run_id (sent (get url))
  opens : (sheet : Text) → IsSheetWork jobname run_id (sent (open_worksheet sheet))
  inserts :
      (sheet case_id describe author department profile date failure sysout : Text)
      → member department departments ≡ true
      → IsSheetWork jobname run_id (
          sent (
            insert_row sheet (
              case_id ∷ describe ∷ author ∷ department ∷ profile ∷ [] ∷ [] ∷ date ∷ failure ∷ sysout
              ∷ [])))
  links :
      (sheet launch : Text)
      → IsSheetWork jobname run_id
          (sent (update_acell sheet (codes "F2") (hyperlink jobname run_id launch)))

module _ (lib : Library) (w : World Request (Unit {0})) (jobname run_id : Text) where
  write_row-IsSheetWork :
      (c : Cells) (profile launch date sheet : Text)
      → member c.department departments ≡ true
      → Adds (IsSheetWork jobname run_id) (
          write_google_sheet lib w jobname run_id
            (last_result c (profile ∷ launch ∷ []) date)
            sheet)
  unfolding write_google_sheet last_result set_elem
  write_row-IsSheetWork c profile launch date sheet there =
      Adds-bind (Adds-send w _ (opens sheet)) λ r.
        Adds-bind (Adds-from_option (some launch)) λ jenkins_num.
          Adds-bind
            (Adds-send w _ (
              inserts sheet c.case_id c.describe c.author c.department profile date c.failure
                c.sysout there))
            λ r'. Adds-bind (Adds-send w _ (links sheet jenkins_num)) λ r''. Adds-pure tt

  write_cases-IsSheetWork :
      (profile launch sheet : Text) (cs : List Case) (str_date : Option Text)
      → Adds
          (IsSheetWork jobname run_id)
          (write_cases lib w jobname run_id profile launch sheet cs [] str_date)
  unfolding write_cases when_some del_last_two
  write_cases-IsSheetWork profile launch sheet [] str_date = Adds-pure str_date
  write_cases-IsSheetWork profile launch sheet (o ∷ cs) str_date =
      elim (Option-cases (cells lib o)) [
        | inl skipped ↦ rw skipped (write_cases-IsSheetWork profile launch sheet cs str_date)
        | inr (c, there) ↦ rw there (
            Adds-bind (Adds-utcnow w clock) λ now.
              Adds-bind
                (Adds-attempt tt (
                  write_row-IsSheetWork c profile launch (lib.local_date now) sheet
                    (cells-department lib o c there)))
                λ u. write_cases-IsSheetWork profile launch sheet cs (some (lib.local_date now)))
      ]

  fetch-IsSheetWork :
      (url : Text)
      → Adds (IsSheetWork jobname run_id) (
          attempt
            (do r ← send w (get url); cases ← from_option (lib.parse r.text); pure (some cases))
            none)
  fetch-IsSheetWork url = search (trace, reads) depth 20

  -- Whatever Jenkins and the sheet answer, a report only reads pages and the clock, opens sheets, inserts
  -- rows of ten cells, of a case of one of the three departments and with the cell of the launch left
  -- empty, and sets the cell F2 to a link to the run.
  pub ginkgo_google_report-IsSheetWork :
      (config : Config) (str_date : Option Text)
      → Adds
          (IsSheetWork jobname run_id)
          (ginkgo_google_report lib w jobname run_id config str_date)
  unfolding ginkgo_google_report report_console
  ginkgo_google_report-IsSheetWork config str_date =
      Adds-bind (Adds-send w _ (reads (run_url lib w jobname run_id))) λ r.
        Adds-bind (Adds-guard (is_200 r)) λ u. Adds-if (_ == []) (Adds-pure str_date) (
          Adds-bind (Adds-send w _ (reads _)) λ console. Adds-bind (Adds-from_option _) λ sheet.
            Adds-if (_ == []) (Adds-pure str_date) (
              Adds-bind (fetch-IsSheetWork _) λ testsuite.
                Adds-when_some testsuite (Adds-pure str_date)
                  λ cases. write_cases-IsSheetWork _ _ sheet cases str_date))
