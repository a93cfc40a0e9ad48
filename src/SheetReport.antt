-- ===== src/SheetReport.antt =====
-- pipeline/auto_result_tool/collect_result_to_googlesheet.py: the failed cases of the runs of a job are
-- written to a sheet. The types, the cells of a case and `which_sheet`. The engine of `re`, bs4, the
-- parser of XML, `unescape` and the local time are parameters.
pub mod Write
pub mod Rows
pub mod Rounds
pub mod Counts
pub mod Lost
mod Tests
use yyou.Common.Maybe.{◌>>=◌ as ◌>>=?◌}
use yyou.Common.{
  ℕ, ◌-◌, ◌||◌, Bool, true, false, List, [], ◌∷◌, ◌++◌, Option, none, some, if◌then◌else◌, ltb,
  length, take, get_elem?,
}
use yyou.Text.{Text, codes, join, split, member, ◌==◌}
use yyou.Dict.{Dict, lookup}
use yyou.Datetime.{Datetime}
use yyou.ReportPortal.Matching.{part}

-- `open_worksheet` stands for the calls of gspread up to the worksheet.
pub data Request : Type 0 where
  get : (url : Text) → Request
  open_worksheet : (sheet_name : Text) → Request
  insert_row : (sheet_name : Text) (cells : List Text) → Request
  update_acell : (sheet_name label value : Text) → Request

-- A child of the root of the XML file: its attributes and the texts of its children.
pub record Case : Type 0 where
  pub attrib : Dict Text
  pub texts : List (Option Text)

-- `re.findall(pattern, text)`, the part of a page that bs4 finds, `unescape`, the parser of XML, `none`
-- where it raises, and the local date of a time.
pub record Library : Type 0 where
  pub findall : (pattern text : Text) → List Text
  pub file_list : Text → Text
  pub unescape : Text → Text
  pub parse : Text → Option (List Case)
  pub local_date : Datetime → Text

-- `Config[Jobname]`
pub record Config : Type 0 where
  pub sheets : List Text
  pub end_num : ℕ

-- `xs[-k]`. `none` is an `IndexError`.
unfoldable pub from_end : ℕ → List Text → Option Text
from_end k xs = if ltb (length xs) k then none else get_elem? xs (length xs - k)

unfoldable pub which_sheet : Config → Text → Option Text
unfolding from_end ◌==◌
which_sheet config build_version =
    if build_version == codes "4_9"
    then from_end 1 config.sheets
    else if build_version == codes "4_8"
    then from_end 2 config.sheets
    else if build_version == codes "4_7"
    then from_end 3 config.sheets
    else if build_version == codes "4_6"
    then from_end 4 config.sheets
    else if build_version == codes "4_5"
    then from_end 5 config.sheets
    else some (codes "v4.5before_vm")

-- `str(text)`, where the text may be null
abbrev pub str_of : Option Text → Text
str_of none = codes "None"
str_of (some t) = t

-- `testcase_info_dict['author']`. `none` is an exception.
unfoldable pub author_of : Dict Text → Text → Option Text
unfolding lookup split
author_of attrib [] = lookup (codes "author") attrib
author_of attrib (c ∷ s) = part (c ∷ s) (codes "-") 0

abbrev pub departments : List Text
departments = codes "OLM" ∷ codes "Operator_SDK" ∷ codes "Image_Registry" ∷ []

-- What a row says of a case.
pub record Cells : Type 0 where
  pub case_id : Text
  pub describe : Text
  pub author : Text
  pub department : Text
  pub failure : Text
  pub sysout : Text

module _ (lib : Library) where
  -- The part for a case with a name.
  unfoldable pub named_cells : Dict Text → (name failure sysout : Text) → Option Cells
  unfolding author_of member join split
  named_cells attrib name failure sysout = ◌>>=?◌ (part name (codes " ") 1) λ department.
      ◌>>=?◌ (part name (codes "Author:") 1) λ tmp_author.
        if member department departments
        then ◌>>=?◌ (author_of attrib tmp_author) (λ author. some (record {
          case_id = join [] (lib.findall (codes "\\]\\s.*?Author:.*?-(\\d{5})-.*?") name);
          describe = join [] (lib.findall (codes "\\]\\s.*?Author:.*?-\\d{5}-(.*?)\\s\\[.*?") name);
          author = author;
          department = department;
          failure = failure;
          sysout = sysout;
        }))
        else none

  -- The cells of a case; `none` is a case that is passed over, with an exception or without.
  unfoldable pub cells : Case → Option Cells
  unfolding named_cells lookup ◌==◌
  cells c = ◌>>=?◌ (get_elem? c.texts 0) λ first. ◌>>=?◌ (get_elem? c.texts 1) λ second.
      ◌>>=?◌ (lookup (codes "name") c.attrib) λ name.
        if str_of first == [] || name == []
        then none
        else named_cells c.attrib name (str_of first) (take 50_000 (str_of second))
