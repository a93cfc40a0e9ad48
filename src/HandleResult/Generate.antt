-- ===== src/HandleResult/Generate.antt =====
-- pipeline/handleresult.py: `generateRP`. `none` is an `IndexError`, and `false` any
-- exception.
pub mod Names
use yyou.Common.Maybe.{◌>>=◌}
use yyou.Common.{
  Bool, true, false, List, [], ◌∷◌, ◌++◌, Option, none, some, get_elem?, map, if◌then◌else◌,
}
use yyou.Text.{Text, codes, contains, split, replace}
use yyou.Text.Regex.{findall, case_id}
use yyou.Junit.{Testcase, Testsuite, rename}
use yyou.HandleResult.Files.{FileEvent, text, write_document}
use yyou.HandleResult.Names.{get_author_name, plain_title, case_title, plain_name, ocp_name, last}

-- What one case leaves: the case itself, renamed, where it stays, and the copies that are added at
-- the end where it goes.
pub record Effect : Type 0 where
  pub stay : List Testcase
  pub to_be_add : List Testcase

unfoldable pub rename_case : Testcase → Text → List Text → Option Effect
unfolding plain_title case_title plain_name ocp_name last
rename_case c author [] = do
  title ← plain_title c.name
  some (record { stay = rename c (plain_name author title) ∷ []; to_be_add = [] })
rename_case c author (id ∷ []) = do
  title ← case_title c.name id
  some (record { stay = rename c (ocp_name author title id) ∷ []; to_be_add = [] })
rename_case c author (id ∷ next ∷ ids) = do
  title ← case_title c.name (last id (next ∷ ids))
  some (record {
    stay = [];
    to_be_add = map (λ i. rename c (ocp_name author title i)) (id ∷ next ∷ ids);
  })

unfoldable pub generate_case : Testcase → Option Effect
unfolding rename_case get_author_name findall case_id
generate_case c = do author ← get_author_name c.name; rename_case c author (findall case_id c.name)

-- The loop over the cases.
unfoldable pub generate_cases : List Testcase → Option Effect
unfolding generate_case
generate_cases [] = some (record { stay = []; to_be_add = [] })
generate_cases (c ∷ cs) = do
  e ← generate_case c
  es ← generate_cases cs
  some (record { stay = e.stay ++ es.stay; to_be_add = e.to_be_add ++ es.to_be_add })

-- The document, before it is written.
unfoldable pub generate_document : Testsuite → Text → Option Testsuite
unfolding generate_cases
generate_document s scenario = do
  es ← generate_cases s.cases
  some (record s { name = scenario; cases = es.stay ++ es.to_be_add })

-- The whole method: the output is opened in mode "w+".
unfoldable pub generate_rp :
    (opens : Text → Bool) → Testsuite → Text → Text → List FileEvent → Bool × List FileEvent
unfolding generate_document write_document
generate_rp opens s output scenario files = elim (generate_document s scenario) [
  | none ↦ (false, files)
  | some d ↦ write_document opens text output d files
]
