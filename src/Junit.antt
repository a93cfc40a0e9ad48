-- ===== src/Junit.antt =====
-- A JUnit file as the scripts read it by `xml.dom.minidom`: one `testsuite` element at the root, with
-- the `testcase` elements as its children.
use yyou.Common.{Bool, true, false, List, [], ◌∷◌, Option}
use yyou.Common.Int.{ℤ}
use yyou.Text.{Text}

-- A `testcase` element: the attributes that are read, and the texts of the child elements by tag.
pub record Testcase : Type 0 where
  pub name : Text
  pub time : Text
  pub failure : List Text
  pub skipped : List Text
  pub system_out : List Text

-- A numeric attribute is the number that `int` reads in it, and `none` where `int` raises.
pub record Testsuite : Type 0 where
  pub name : Text
  pub time : Text
  pub tests : Option ℤ
  pub failures : Option ℤ
  pub skipped : Option ℤ
  pub errors : Option ℤ
  pub cases : List Testcase

-- `len(elements) != 0`
abbrev pub is_some_element : List Text → Bool
is_some_element [] = false
is_some_element (x ∷ xs) = true

-- `case.setAttribute("name", name)`
abbrev pub rename : Testcase → Text → Testcase
rename c name = record c { name = name }
