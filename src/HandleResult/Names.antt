-- ===== src/HandleResult/Names.antt =====
-- pipeline/handleresult.py: `getAuthorName` and `getNames`. `none` is an `IndexError`.
pub mod Laws
use yyou.Common.Maybe.{◌>>=◌}
use yyou.Common.{
  ℕ, zero, suc, Bool, true, false, List, [], ◌∷◌, ◌++◌, Option, none, some, if◌then◌else◌,
  get_elem?, map, ◌≡◌, refl,
}
use yyou.Text.{Text, codes, contains, split, replace, second_last}
use yyou.Text.Regex.{findall, author_tag, case_id}

-- `s[:-1]`
unfoldable pub init : Text → Text
init [] = []
init (c ∷ []) = []
init (c ∷ d ∷ s) = c ∷ init (d ∷ s)

-- `xs[-1]` of a list that is not empty
unfoldable pub last : Text → List Text → Text
last x [] = x
last x (y ∷ ys) = last y ys

abbrev pub suite_tag : Text
suite_tag = codes "[Suite:openshift/"

abbrev pub quote : Text
quote = codes "'"

unfoldable pub get_author_name : Text → Option Text
unfolding findall author_tag init split
get_author_name name = elim (findall author_tag name) [
  | [] ↦ some (codes "unknown")
  | tag ∷ tags ↦ get_elem? (split (init tag) (codes ":")) 1
]

-- The title of a case with no id.
unfoldable pub plain_title : Text → Option Text
unfolding contains split replace second_last
plain_title name =
    let tmpname = replace name quote [] in
    if contains suite_tag tmpname then second_last (split tmpname suite_tag) else some tmpname

-- The title behind the last id.
unfoldable pub case_title : Text → Text → Option Text
unfolding contains split replace
case_title name id = elim (get_elem? (split name id) 1) [
  | none ↦ none
  | some rest ↦
      let casetitle = replace rest quote [] in
      if contains suite_tag casetitle
      then get_elem? (split casetitle suite_tag) 0
      else some casetitle
]

unfoldable pub plain_name : Text → Text → Text
plain_name author title = codes "No-CASEID:" ++ author ++ codes ":" ++ title

unfoldable pub ocp_name : Text → Text → Text → Text
unfolding init
ocp_name author title id = codes "OCP-" ++ init id ++ codes ":" ++ author ++ codes ":" ++ title

unfoldable pub names_for : Text → Text → List Text → Option (List Text)
unfolding plain_title case_title plain_name ocp_name last
names_for name author [] = do title ← plain_title name; some (plain_name author title ∷ [])
names_for name author (id ∷ ids) = do
  title ← case_title name (last id ids)
  some (map (ocp_name author title) (id ∷ ids))

unfoldable pub get_names : Text → Option (List Text)
unfolding get_author_name names_for findall case_id
get_names name = do author ← get_author_name name; names_for name author (findall case_id name)
