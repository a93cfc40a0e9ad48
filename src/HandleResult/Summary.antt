-- ===== src/HandleResult/Summary.antt =====
-- pipeline/handleresult.py: `pirntResult`. `none` is an `IndexError`.
pub mod Merging
use yyou.Common.Maybe.{◌>>=◌}
use yyou.Common.{
  ℕ, zero, suc, Bool, true, false, ◌&&◌, ◌||◌, List, [], ◌∷◌, ◌++◌, Option, none, some,
  if◌then◌else◌, ltb, get_elem?, ◌==◌ as nat_eq,
}
use yyou.Text.{Text, codes, contains, split, replace, second_last}
use yyou.Text.Regex.{findall, case_id}
use yyou.Dict.{Dict, lookup, insert, keys}
use yyou.Junit.{Testcase, is_some_element}
use yyou.HandleResult.Names.{get_author_name, plain_title, init, last, suite_tag, quote}
use yyou.HandleResult.Monitor.{is_monitor}

pub data Result : Type 0 where
  pass skip fail : Result

pub record Entry : Type 0 where
  pub result : Result
  pub title : Text
  pub author : Text

abbrev pub is_fail : Result → Bool
is_fail fail = true
is_fail _ = false

abbrev pub is_pass : Result → Bool
is_pass pass = true
is_pass _ = false

abbrev pub is_skip : Result → Bool
is_skip skip = true
is_skip _ = false

abbrev pub result_of : Testcase → Result
result_of c =
    if is_some_element c.failure then fail else if is_some_element c.skipped then skip else pass

-- The variables `result` and `casetitle`, which one round of the loop over the ids hands to the next.
pub record Found : Type 0 where
  pub result : Result
  pub casetitle : Text

-- The two tests on an entry that is there already.
unfoldable pub merge : Option Entry → Found → Found
merge none f = f
merge (some old) f =
    let g : Found =
      if is_fail old.result then record { result = old.result; casetitle = old.title } else f in
    if is_pass old.result && is_skip g.result
    then record { result = old.result; casetitle = old.title }
    else g

abbrev pub ocp_key : Text → Text
ocp_key id = codes "OCP-" ++ init id

-- The loop over the ids.
unfoldable pub record_ids : Text → List Text → Found → Dict Entry → Dict Entry
unfolding merge insert lookup init replace
record_ids author [] f summary = summary
record_ids author (id ∷ ids) f summary =
    let g = merge (lookup (ocp_key id) summary) f in
    record_ids author ids g (
      insert (ocp_key id)
        (record { result = g.result; title = replace g.casetitle quote []; author = author })
        summary)

-- The title behind the last id, here with its quotes.
unfoldable pub raw_title : Text → Text → Option Text
unfolding contains split
raw_title name id = elim (get_elem? (split name id) 1) [
  | none ↦ none
  | some casetitle ↦
      if contains suite_tag casetitle
      then get_elem? (split casetitle suite_tag) 0
      else some casetitle
]

abbrev pub plain_key : Text → Text → Text
plain_key author title = codes "No-CASEID Author:" ++ (author ++ (codes " " ++ title))

unfoldable pub record_case : Testcase → Text → List Text → Dict Entry → Option (Dict Entry)
unfolding record_ids raw_title plain_title insert last
record_case c author [] summary = do
  title ← plain_title c.name
  some (
      insert (plain_key author title) (record { result = result_of c; title = []; author = [] })
        summary)
record_case c author (id ∷ ids) summary = do
  casetitle ← raw_title c.name (last id ids)
  some (
      record_ids author (id ∷ ids) (record { result = result_of c; casetitle = casetitle }) summary)

-- One round of the loop over the cases.
unfoldable pub summarize_case : Testcase → Dict Entry → Option (Dict Entry)
unfolding record_case get_author_name findall case_id is_monitor
summarize_case c summary =
    let rest =
      get_author_name c.name
      >>= (λ author. record_case c author (findall case_id c.name) summary) in
    if is_monitor c then some summary else rest

unfoldable pub summarize : List Testcase → Dict Entry → Option (Dict Entry)
unfolding summarize_case
summarize [] summary = some summary
summarize (c ∷ cs) summary = do next ← summarize_case c summary; summarize cs next

-- `sorted` on texts, by code points.
unfoldable pub precedes : Text → Text → Bool
precedes [] t = true
precedes (c ∷ s) [] = false
precedes (c ∷ s) (d ∷ t) = ltb c d || nat_eq c d && precedes s t

unfoldable pub insert_sorted : Text → List Text → List Text
unfolding precedes
insert_sorted x [] = x ∷ []
insert_sorted x (y ∷ ys) = if precedes x y then x ∷ y ∷ ys else y ∷ insert_sorted x ys

unfoldable pub sort : List Text → List Text
unfolding insert_sorted
sort [] = []
sort (x ∷ xs) = insert_sorted x (sort xs)

abbrev pub result_text : Result → Text
result_text pass = codes "PASS"
result_text skip = codes "SKIP"
result_text fail = codes "FAIL"

-- The lines of the report. Each ends in a backslash and an `n`, as the script writes it.
unfoldable pub line : Text → Entry → Text
unfolding replace
line k e =
    codes " "
    ++ result_text e.result
    ++ codes "  "
    ++ replace k quote []
    ++ codes "  Author:"
    ++ e.author
    ++ codes "  "
    ++ e.title
    ++ codes "\\n"

unfoldable pub lines : List Text → Dict Entry → Text
unfolding line lookup
lines [] summary = []
lines (k ∷ ks) summary = elim (lookup k summary) [
  | none ↦ lines ks summary
  | some e ↦ line k e ++ lines ks summary
]

-- The text that is printed.
unfoldable pub pirnt_result : List Testcase → Option Text
unfolding summarize lines sort keys
pirnt_result cases = do summary ← summarize cases []; some (lines (sort (keys summary)) summary)
