-- ===== src/SlackReport/Collect.antt =====
-- pipeline/auto_result_tool/collect_result_to_slack.py: `getFailCaseID` and `collectResult`.
use yyou.Common.Maybe.{◌>>=◌ as ◌>>=?◌}
use yyou.Common.{
  ℕ, Bool, true, false, ◌||◌, List, [], ◌∷◌, ◌++◌, Option, none, some, if◌then◌else◌, drop,
}
use yyou.Text.{Text, codes, split, join, show, member, ◌==◌}
use yyou.Text.Regex.{findall, ocp_id}
use yyou.Dict.{lookup}
use yyou.Session.{World, Action, pure, guard, from_option, attempt, ◌>>=◌, ◌>>◌, send, is_200}
use yyou.ReportPortal.{Item}
use yyou.ReportPortal.Matching.{part}
use yyou.SlackReport.{Body, launches, items, other, Request, get, Args, is_all}
use yyou.SlackReport.Launches.{Tally, Info, Launchs, get_launch_id_with_launch_name}

abbrev pub items_of : Body → Option (List Item)
items_of (items is) = some is
items_of (launches ls) = none
items_of other = none

-- `caseids[0][4:] + "-" + caseAuthor`. `none` is an `IndexError`.
unfoldable pub case_of : Text → List Text → Option (List Text)
unfolding split
case_of name [] = some []
case_of name (id ∷ more) =
    ◌>>=?◌ (part name (codes ":") 1) (λ author. some ((drop 4 id ++ codes "-" ++ author) ∷ []))

unfoldable pub case_list : List Item → Option (List Text)
unfolding case_of findall ocp_id ◌==◌
case_list [] = some []
case_list (i ∷ is) =
    let here = case_of i.name (findall ocp_id i.name) in
    ◌>>=?◌ (if i.type == codes "STEP" then here else some [])
      λ cs. ◌>>=?◌ (case_list is) λ rest. some (cs ++ rest)

abbrev joined : List Text → Option Text
joined [] = none
joined (c ∷ cs) = some (join (codes "|") (c ∷ cs))

unfoldable pub answer_of : List Item → Option Text
unfolding case_list join
answer_of [] = some (codes "No fail case")
answer_of (i ∷ is) = ◌>>=?◌ (case_list (i ∷ is)) joined

-- The result of one subteam in a test run.
pub record CaseResult : Type 0 where
  pub launch_id : ℕ
  pub faild_case : Option Text
  pub counts : Tally

-- A test run. Values may be null, and so may be the names of test runs and subteams.
pub record Testrun : Type 0 where
  pub profilename : Option Text
  pub build_version : Option Text
  pub gbuildnum : Option Text
  pub case_result : List (Option Text × CaseResult)

unfoldable pub same_key : Option Text → Option Text → Bool
unfolding ◌==◌
same_key none none = true
same_key none (some t) = false
same_key (some s) none = false
same_key (some s) (some t) = s == t

module _ {V : Type 0} where
  unfoldable pub find : Option Text → List (Option Text × V) → Option V
  unfolding same_key
  find k [] = none
  find k ((j, v) ∷ d) = let rest = find k d in if same_key j k then some v else rest

  unfoldable pub put_value : Option Text → V → List (Option Text × V) → List (Option Text × V)
  unfolding same_key
  put_value k v [] = (k, v) ∷ []
  put_value k v ((j, w) ∷ d) =
      let rest = put_value k v d in if same_key j k then (j, v) ∷ d else (j, w) ∷ rest

abbrev pub Result : Type 0
Result = List (Option Text × Testrun)

-- `result[testrunName]`, made from the launch if it is new. `none` is a `KeyError`.
unfoldable pub testrun_of : Option Text → Info → Result → Option Testrun
unfolding find lookup
testrun_of name info result = elim (find name result) [
  | some t ↦ some t
  | none ↦ ◌>>=?◌ (lookup (codes "profilename") info.entries) λ profile.
      ◌>>=?◌ (lookup (codes "build_version") info.entries) λ build.
        ◌>>=?◌ (lookup (codes "gbuildnum") info.entries) λ number. some (record {
          profilename = profile;
          build_version = build;
          gbuildnum = number;
          case_result = [];
        })
]

unfoldable pub with_case : Option Text → CaseResult → Testrun → Testrun
unfolding put_value
with_case team c t = record {
  profilename = t.profilename;
  build_version = t.build_version;
  gbuildnum = t.gbuildnum;
  case_result = put_value team c t.case_result;
}

-- `teamName in self.subteam.split(":") or self.subteam.lower() == "all"`
unfoldable pub is_wanted : Text → Option Text → Bool
unfolding member split is_all
is_wanted subteam none = is_all subteam
is_wanted subteam (some team) = member team (split subteam (codes ":")) || is_all subteam

module _ (args : Args) (w : World Request Body) where
  -- `None` is returned after an exception.
  unfoldable pub get_fail_case_id : ℕ → Action Request (Option Text)
  unfolding answer_of
  get_fail_case_id launch_id =
      attempt
        (do
          r ← send w (
              get (
                args.item_url
                ++ codes "?filter.eq.launchId="
                ++ show launch_id
                ++ codes "&filter.eq.status=FAILED&isLatest=false&launchesLimit=0&page.size=150"))
          guard (is_200 r)
          content ← from_option (items_of r.json)
          answer ← from_option (answer_of content)
          pure (some answer))
        none

  unfoldable pub collect_launch : Option Text → ℕ → Info → Result → Action Request Result
  unfolding testrun_of with_case put_value lookup
  collect_launch team launch_id info result = do
    name ← from_option (lookup (codes "name") info.entries)
    testrun ← from_option (testrun_of name info result)
    faild ← get_fail_case_id launch_id
    tally ← from_option info.executions
    pure (
        put_value name
          (with_case team (record { launch_id = launch_id; faild_case = faild; counts = tally })
            testrun)
          result)

  unfoldable pub collect_launches : Launchs → Result → Action Request Result
  unfolding is_wanted lookup
  collect_launches [] result = pure result
  collect_launches ((id, info) ∷ ls) result = do
    team ← from_option (lookup (codes "team") info.entries)
    next ← if is_wanted args.subteam team then collect_launch team id info result else pure result
    collect_launches ls next

  unfoldable pub collect_result : Text → Action Request Result
  collect_result launchname = do
    launchs ← get_launch_id_with_launch_name args w launchname
    collect_launches launchs []
