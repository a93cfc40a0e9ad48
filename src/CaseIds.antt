-- ===== src/CaseIds.antt =====
-- pipeline/getfailcaseid.py, the class ReportPortalClient of that file: the ids of the failed cases of
-- one launch. The answers of the service are those of ReportPortal.
pub mod Laws
mod Tests
use yyou.Common.{ℕ, List, [], ◌∷◌, ◌++◌, Option, none, some}
use yyou.Text.{Text, codes, join, show}
use yyou.Session.{
  World, Action, pure, guard, from_option, attempt, when_some, ◌>>=◌, ◌>>◌, send, is_200,
}
use yyou.ReportPortal.{Launch, Item, Body, Request, get, Args}
use yyou.ReportPortal.Launches.{launches_of, items_of, fitting}
use yyou.ReportPortal.FailCases.{fail_cases}

-- The loops over the launches and their attributes: a launch once for each attribute that fits.
unfoldable pub all_fitting : Text → Text → List Launch → List Launch
unfolding fitting
all_fitting key value [] = []
all_fitting key value (l ∷ ls) = fitting key (some value) l l.attributes ++ all_fitting key value ls

-- `len(ids) != 1` raises, also where there is no launch at all.
unfoldable pub only_id : List Launch → Option ℕ
only_id [] = none
only_id (l ∷ []) = some l.id
only_id (l ∷ m ∷ ls) = none

abbrev numbers_of : List Text → Option Text
numbers_of [] = none
numbers_of (t ∷ ts) = some (join (codes "|") (t ∷ ts))

-- The answer for the failed items. `none` raises.
unfoldable pub answer_of : List Item → Option Text
unfolding fail_cases join
answer_of [] = some (codes "No fail case")
answer_of (i ∷ is) = numbers_of (fail_cases (i ∷ is))

module _ (args : Args) (w : World Request Body) where
  unfoldable pub get_launch_id_with_launch_name : Text → Text → Text → Action Request (Option ℕ)
  get_launch_id_with_launch_name launchname key value =
      attempt
        (do
          r ← send w (get (args.launch_url ++ codes "?filter.eq.name=" ++ launchname))
          guard (is_200 r)
          content ← from_option (launches_of r.json)
          id ← from_option (only_id (all_fitting key value content))
          pure (some id))
        none

  -- `None` is returned after an exception.
  unfoldable pub answer_for : ℕ → Action Request (Option Text)
  answer_for launch_id =
      attempt
        (do
          r ← send w (
              get (
                args.item_url
                ++ codes "?filter.eq.launchId="
                ++ show launch_id
                ++ codes "&filter.eq.status=FAILED&isLatest=false&launchesLimit=0&page.size=150"))
          guard (is_200 r)
          content ← from_option (items_of r.json)
          answer ← from_option (answer_of content)
          pure (some answer))
        none

  unfoldable pub get_fail_case_id : Action Request (Option Text)
  get_fail_case_id = do
    launch_id ← get_launch_id_with_launch_name args.launchname (codes "team") args.subteam
    when_some launch_id (pure (some (codes "no Launch is found"))) answer_for
