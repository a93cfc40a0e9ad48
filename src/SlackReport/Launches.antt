-- ===== src/SlackReport/Launches.antt =====
-- pipeline/auto_result_tool/collect_result_to_slack.py: `getLaunchIdWithLaunchName`. It returns what it
-- has collected also after an exception.
pub mod Kept
use yyou.Common.{
  ℕ, Bool, true, false, not, ◌&&◌, List, [], ◌∷◌, ◌++◌, Option, none, some, if◌then◌else◌,
  ◌==◌ as nat_eq,
}
use yyou.Text.{Text, codes, ◌==◌}
use yyou.Dict.{Dict, lookup, insert}
use yyou.Session.{World, Action, pure, guard, from_option, attempt, ◌>>=◌, ◌>>◌, send, is_200}
use yyou.ReportPortal.{Attr, is_text}
use yyou.SlackReport.{Launch, Body, launches, items, other, Request, get, Args}

-- The counts of a launch.
pub record Tally : Type 0 where
  pub total : ℕ
  pub failed : ℕ
  pub skipped : ℕ
  pub to_investigate : ℕ

-- What is kept of a launch: the name and the attributes, and the counts unless an attribute with the key
-- "executions" has replaced them. A value may be null. Attributes with no key are never read.
pub record Info : Type 0 where
  pub executions : Option Tally
  pub entries : Dict (Option Text)

-- `launchs`, with the ids in the order of insertion.
abbrev pub Launchs : Type 0
Launchs = List (ℕ × Info)

-- `launchs[id] = info`
unfoldable pub set_launch : ℕ → Info → Launchs → Launchs
set_launch id info [] = (id, info) ∷ []
set_launch id info ((j, old) ∷ d) =
    let rest = set_launch id info d in if nat_eq j id then (j, info) ∷ d else (j, old) ∷ rest

-- `launchs.pop(id, None)`
unfoldable pub pop_launch : ℕ → Launchs → Launchs
pop_launch id [] = []
pop_launch id ((j, old) ∷ d) =
    let rest = pop_launch id d in if nat_eq j id then d else (j, old) ∷ rest

abbrev pub or_zero : Option ℕ → ℕ
or_zero none = 0
or_zero (some n) = n

unfoldable pub add_attr : Option Text → Option Text → Info → Info
unfolding insert ◌==◌
add_attr none value info = info
add_attr (some key) value info =
    if key == codes "executions"
    then record { executions = none; entries = info.entries }
    else record { executions = info.executions; entries = insert key value info.entries }

unfoldable pub add_attrs : List Attr → Info → Info
unfolding add_attr
add_attrs [] info = info
add_attrs (a ∷ as') info = add_attrs as' (add_attr a.key a.value info)

unfoldable pub info_of : Launch → Info
unfolding add_attrs
info_of l = add_attrs l.attributes (record {
  executions = some (record {
    total = l.total;
    failed = or_zero l.failed;
    skipped = or_zero l.skipped;
    to_investigate = or_zero l.to_investigate;
  });
  entries = (codes "name", some l.name) ∷ [];
})

-- The end of a round of the loop, for the profile and the version of the launch: what is collected, with
-- the launch and without, and whether the loop goes on. It ends with a `KeyError` at a launch with a
-- profile and no version, if a version is asked for.
unfoldable pub keep_or_pop :
    Text → Option (Option Text) → Option (Option Text) → Launchs → Launchs → Launchs × Bool
unfolding is_text
keep_or_pop release_version none version kept popped = (popped, true)
keep_or_pop [] (some profile) version kept popped = (kept, true)
keep_or_pop (c ∷ s) (some profile) none kept popped = (kept, false)
keep_or_pop (c ∷ s) (some profile) (some version) kept popped =
    (if is_text version (c ∷ s) then kept else popped, true)

-- One round of the loop.
unfoldable pub add_launch : Text → Launch → Launchs → Launchs × Bool
unfolding keep_or_pop set_launch pop_launch
add_launch release_version l d =
    let entries = (info_of l).entries in
    let kept = set_launch l.id (info_of l) d in
    keep_or_pop release_version (lookup (codes "profilename") entries)
      (lookup (codes "version") entries) kept (pop_launch l.id kept)

unfoldable pub add_launches : Text → List Launch → Launchs → Launchs
unfolding add_launch
add_launches release_version [] d = d
add_launches release_version (l ∷ ls) d =
    let step = add_launch release_version l d in
    let rest = add_launches release_version ls step.0 in if step.1 then rest else step.0

abbrev pub launches_of : Body → Option (List Launch)
launches_of (launches ls) = some ls
launches_of (items is) = none
launches_of other = none

abbrev pub not_empty : List Launch → Bool
not_empty [] = false
not_empty (l ∷ ls) = true

module _ (args : Args) (w : World Request Body) where
  -- `filter_url`
  unfoldable pub filter_url : Text → Text
  unfolding ◌==◌
  filter_url launchname =
      if not (args.filter_type == codes "equal") && (args.filter_type == codes "contain")
      then args.launch_url
        ++ codes "?filter.cnt.name="
        ++ launchname
        ++ codes "&filter.has.attributeValue=golang&page.size=2000"
      else args.launch_url
        ++ codes "?filter.eq.name="
        ++ launchname
        ++ codes "&filter.has.attributeValue=golang"

  unfoldable pub get_launch_id_with_launch_name : Text → Action Request Launchs
  unfolding filter_url add_launches
  get_launch_id_with_launch_name launchname =
      attempt
        (do
          r ← send w (get (filter_url launchname))
          guard (is_200 r)
          content ← from_option (launches_of r.json)
          guard (not_empty content)
          pure (add_launches args.release_version content []))
        []
