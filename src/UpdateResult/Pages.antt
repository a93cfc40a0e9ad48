-- ===== src/UpdateResult/Pages.antt =====
-- pipeline/updateresultrp.py: the pages of launches and of items, and the updates.
use yyou.Common.{ℕ, suc, zero, ◌-◌, not, List, [], ◌∷◌, ◌++◌, Option, none, some, if◌then◌else◌}
use yyou.Text.{Text, codes, contains, replace, show}
use yyou.Session.{
  World, Action, Response, pure, guard, from_option, attempt, when_some, ◌>>=◌, ◌>>◌, send, is_200,
}
use yyou.ReportPortal.{is_golang_launch}
use yyou.UpdateResult.{
  Launch, LaunchInfo, Item, Body, launch_page, item_page, other, Request, get, put, Args, Platform,
}
use yyou.UpdateResult.Filters.{make_launch_filter_url, make_item_filter_url}

unfoldable pub get_launch_info_from_rsp : List Launch → List LaunchInfo
unfolding is_golang_launch
get_launch_info_from_rsp [] = []
get_launch_info_from_rsp (l ∷ ls) =
    let rest = get_launch_info_from_rsp ls in
    if not (is_golang_launch l.attributes)
    then rest
    else record { id = l.id; name = l.name; number = l.number } ∷ rest

-- `author` is empty to take every item.
unfoldable pub get_item_info_from_rsp : Text → List Item → List Item
unfolding contains
get_item_info_from_rsp author [] = []
get_item_info_from_rsp author (i ∷ is) =
    let rest = get_item_info_from_rsp author is in if contains author i.name then i ∷ rest else rest

abbrev pub launch_page_of : Body → Option (ℕ × List Launch)
launch_page_of (launch_page total content) = some (total, content)
launch_page_of (item_page _ _) = none
launch_page_of other = none

abbrev pub item_page_of : Body → Option (ℕ × List Item)
item_page_of (launch_page _ _) = none
item_page_of (item_page total content) = some (total, content)
item_page_of other = none

abbrev pub some_launches : List LaunchInfo → Option (List LaunchInfo)
some_launches [] = none
some_launches (l ∷ ls) = some (l ∷ ls)

unfoldable pub page_url : Text → ℕ → Text
unfolding replace show
page_url url number = replace url (codes "page.page=1") (codes "page.page=" ++ show number)

module _ (args : Args) (p : Platform) (w : World Request Body) where
  -- What one more page of launches adds. A page that is refused is left out.
  unfoldable pub launches_on : Response Body → Action Request (List LaunchInfo)
  launches_on r =
      if is_200 r
      then (from_option (launch_page_of r.json) >>= λ page. pure (get_launch_info_from_rsp page.1))
      else pure []

  -- The loop over so many pages from `number` on.
  unfoldable pub more_launches : Text → ℕ → ℕ → List LaunchInfo → Action Request (List LaunchInfo)
  more_launches url zero number ids = pure ids
  more_launches url (suc n) number ids = do
    r ← send w (get (page_url url number))
    found ← launches_on r
    more_launches url n (suc number) (ids ++ found)

  unfoldable pub get_launches : Action Request (Option (List LaunchInfo))
  get_launches = do
    url ← from_option (make_launch_filter_url p args)
    attempt
        (do
          r ← send w (get url)
          guard (is_200 r)
          (total, content) ← from_option (launch_page_of r.json)
          ids ← more_launches url (total - 1) 2 (get_launch_info_from_rsp content)
          some_ids ← from_option (some_launches ids)
          pure (some some_ids))
        none

  unfoldable pub items_on : Response Body → Action Request (List Item)
  items_on r =
      if is_200 r
      then (from_option (item_page_of r.json) >>= λ page.
          pure (get_item_info_from_rsp args.author page.1))
      else pure []

  unfoldable pub more_items : Text → ℕ → ℕ → List Item → Action Request (List Item)
  more_items url zero number ids = pure ids
  more_items url (suc n) number ids = do
    r ← send w (get (page_url url number))
    found ← items_on r
    more_items url n (suc number) (ids ++ found)

  -- The pages that the first answer announces.
  unfoldable pub all_items : Text → Response Body → Action Request (List Item)
  all_items url r =
      if is_200 r
      then (from_option (item_page_of r.json) >>= λ page.
          more_items url (page.0 - 1) 2 (get_item_info_from_rsp args.author page.1))
      else pure []

  unfoldable pub get_items : LaunchInfo → Text → Action Request (List Item)
  get_items launch itemstatus = do
    url ← from_option (make_item_filter_url args launch itemstatus)
    r ← send w (get url)
    all_items url r

  unfoldable pub update_item_status : ℕ → Text → Action Request ℕ
  update_item_status itemid itemstatus = do
    r ← send w (put (args.item_url ++ codes "/" ++ show itemid ++ codes "/update") itemstatus)
    pure r.status_code

  -- The returned code is only printed.
  unfoldable pub update_items : List Item → Action Request (Unit {0})
  update_items [] = pure tt
  update_items (i ∷ is) = do update_item_status i.id (codes "passed"); update_items is

  unfoldable pub update_item_per_launch : LaunchInfo → Text → Action Request (Unit {0})
  update_item_per_launch launch itemstatus = do
    items ← get_items launch itemstatus
    update_items items

  unfoldable pub update_launches : List LaunchInfo → Action Request (Unit {0})
  update_launches [] = pure tt
  update_launches (l ∷ ls) = do update_item_per_launch l (codes "FAILED"); update_launches ls

  unfoldable pub change_to_success : Action Request (Unit {0})
  change_to_success = do
    existinglaunchs ← get_launches
    when_some existinglaunchs (pure tt) update_launches
