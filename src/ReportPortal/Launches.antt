-- ===== src/ReportPortal/Launches.antt =====
-- pipeline/reportportal.py: the methods that look up, change and remove launches.
use yyou.Common.{
  ℕ, Bool, true, false, ◌&&◌, not, List, [], ◌∷◌, ◌++◌, Option, none, some, if◌then◌else◌, map,
}
use yyou.Settings.{Yaml}
use yyou.Text.{Text, codes, show}
use yyou.Datetime.{strftime}
use yyou.HandleResult.Names.{init}
use yyou.Session.{
  World, Action, pure, guard, from_option, when_some, attempt, ◌>>=◌, ◌>>◌, send, utcnow, is_200,
}
use yyou.ReportPortal.{
  Attr, Launch, Item, Body, launches, items, attributes, created, launch_id, message, other, Change,
  create, delete, update, ids, changes, merge, Request, get, post, put, remove, Args, is_text,
  is_golang_launch,
}
use yyou.ReportPortal.Matching.{CheckResult, check_content}

-- `r.json()["content"]` and the like.
abbrev pub launches_of : Body → Option (List Launch)
launches_of (launches ls) = some ls
launches_of (items _) = none
launches_of (attributes _) = none
launches_of (created _) = none
launches_of (launch_id _) = none
launches_of (message _) = none
launches_of other = none

abbrev pub items_of : Body → Option (List Item)
items_of (items is) = some is
items_of (launches _) = none
items_of (attributes _) = none
items_of (created _) = none
items_of (launch_id _) = none
items_of (message _) = none
items_of other = none

abbrev pub attributes_of : Body → Option (List Attr)
attributes_of (attributes as') = some as'
attributes_of (launches _) = none
attributes_of (items _) = none
attributes_of (created _) = none
attributes_of (launch_id _) = none
attributes_of (message _) = none
attributes_of other = none

abbrev pub created_of : Body → Option Text
created_of (created id) = some id
created_of (launches _) = none
created_of (items _) = none
created_of (attributes _) = none
created_of (launch_id _) = none
created_of (message _) = none
created_of other = none

abbrev pub launch_id_of : Body → Option ℕ
launch_id_of (launch_id id) = some id
launch_id_of (launches _) = none
launch_id_of (items _) = none
launch_id_of (attributes _) = none
launch_id_of (created _) = none
launch_id_of (message _) = none
launch_id_of other = none

abbrev pub message_of : Body → Option Text
message_of (message text) = some text
message_of (launches _) = none
message_of (items _) = none
message_of (attributes _) = none
message_of (created _) = none
message_of (launch_id _) = none
message_of other = none

-- `attr["value"] == value`, where both may be null
abbrev pub same_value : Option Text → Option Text → Bool
same_value a (some t) = is_text a t
same_value none none = true
same_value (some s) none = false

-- The launch once for each of its attributes that fits the filter.
unfoldable pub fitting : Text → Option Text → Launch → List Attr → List Launch
unfolding is_text
fitting key value l [] = []
fitting key value l (a ∷ as') =
    let rest = fitting key value l as' in
    if is_text a.key key && same_value a.value value then l ∷ rest else rest

-- The loop of `getLaunchIdWithLaunchName`. With no filter a launch stands for its `id` in the list that
-- the source returns, and with one for its four entries `id`, `uuid`, `startTime` and `endTime`.
unfoldable pub select_launches : Option (Text × Option Text) → List Launch → List Launch
unfolding fitting is_golang_launch
select_launches attrfilter [] = []
select_launches attrfilter (l ∷ ls) =
    let rest = select_launches attrfilter ls in
    if not (is_golang_launch l.attributes) then rest else elim attrfilter [
      | none ↦ l ∷ rest
      | some (key, value) ↦ fitting key value l l.attributes ++ rest
    ]

abbrev pub some_if_any : List Launch → Option (List Launch)
some_if_any [] = none
some_if_any (l ∷ ls) = some (l ∷ ls)

-- The value of the last attribute with the key, starting from the empty text. `none` is null.
unfoldable pub last_value : Text → List Attr → Option Text → Option Text
unfolding is_text
last_value key [] found = found
last_value key (a ∷ as') found = last_value key as' (if is_text a.key key then a.value else found)

-- An entry of the dictionary of attribute actions.
pub data AttrAction : Type 0 where
  to_update : (oldvalue newvalue : Text) → AttrAction
  to_add : (value : Yaml) → AttrAction
  to_delete : (value : Text) → AttrAction

unfoldable pub change_of : Text × AttrAction → Change
change_of (k, to_update oldvalue newvalue) = update k oldvalue newvalue
change_of (k, to_add value) = create k value
change_of (k, to_delete value) = delete k value

module _ (args : Args) (w : World Request Body) where
  unfoldable pub check_launchs_by_name_scenario : Text → Text → Action Request (Option CheckResult)
  check_launchs_by_name_scenario launchname scenarios =
      attempt
        (do
          r ← send w (get (args.launch_url ++ codes "?filter.eq.name=" ++ launchname))
          guard (is_200 r)
          content ← from_option (launches_of r.json)
          result ← from_option (check_content args.buildnum scenarios content)
          pure (some result))
        none

  unfoldable pub get_launch_id_with_launch_name :
      Text → Option (Text × Option Text) → Action Request (Option (List Launch))
  get_launch_id_with_launch_name launchname attrfilter =
      attempt
        (do
          r ← send w (
              get (
                args.launch_url
                ++ codes "?page.page=1&page.size=300&filter.eq.name="
                ++ launchname))
          guard (is_200 r)
          content ← from_option (launches_of r.json)
          found ← from_option (some_if_any (select_launches attrfilter content))
          pure (some found))
        none

  unfoldable pub get_launch_id_with_launch_uuid : Text → Action Request (Option ℕ)
  get_launch_id_with_launch_uuid uuid =
      attempt
        (do
          r ← send w (get (args.launch_url ++ codes "/uuid/" ++ uuid))
          guard (is_200 r)
          id ← from_option (launch_id_of r.json)
          pure (some id))
        none

  unfoldable pub handle_launch_attribution : List ℕ → List (Text × AttrAction) → Action Request Bool
  handle_launch_attribution id_list attr_dict =
      attempt
        (do
          r ←
              send w
                (put (args.launch_url ++ codes "/info") (changes (map change_of attr_dict) id_list))
          guard (is_200 r)
          pure true)
        false

  -- The inner option is null in the answer.
  unfoldable pub get_launch_attr_by_id : ℕ → Text → Action Request (Option (Option Text))
  get_launch_attr_by_id lid attrkey =
      attempt
        (do
          r ← send w (get (args.launch_url ++ codes "/" ++ show lid))
          guard (is_200 r)
          as' ← from_option (attributes_of r.json)
          pure (some (last_value attrkey as' (some []))))
        none

  unfoldable pub delete_launch_by_id : ℕ → Action Request Bool
  delete_launch_by_id launchid =
      attempt
        (do r ← send w (remove args.launch_url (ids (launchid ∷ []))); guard (is_200 r); pure true)
        false

  unfoldable pub delete_launch_by_name : Action Request Bool
  delete_launch_by_name = do
    found ← get_launch_id_with_launch_name args.launchname none
    when_some found (pure false) λ ls.
        attempt
          (do
            r ← send w (remove args.launch_url (ids (map (λ (l : Launch). l.id) ls)))
            guard (is_200 r)
            pure true)
          false

  unfoldable pub merge_result : Action Request Bool
  merge_result = do
    found ← get_launch_id_with_launch_name args.launchname none
    when_some found (pure false) λ ls. do
      now ← utcnow w
      let currenttime = init (init (init (strftime now))) ++ codes "Z"
      attempt
          (do
            r ← send w (
                post (args.launch_url ++ codes "/merge")
                  (merge (map (λ (l : Launch). l.id) ls) args.launchname currenttime))
            guard (is_200 r)
            pure true)
          false
