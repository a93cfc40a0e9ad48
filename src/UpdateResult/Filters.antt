-- ===== src/UpdateResult/Filters.antt =====
-- pipeline/updateresultrp.py: `makeLaunchFilterUrl` and `makeItemFilterUrl`. `none` is a raise: of a time
-- that cannot be read, or of an unknown type of defect.
use yyou.Common.Maybe.{◌>>=◌}
use yyou.Common.{◌+◌, ◌*◌, List, [], ◌∷◌, ◌++◌, Option, none, some, if◌then◌else◌}
use yyou.Text.{Text, codes, ◌==◌, split, replace, show}
use yyou.UpdateResult.{LaunchInfo, Args, Platform}

-- `self.defectFullNameMap`
unfoldable pub defect_full_name : Text → Option Text
unfolding ◌==◌
defect_full_name t =
    if t == codes "PB"
    then some (codes "product_bug")
    else if t == codes "AB"
    then some (codes "automation_bug")
    else if t == codes "TI"
    then some (codes "to_investigate")
    else if t == codes "SI"
    then some (codes "system_issue")
    else none

-- `self.defectTypeMap`
unfoldable pub defect_type : Text → Option Text
unfolding ◌==◌
defect_type t =
    if t == codes "PB"
    then some (codes "pb001")
    else if t == codes "AB"
    then some (codes "ab001")
    else if t == codes "TI"
    then some (codes "ti001")
    else if t == codes "SI"
    then some (codes "si001")
    else none

-- `s.replace(" ", "")`
unfoldable pub no_spaces : Text → Text
unfolding replace
no_spaces s = replace s (codes " ") []

unfoldable pub name_filter : Text → Text
unfolding no_spaces
name_filter [] = []
name_filter (c ∷ s) = codes "&filter.cnt.name=" ++ no_spaces (c ∷ s)

module _ (p : Platform) where
  unfoldable pub key_filter : Text → Text
  unfolding no_spaces
  key_filter [] = []
  key_filter (c ∷ s) = codes "&filter.has.attributeKey=" ++ p.quote (no_spaces (c ∷ s))

  unfoldable pub value_filter : (sub_team attribute_value : Text) → Text
  value_filter [] [] = []
  value_filter [] (d ∷ v) = codes "&filter.has.attributeValue=" ++ p.quote (d ∷ v)
  value_filter (c ∷ s) [] = codes "&filter.has.attributeValue=" ++ p.quote (c ∷ s)
  value_filter (c ∷ s) (d ∷ v) =
      codes "&filter.has.attributeValue=" ++ p.quote ((c ∷ s) ++ (codes "," ++ (d ∷ v)))

  -- The start and the end that the parts of the duration give.
  unfoldable pub bounds_of : List Text → Option (Text × Text)
  bounds_of [] = none
  bounds_of (start_time ∷ []) = some (start_time, p.now)
  bounds_of (start_time ∷ end_time ∷ more) = some (start_time, end_time)

  unfoldable pub time_filter : Text → Option Text
  unfolding bounds_of split show
  time_filter [] = some []
  time_filter (c ∷ s) = do
    (start_time, end_time) ← bounds_of (split (c ∷ s) (codes ","))
    sttimestamp ← p.mktime start_time
    edtimestamp ← p.mktime end_time
    some (
        codes "&filter.btw.startTime="
        ++ p.quote (show (sttimestamp * 1000) ++ (codes "," ++ show (edtimestamp * 1000 + 1000))))

  unfoldable pub defect_filter : Text → Option Text
  unfolding defect_full_name
  defect_filter [] = some []
  defect_filter (c ∷ s) = do
    name ← defect_full_name (c ∷ s)
    some (
        codes "&filter.gte.statistics"
        ++ (p.quote (codes "$defects$" ++ (name ++ codes "$total")) ++ codes "=1"))

  unfoldable pub make_launch_filter_url : Args → Option Text
  unfolding name_filter key_filter value_filter time_filter defect_filter
  make_launch_filter_url args = do
    time ← time_filter args.timeduration
    defect ← defect_filter args.defecttype
    some (
        args.launch_url
        ++ codes "?page.page=1&page.size=300"
        ++ name_filter args.launchname
        ++ key_filter args.attrkey
        ++ value_filter args.subteam args.attrvalue
        ++ time
        ++ codes "&filter.gte.statistics"
        ++ p.quote (codes "$executions$failed")
        ++ codes "=1"
        ++ defect)

unfoldable pub issue_filter : Text → Option Text
unfolding defect_type
issue_filter [] = some []
issue_filter (c ∷ s) = do type ← defect_type (c ∷ s); some (codes "&filter.in.issueType=" ++ type)

-- For the items of type "STEP" of a launch.
unfoldable pub make_item_filter_url : Args → LaunchInfo → Text → Option Text
unfolding issue_filter show
make_item_filter_url args launch itemstatus = do
  issue ← issue_filter args.defecttype
  some (
      args.item_url
      ++ codes "?page.page=1&page.size=300&isLatest=false&launchesLimit=0"
      ++ codes "&filter.eq.launchId="
      ++ show launch.id
      ++ codes "&filter.eq.type=STEP&filter.eq.status="
      ++ itemstatus
      ++ issue)
