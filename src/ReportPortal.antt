-- ===== src/ReportPortal.antt =====
-- pipeline/reportportal.py, the class ReportPortalClient: the answers of the service, the requests and
-- the arguments that they depend on.
pub mod Scenarios
pub mod Matching
pub mod Launches
pub mod BuildNum
pub mod FailCases
pub mod Effects
pub mod Items
pub mod Rerun
pub mod Values
pub mod Import
pub mod Profiles
pub mod Golang
pub mod Listing
pub mod Removal
pub mod Tests
mod RunTests
pub mod ImportTests
use yyou.Common.{ℕ, Bool, true, false, ◌&&◌, ◌||◌, List, [], ◌∷◌, Option, none, some, if◌then◌else◌}
use yyou.Settings.{Yaml}
use yyou.Text.{Text, codes, ◌==◌}

-- An attribute of a launch. The key and the value may be null.
pub record Attr : Type 0 where
  pub key : Option Text
  pub value : Option Text

-- Times are in milliseconds since 1970.
pub record Launch : Type 0 where
  pub id : ℕ
  pub uuid : Text
  pub start_time : ℕ
  pub end_time : ℕ
  pub attributes : List Attr

pub record Item : Type 0 where
  pub id : ℕ
  pub name : Text
  pub type : Text
  pub start_time : ℕ
  pub end_time : ℕ

-- `r.json()`. At any body of another form than is asked for, the accesses of the script raise.
pub data Body : Type 0 where
  launches : List Launch → Body
  items : List Item → Body
  attributes : List Attr → Body
  created : (id : Text) → Body
  launch_id : (id : ℕ) → Body
  message : (text : Text) → Body
  other : Body

-- One entry of the list of attribute changes.
pub data Change : Type 0 where
  create : (key : Text) (value : Yaml) → Change
  delete : (key value : Text) → Change
  update : (key oldvalue newvalue : Text) → Change

-- The JSON data of a request.
pub data Payload : Type 0 where
  nothing : Payload
  ids : List ℕ → Payload
  zip_file : (path : Text) → Payload
  changes : List Change → List ℕ → Payload
  start_item : (name start_time type launch_uuid : Text) → Payload
  finish_item : (end_time launch_uuid : Text) (status : Option Text) (issue : Bool) → Payload
  log : (launch_uuid item_uuid time message level : Text) → Payload
  launch_started : (name rerun_of start_time : Text) → Payload
  launch_finished : (end_time status : Text) → Payload
  merge : (launches : List ℕ) (name time : Text) → Payload

pub data Request : Type 0 where
  get : (url : Text) → Request
  post : (url : Text) (json : Payload) → Request
  put : (url : Text) (json : Payload) → Request
  remove : (url : Text) (json : Payload) → Request

pub record Args : Type 0 where
  pub launch_url : Text
  pub item_url : Text
  pub log_url : Text
  pub subteam : Text
  pub buildnum : Text
  pub launchname : Text
  pub scenarios : Text

-- `attr["key"] == key`, of a value that may be null
unfoldable pub is_text : Option Text → Text → Bool
unfolding ◌==◌
is_text none t = false
is_text (some s) t = s == t

unfoldable pub is_golang_launch : List Attr → Bool
unfolding is_text
is_golang_launch [] = false
is_golang_launch (a ∷ as') =
    (is_text a.key (codes "launchtype") && is_text a.value (codes "golang")) || is_golang_launch as'
