-- ===== src/UpdateResult.antt =====
-- pipeline/updateresultrp.py, the class UpdateResultonRP: the items of the launches that fit a filter
-- are set to "passed". `urllib.parse.quote` and the local time are parameters.
pub mod Filters
pub mod Pages
pub mod Effects
pub mod Fetched
mod Tests
use yyou.Common.{ℕ, List, Option}
use yyou.Text.{Text}
use yyou.ReportPortal.{Attr}

pub record Launch : Type 0 where
  pub id : ℕ
  pub name : Text
  pub number : ℕ
  pub attributes : List Attr

-- What is kept of a launch.
pub record LaunchInfo : Type 0 where
  pub id : ℕ
  pub name : Text
  pub number : ℕ

-- An item of an answer, and what is kept of it.
pub record Item : Type 0 where
  pub id : ℕ
  pub name : Text

-- `r.json()`: a page with the number of all pages, or a body at which the accesses raise.
pub data Body : Type 0 where
  launch_page : (total_pages : ℕ) (content : List Launch) → Body
  item_page : (total_pages : ℕ) (content : List Item) → Body
  other : Body

-- An update puts one value both as the attribute "manually" and as the status.
pub data Request : Type 0 where
  get : (url : Text) → Request
  put : (url : Text) (status : Text) → Request

pub record Args : Type 0 where
  pub launch_url : Text
  pub item_url : Text
  pub launchname : Text
  pub subteam : Text
  pub timeduration : Text
  pub attrkey : Text
  pub attrvalue : Text
  pub author : Text
  pub defecttype : Text

-- `quote` is `urllib.parse.quote`, `now` is the local time as the script prints it, and `mktime` reads a
-- local time in that form, in seconds since 1970. It is `none` where `strptime` raises.
pub record Platform : Type 0 where
  pub quote : Text → Text
  pub now : Text
  pub mktime : Text → Option ℕ
