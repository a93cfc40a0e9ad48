-- ===== src/UpdateResult/Tests.antt =====
-- pipeline/updateresultrp.py: runs against a service with three pages of items.
use yyou.Common.{ℕ, ◌-◌, ◌≡◌, refl, List, [], ◌∷◌, ◌++◌, some}
use yyou.Text.{Text, codes}
use yyou.Session.{World, Event, sent, Outcome, ok, raised, Response, effects}
use yyou.Session.Trace.{Adds}
use yyou.UpdateResult.{LaunchInfo, Item, Body, item_page, Request, get, put, Args, Platform}
use yyou.UpdateResult.Filters.{make_item_filter_url}
use yyou.UpdateResult.Pages.{
  change_to_success, get_items, get_item_info_from_rsp, all_items, more_items, items_on,
}
use yyou.UpdateResult.Effects.{IsPassing, change_to_success-IsPassing}
use yyou.UpdateResult.Fetched.{get_items-fetched, fetched, page_gets}

abbrev args : Args
args = record {
  launch_url = codes "l";
  item_url = codes "i";
  launchname = [];
  subteam = [];
  timeduration = [];
  attrkey = [];
  attrvalue = [];
  author = codes "ab";
  defecttype = codes "PB";
}

abbrev local : Platform
local = record { quote = λ s. s; now = codes "n"; mktime = λ s. some 3 }

abbrev item : ℕ → Text → Item
item id name = record { id = id; name = name }

abbrev content : ℕ → List Item
content k = item k (codes "Author:ab") ∷ item (k - 1) (codes "Author:cd") ∷ []

abbrev answers : List (Event Request) → Request → Outcome (Response Body)
answers h (get url) = ok (record { status_code = 200; text = []; json = item_page 3 (content 1) })
answers h (put url status) = raised

abbrev service : World Request Body
service = record {
  respond = answers;
  clock = λ h. record {
    year = 2023;
    month = 1;
    day = 1;
    hour = 0;
    minute = 0;
    second = 0;
    microsecond = 0;
  };
}

abbrev launch : LaunchInfo
launch = record { id = 4; name = codes "n"; number = 1 }

change_to_success-IsPassing_example : Adds (IsPassing args) (change_to_success args local service)
change_to_success-IsPassing_example = change_to_success-IsPassing args local service

abbrev url : Text
url =
    codes "i?page.page=1&page.size=300&isLatest=false&launchesLimit=0&filter.eq.launchId=4"
    ++ codes "&filter.eq.type=STEP&filter.eq.status=FAILED&filter.in.issueType=pb001"

url_made : make_item_filter_url args launch (codes "FAILED") ≡ some url
unfolding make_item_filter_url
url_made = refl

abbrev taken : List Item
taken = item 1 (codes "Author:ab") ∷ item 1 (codes "Author:ab") ∷ item 1 (codes "Author:ab") ∷ []

items_returned : (get_items args local service launch (codes "FAILED") []).0 ≡ ok taken
unfolding get_items make_item_filter_url all_items more_items items_on get_item_info_from_rsp
    effects
items_returned = refl

get_items-fetched_example : get_items args local service launch (codes "FAILED") [] ≡ (
  ok (
      get_item_info_from_rsp (codes "ab") (content 1)
      ++ fetched args local service (λ k. 200) (λ k. 3) (λ k. []) (λ k. content 1) 2 2),
  sent (get url)
      ∷ page_gets args local service (λ k. 200) (λ k. 3) (λ k. []) (λ k. content 1) url 2 2,
)
get_items-fetched_example =
    get_items-fetched args local service (λ k. 200) (λ k. 3) (λ k. []) (λ k. content 1) launch
      (codes "FAILED") url [] 3 (content 1) [] url_made refl (λ g k. refl)
