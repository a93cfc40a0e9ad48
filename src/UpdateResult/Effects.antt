-- ===== src/UpdateResult/Effects.antt =====
-- pipeline/updateresultrp.py: what the run sends, and which items it takes.
use yyou.Common.{ℕ, suc, zero, ◌≡◌, inl, inr, true, List, [], ◌∷◌, ◌++◌, All, Bool-cases}
use yyou.Text.{Text, codes, contains, show}
use yyou.Session.{World, Event, sent, Response}
use yyou.Session.Trace.{Adds, Adds-bind, Adds-pure, Adds-send, Adds-when_some, trace}
use yyou.UpdateResult.{LaunchInfo, Item, Body, Request, get, put, Args, Platform}
use yyou.UpdateResult.Pages.{
  get_item_info_from_rsp, launches_on, more_launches, get_launches, items_on, more_items, all_items,
  get_items, update_item_status, update_items, update_item_per_launch, update_launches,
  change_to_success, page_url,
}

-- A read, or an update of one item that sets the status "passed".
pub data IsPassing (args : Args) : Event Request → Type 0 where
  reads : (url : Text) → IsPassing args (sent (get url))
  passes :
      (id : ℕ)
      → IsPassing args
          (sent (put (args.item_url ++ codes "/" ++ show id ++ codes "/update") (codes "passed")))

module _ (args : Args) (p : Platform) (w : World Request Body) where
  launches_on-IsPassing : (r : Response Body) → Adds (IsPassing args) (launches_on args p w r)
  unfolding launches_on
  launches_on-IsPassing r = search trace depth 12

  more_launches-IsPassing :
      (url : Text) (n number : ℕ) (ids : List LaunchInfo)
      → Adds (IsPassing args) (more_launches args p w url n number ids)
  unfolding more_launches
  more_launches-IsPassing url zero number ids = search trace depth 12
  more_launches-IsPassing url (suc n) number ids =
      Adds-bind (Adds-send w (get (page_url url number)) (reads (page_url url number))) λ r.
        Adds-bind (launches_on-IsPassing r)
          λ found. more_launches-IsPassing url n (suc number) (ids ++ found)

  get_launches-IsPassing : Adds (IsPassing args) (get_launches args p w)
  unfolding get_launches
  get_launches-IsPassing = search (trace, more_launches-IsPassing, reads) depth 16

  items_on-IsPassing : (r : Response Body) → Adds (IsPassing args) (items_on args p w r)
  unfolding items_on
  items_on-IsPassing r = search trace depth 12

  more_items-IsPassing :
      (url : Text) (n number : ℕ) (ids : List Item)
      → Adds (IsPassing args) (more_items args p w url n number ids)
  unfolding more_items
  more_items-IsPassing url zero number ids = search trace depth 12
  more_items-IsPassing url (suc n) number ids =
      Adds-bind (Adds-send w (get (page_url url number)) (reads (page_url url number))) λ r.
        Adds-bind (items_on-IsPassing r)
          λ found. more_items-IsPassing url n (suc number) (ids ++ found)

  get_items-IsPassing :
      (launch : LaunchInfo) (itemstatus : Text)
      → Adds (IsPassing args) (get_items args p w launch itemstatus)
  unfolding get_items all_items
  get_items-IsPassing launch itemstatus = search (trace, more_items-IsPassing, reads) depth 16

  update_items-IsPassing : (is : List Item) → Adds (IsPassing args) (update_items args p w is)
  unfolding update_items update_item_status
  update_items-IsPassing [] = search trace depth 12
  update_items-IsPassing (i ∷ is) =
      Adds-bind
        (Adds-bind
          (Adds-send w
            (put (args.item_url ++ codes "/" ++ show i.id ++ codes "/update") (codes "passed"))
            (passes i.id))
          λ r. Adds-pure r.status_code)
        λ _. update_items-IsPassing is

  update_launches-IsPassing :
      (ls : List LaunchInfo) → Adds (IsPassing args) (update_launches args p w ls)
  unfolding update_launches update_item_per_launch
  update_launches-IsPassing [] = search trace depth 12
  update_launches-IsPassing (l ∷ ls) =
      Adds-bind (Adds-bind (get_items-IsPassing l (codes "FAILED")) update_items-IsPassing)
        λ _. update_launches-IsPassing ls

  -- Whatever the service answers, the run only reads and sets items to "passed".
  pub change_to_success-IsPassing : Adds (IsPassing args) (change_to_success args p w)
  unfolding change_to_success
  change_to_success-IsPassing =
      Adds-bind get_launches-IsPassing
        λ found. Adds-when_some found (Adds-pure tt) update_launches-IsPassing

-- The author is part of the name.
abbrev pub HasAuthor : Text → Item → Type 0
HasAuthor author i = contains author i.name ≡ true

pub get_item_info-HasAuthor :
    (author : Text) (is : List Item) → All (HasAuthor author) (get_item_info_from_rsp author is)
unfolding get_item_info_from_rsp
get_item_info-HasAuthor author [] = tt
get_item_info-HasAuthor author (i ∷ is) = elim (Bool-cases (contains author i.name)) [
  | inl here ↦ rw here (here, get_item_info-HasAuthor author is)
  | inr away ↦ rw away (get_item_info-HasAuthor author is)
]
