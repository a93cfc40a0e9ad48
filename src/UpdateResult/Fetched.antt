-- ===== src/UpdateResult/Fetched.antt =====
-- pipeline/updateresultrp.py: which items `getItems` returns.
use yyou.Common.{
  ℕ, suc, zero, ◌-◌, ◌≡◌, refl, sym, ◌∙◌, inl, inr, List, [], ◌∷◌, ◌++◌, ◌==◌, some, All,
  All-append, Bool-cases, append_assoc, append-nil, if◌then◌else◌,
}
use yyou.Text.{Text}
use yyou.Session.{World, Event, sent, Response, pure, from_option, ◌>>=◌, send, is_200, Outcome, ok}
use yyou.Session.Steps.{bind-ok}
use yyou.UpdateResult.{LaunchInfo, Item, Body, item_page, Request, get, Args, Platform}
use yyou.UpdateResult.Filters.{make_item_filter_url}
use yyou.UpdateResult.Pages.{
  get_item_info_from_rsp, items_on, more_items, all_items, get_items, item_page_of, page_url,
}
use yyou.UpdateResult.Effects.{HasAuthor, get_item_info-HasAuthor}

pure-ok {ℓ} :
    {R : Type 0} {A : Type ℓ} (Q : A → Type 0) (a b : A) (h : List (Event R))
    → Q a
    → (pure a h).0 ≡ ok b
    → Q b
unfolding pure
pure-ok Q a b h q e = let same : a ≡ b = cc in rw (sym same) q

regroup {ℓ κ} :
    {A : Type ℓ} {E : Type κ} (xs ys zs : List A) (h : List E) (e : E) (t : List E)
    → ◌≡◌ {A = Outcome (List A) × List E}
        (ok ((xs ++ ys) ++ zs), (h ++ (e ∷ [])) ++ t)
        (ok (xs ++ (ys ++ zs)), h ++ (e ∷ t))
regroup xs ys zs h e t = λ i. (ok (append_assoc xs ys zs i), append_assoc h (e ∷ []) t i)

with_result {ℓ κ} :
    {A : Type ℓ} {B : Type κ} (a : A) {b c : B} → b ≡ c → ◌≡◌ {A = A × B} (a, b) (a, c)
with_result a e = λ i. (a, e i)

module _ (args : Args) (p : Platform) (w : World Request Body) where
  items_on-HasAuthor :
      (r : Response Body) (h : List (Event Request)) (is : List Item)
      → (items_on args p w r h).0 ≡ ok is
      → All (HasAuthor args.author) is
  unfolding items_on
  items_on-HasAuthor r h is e = elim (Bool-cases (is_200 r)) [
    | inl good ↦
        let (page, _, last, _) =
          bind-ok (from_option (item_page_of r.json))
            (λ page. pure (get_item_info_from_rsp args.author page.1)) h (rw good at e) in
        pure-ok (All (HasAuthor args.author)) (get_item_info_from_rsp args.author page.1) is _
          (get_item_info-HasAuthor args.author page.1) last
    | inr bad ↦ pure-ok (All (HasAuthor args.author)) [] is h tt (rw bad at e)
  ]

  more_items-HasAuthor :
      (url : Text) (n number : ℕ) (ids : List Item) (h : List (Event Request)) (is : List Item)
      → All (HasAuthor args.author) ids
      → (more_items args p w url n number ids h).0 ≡ ok is
      → All (HasAuthor args.author) is
  unfolding more_items
  more_items-HasAuthor url zero number ids h is a e =
      pure-ok (All (HasAuthor args.author)) ids is h a e
  more_items-HasAuthor url (suc n) number ids h is a e =
      let (r, _, rest, _) = bind-ok (send w (get (page_url url number))) _ h e in
      let (found, here, last, _) = bind-ok (items_on args p w r) _ _ rest in
      more_items-HasAuthor url n (suc number) (ids ++ found) _ is
        (All-append (HasAuthor args.author) ids found a (items_on-HasAuthor r _ found here)) last

  all_items-HasAuthor :
      (url : Text) (r : Response Body) (h : List (Event Request)) (is : List Item)
      → (all_items args p w url r h).0 ≡ ok is
      → All (HasAuthor args.author) is
  unfolding all_items
  all_items-HasAuthor url r h is e = elim (Bool-cases (is_200 r)) [
    | inl good ↦
        let (page, _, last, _) =
          bind-ok (from_option (item_page_of r.json))
            (λ page.
              more_items args p w url (page.0 - 1) 2 (get_item_info_from_rsp args.author page.1))
            h (rw good at e) in
        more_items-HasAuthor url (page.0 - 1) 2 (get_item_info_from_rsp args.author page.1) _ is
          (get_item_info-HasAuthor args.author page.1) last
    | inr bad ↦ pure-ok (All (HasAuthor args.author)) [] is h tt (rw bad at e)
  ]

  -- Whatever the service answers, each item that `getItems` returns has the author in its name.
  get_items-HasAuthor :
      (launch : LaunchInfo) (itemstatus : Text) (h : List (Event Request)) (is : List Item)
      → (get_items args p w launch itemstatus h).0 ≡ ok is
      → All (HasAuthor args.author) is
  unfolding get_items
  get_items-HasAuthor launch itemstatus h is e =
      let (url, _, rest, _) =
        bind-ok (from_option (make_item_filter_url args launch itemstatus)) _ h e in
      let (r, _, last, _) = bind-ok (send w (get url)) _ _ rest in
      all_items-HasAuthor url r _ is last

-- A service that answers each page with a page of items, whatever was sent before, and refuses some.
-- The status codes, the texts and the contents are given by the number of the page.
module _ (args : Args) (p : Platform) (w : World Request Body) (code : ℕ → ℕ) (total : ℕ → ℕ)
    (text : ℕ → Text) (content : ℕ → List Item) where
  abbrev pub answer : ℕ → Response Body
  answer k = record { status_code = code k; text = text k; json = item_page (total k) (content k) }

  -- What is to be taken of so many pages from `number` on: the pages that are not refused.
  abbrev pub fetched : ℕ → ℕ → List Item
  fetched zero number = []
  fetched (suc n) number =
      (if code number == 200 then get_item_info_from_rsp args.author (content number) else [])
      ++ fetched n (suc number)

  abbrev pub page_gets : Text → ℕ → ℕ → List (Event Request)
  page_gets url zero number = []
  page_gets url (suc n) number = sent (get (page_url url number)) ∷ page_gets url n (suc number)

  items_on-answer :
      (k : ℕ) (h : List (Event Request))
      → items_on args p w (answer k) h
        ≡ (ok (if code k == 200 then get_item_info_from_rsp args.author (content k) else []), h)
  unfolding items_on pure from_option ◌>>=◌
  items_on-answer k h = elim (Bool-cases (code k == 200)) [
    | inl good ↦ rw good refl
    | inr bad ↦ rw bad refl
  ]

  more_items-fetched :
      (url : Text) (n number : ℕ) (ids : List Item) (h : List (Event Request))
      → ((g : List (Event Request)) (k : ℕ) → w.respond g (get (page_url url k)) ≡ ok (answer k))
      → more_items args p w url n number ids h
        ≡ (ok (ids ++ fetched n number), h ++ page_gets url n number)
  unfolding more_items pure ◌>>=◌ send
  more_items-fetched url zero number ids h serves = rw (append-nil ids, append-nil h) refl
  more_items-fetched url (suc n) number ids h serves =
      rw (serves h number, items_on-answer number (h ++ (sent (get (page_url url number)) ∷ [])))
        (more_items-fetched url n (suc number)
            (ids
              ++ (if code number == 200
                  then get_item_info_from_rsp args.author (content number)
                  else []))
            (h ++ (sent (get (page_url url number)) ∷ [])) serves
          ∙ regroup ids
              (if code number == 200
                then get_item_info_from_rsp args.author (content number)
                else [])
              (fetched n (suc number)) h (sent (get (page_url url number)))
              (page_gets url n (suc number)))

  -- Where the filter gives a URL, the service answers it with status 200 and a first page of items, and
  -- answers every later page with items or a refusal, `getItems` returns, requests every page that the
  -- first one announces exactly once and in order, and returns the items of the author on all pages
  -- that were not refused, in the order of the pages.
  pub get_items-fetched :
      (launch : LaunchInfo) (itemstatus url body : Text) (pages : ℕ) (first : List Item)
      (h : List (Event Request))
      → make_item_filter_url args launch itemstatus ≡ some url
      → w.respond h (get url)
        ≡ ok (record { status_code = 200; text = body; json = item_page pages first })
      → ((g : List (Event Request)) (k : ℕ) → w.respond g (get (page_url url k)) ≡ ok (answer k))
      → get_items args p w launch itemstatus h ≡ (
        ok (get_item_info_from_rsp args.author first ++ fetched (pages - 1) 2),
        h ++ (sent (get url) ∷ page_gets url (pages - 1) 2),
      )
  unfolding get_items all_items from_option ◌>>=◌ send
  get_items-fetched launch itemstatus url body pages first h filter here serves =
      rw (filter, here)
        (more_items-fetched url (pages - 1) 2 (get_item_info_from_rsp args.author first)
            (h ++ (sent (get url) ∷ [])) serves
          ∙ with_result (ok (get_item_info_from_rsp args.author first ++ fetched (pages - 1) 2))
              (append_assoc h (sent (get url) ∷ []) (page_gets url (pages - 1) 2)))
