-- ===== src/ReportPortal/Listing.antt =====
-- pipeline/reportportal.py: which launches `getLaunchIdWithLaunchName` returns.
use yyou.Common.{
  ◌≡◌, ◌≢◌, refl, ap, ◌∙◌, subst, true, ◌&&◌, List, [], ◌∷◌, ◌++◌, Option, none, some, All,
  All-append, keep, Bool-cases, inl, inr,
}
use yyou.Text.{Text, codes}
use yyou.Session.{World, Event, ok, pure, guard, from_option, send, is_200, Response}
use yyou.Session.Steps.{bind-ok, attempt-some, from_option-ok, guard-ok}
use yyou.ReportPortal.{Attr, Launch, Body, Request, get, Args, is_golang_launch, is_text}
use yyou.ReportPortal.Launches.{
  same_value, fitting, select_launches, some_if_any, launches_of, get_launch_id_with_launch_name,
}

abbrev pub IsGolang : Launch → Type 0
IsGolang l = is_golang_launch l.attributes ≡ true

fitting-IsGolang :
    (key : Text) (value : Option Text) (l : Launch) (as' : List Attr)
    → IsGolang l
    → All IsGolang (fitting key value l as')
unfolding fitting
fitting-IsGolang key value l [] h = tt
fitting-IsGolang key value l (a ∷ as') h =
    elim (Bool-cases (is_text a.key key && same_value a.value value)) [
      | inl fits ↦ rw fits (h, fitting-IsGolang key value l as' h)
      | inr misses ↦ rw misses (fitting-IsGolang key value l as' h)
    ]

select_launches-IsGolang :
    (attrfilter : Option (Text × Option Text)) (ls : List Launch)
    → All IsGolang (select_launches attrfilter ls)
unfolding select_launches
select_launches-IsGolang attrfilter [] = tt
select_launches-IsGolang none (l ∷ ls) = elim (Bool-cases (is_golang_launch l.attributes)) [
  | inl golang ↦ rw golang (golang, select_launches-IsGolang none ls)
  | inr other ↦ rw other (select_launches-IsGolang none ls)
]
select_launches-IsGolang (some (key, value)) (l ∷ ls) =
    elim (Bool-cases (is_golang_launch l.attributes)) [
      | inl golang ↦ rw golang (
          All-append IsGolang (fitting key value l l.attributes)
            (select_launches (some (key, value)) ls)
            (fitting-IsGolang key value l l.attributes golang)
            (select_launches-IsGolang (some (key, value)) ls))
      | inr other ↦ rw other (select_launches-IsGolang (some (key, value)) ls)
    ]

some_if_any-All :
    (ls : List Launch) (found : List Launch) (h h' : List (Event Request)) (out : List Launch)
    → All IsGolang ls
    → (from_option (some_if_any ls) h).0 ≡ ok found
    → (pure (some found) h').0 ≡ ok (some out)
    → All IsGolang out × (out ≢ [])
unfolding from_option pure
some_if_any-All [] found h h' out a e f = absurd (cc)
some_if_any-All (l ∷ ls) found h h' out a e f =
    let same : l ∷ ls ≡ out = cc in
    subst (λ o. All IsGolang o × (o ≢ [])) same (a, λ x. absurd (cc))

-- The golang launches, in order.
abbrev pub golang_launches : List Launch → List Launch
golang_launches ls = keep (λ l. is_golang_launch l.attributes) ls

select_launches-keep : (ls : List Launch) → select_launches none ls ≡ golang_launches ls
unfolding select_launches keep
select_launches-keep [] = refl
select_launches-keep (l ∷ ls) = elim (Bool-cases (is_golang_launch l.attributes)) [
  | inl golang ↦ rw golang (ap (◌∷◌ l) (select_launches-keep ls))
  | inr other ↦ rw other (select_launches-keep ls)
]

pub some_if_any-same :
    (ls found out : List Launch) (h : List (Event Request))
    → some_if_any ls ≡ some found
    → (pure (some found) h).0 ≡ ok (some out)
    → out ≡ ls
unfolding pure
some_if_any-same [] found out h e f = absurd (cc)
some_if_any-same (l ∷ ls) found out h e f = cc

abbrev pub name_url : Args → Text
name_url args =
    args.launch_url ++ codes "?page.page=1&page.size=300&filter.eq.name=" ++ args.launchname

-- The launches are all golang launches of an answer of the service to the search for the name, and
-- there is at least one.
pub record IsListed (args : Args) (w : World Request Body) (ls : List Launch) : Type 0 where
  pub before : List (Event Request)
  pub response : Response Body
  pub content : List Launch
  pub answered : w.respond before (get (name_url args)) ≡ ok response
  pub accepted : is_200 response ≡ true
  pub listed : launches_of response.json ≡ some content
  pub golang : ls ≡ golang_launches content
  pub found : ls ≢ []

module _ (args : Args) (w : World Request Body) where
  -- Whatever the service answers, the launches that `getLaunchIdWithLaunchName` returns are golang
  -- launches, and there is at least one.
  pub get_launch_id-IsGolang :
      (launchname : Text) (attrfilter : Option (Text × Option Text)) (h : List (Event Request))
      (ls : List Launch)
      → (get_launch_id_with_launch_name args w launchname attrfilter h).0 ≡ ok (some ls)
      → All IsGolang ls × (ls ≢ [])
  unfolding get_launch_id_with_launch_name
  get_launch_id-IsGolang launchname attrfilter h ls e =
      let (body, _) = attempt-some _ h e in
      let (r, _, e1, _) = bind-ok (send w _) _ h body in
      let (_, _, e2, _) = bind-ok (guard (is_200 r)) _ _ e1 in
      let (content, _, e3, _) = bind-ok (from_option (launches_of r.json)) _ _ e2 in
      let (found, e4, e5, _) =
        bind-ok (from_option (some_if_any (select_launches attrfilter content))) _ _ e3 in
      some_if_any-All (select_launches attrfilter content) found _ _ ls
        (select_launches-IsGolang attrfilter content) e4 e5

  pub get_launch_id-IsListed :
      (h : List (Event Request)) (ls : List Launch)
      → (get_launch_id_with_launch_name args w args.launchname none h).0 ≡ ok (some ls)
      → IsListed args w ls
  unfolding get_launch_id_with_launch_name
  get_launch_id-IsListed h ls e =
      let (body, _) = attempt-some _ h e in
      let (r, e0, e1, _) = bind-ok (send w _) _ h body in
      let (_, e1', e2, _) = bind-ok (guard (is_200 r)) _ _ e1 in
      let (content, e2', e3, _) = bind-ok (from_option (launches_of r.json)) _ _ e2 in
      let (found, e4, e5, _) =
        bind-ok (from_option (some_if_any (select_launches none content))) _ _ e3 in
      record {
        before = h;
        response = r;
        content = content;
        answered = unfold send in e0;
        accepted = guard-ok (is_200 r) _ e1';
        listed = from_option-ok (launches_of r.json) content _ e2';
        golang =
            some_if_any-same (select_launches none content) found ls _ (from_option-ok _ found _ e4)
              e5
            ∙ select_launches-keep content;
        found = (get_launch_id-IsGolang args.launchname none h ls e).1;
      }
