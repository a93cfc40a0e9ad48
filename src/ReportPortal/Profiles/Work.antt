-- ===== src/ReportPortal/Profiles/Work.antt =====
-- pipeline/reportportal.py: what `putProfileLaunch` may remove.
use yyou.Common.{
  ◌≡◌, refl, sym, ap, ◌∙◌, true, false, not, List, [], ◌∷◌, ◌++◌, Option, none, some, ltb, length,
  ◌==◌ as nat_eq,
}
use yyou.Text.{Text, codes}
use yyou.Session.{
  World, Event, sent, Response, ok, pure, ◌>>=◌, ◌>>◌, send, from_option, when_some, is_200,
}
use yyou.Session.Steps.{bind-ok, from_option-ok, attempt-some, guard-ok}
use yyou.Session.Trace.{
  Adds, Adds-bind, Adds-bind_returned, Adds-pure, Adds-send, Adds-attempt, Adds-when_some, Adds-if,
  Adds-from_option, trace,
}
use yyou.ReportPortal.{Launch, Body, zip_file, ids, Payload, Request, get, put, post, remove, Args}
use yyou.ReportPortal.Launches.{
  launches_of, select_launches, get_launch_id_with_launch_name, get_launch_id_with_launch_uuid,
  handle_launch_attribution, delete_launch_by_id,
}
use yyou.ReportPortal.Listing.{some_if_any-same}
use yyou.ReportPortal.Import.{ImportArgs, Host, import_result, first_launch}
use yyou.ReportPortal.Profiles.{
  Library, profile_list, is_listed, with_profile, fake_name, version_text,
  existing_golang_launch_with_profile, get_fake_golang_launch_profile_list, delete_fake,
  delete_removed, put_profile, put_profiles, put_profile_launch,
}

module _ (args : Args) (a : ImportArgs) (host : Host) (lib : Library) (w : World Request Body) where
  abbrev pub fake_url : Text
  fake_url = args.launch_url ++ codes "?page.page=1&page.size=300&filter.eq.name=" ++ fake_name a

  -- The launch is the first one that fits in an answer of the service to the search for the launches
  -- that stand for profiles.
  pub record IsFake (profile : Option Text) (l : Launch) : Type 0 where
    pub before : List (Event Request)
    pub content : List Launch
    pub answered :
        (r : Response Body) × (w.respond before (get fake_url) ≡ ok r)
        × (is_200 r ≡ true)
        × (launches_of r.json ≡ some content)
    pub first :
        first_launch (select_launches (some (codes "profilename", profile)) content) ≡ some l

  -- A read, an import, a change of attributes, or the removal of one launch that stands for a profile.
  pub data IsProfileWork : Event Request → Type 0 where
    reads : (url : Text) → IsProfileWork (sent (get url))
    imports :
        (file : Text)
        → IsProfileWork (sent (post (args.launch_url ++ codes "/import") (zip_file file)))
    labels : (url : Text) (json : Payload) → IsProfileWork (sent (put url json))
    removes :
        (profile : Option Text) (l : Launch)
        → IsFake profile l
        → IsProfileWork (sent (remove args.launch_url (ids (l.id ∷ []))))

  import_result-IsProfileWork : (b : ImportArgs) → Adds IsProfileWork (import_result args b host w)
  unfolding import_result get_launch_id_with_launch_uuid handle_launch_attribution
  import_result-IsProfileWork b = search (trace, reads, imports, labels) depth 40

  abbrev Fakes : Option Text → Option (List Launch) → Type 0
  Fakes profile o =
      (ls : List Launch) (l : Launch) → o ≡ some ls → first_launch ls ≡ some l → IsFake profile l

  found-Fakes :
      (profile : Option Text) (h : List (Event Request)) (o : Option (List Launch))
      → (get_launch_id_with_launch_name args w
          (fake_name a)
          (some (codes "profilename", profile))
          h).0
        ≡ ok o
      → Fakes profile o
  unfolding get_launch_id_with_launch_name send
  found-Fakes profile h o e ls l same first =
      let (body, _) = attempt-some _ h (e ∙ ap ok same) in
      let (r, e0, e1, _) = bind-ok _ _ h body in
      let (_, e1', e2, _) = bind-ok _ _ _ e1 in
      let (content, e2', e3, _) = bind-ok _ _ _ e2 in
      let (found, e4, e5, _) = bind-ok _ _ _ e3 in
      record {
        before = h;
        content = content;
        answered = (r, e0, guard-ok (is_200 r) _ e1', from_option-ok _ content _ e2');
        first =
            ap first_launch (sym (some_if_any-same _ found ls _ (from_option-ok _ found _ e4) e5))
            ∙ first;
      }

  search-IsProfileWork :
      (profile : Option Text)
      → Adds IsProfileWork (
          get_launch_id_with_launch_name args w (fake_name a) (some (codes "profilename", profile)))
  unfolding get_launch_id_with_launch_name
  search-IsProfileWork profile = search (trace, reads) depth 20

  remove_first-IsProfileWork :
      (profile : Option Text) (o : Option (List Launch))
      → Fakes profile o
      → Adds {0} IsProfileWork (
          when_some o
            (pure tt)
            λ ls. from_option (first_launch ls) >>= λ l. delete_launch_by_id args w l.id >> pure tt)
  unfolding when_some delete_launch_by_id
  remove_first-IsProfileWork profile none fakes = Adds-pure tt
  remove_first-IsProfileWork profile (some ls) fakes =
      Adds-bind_returned (λ (l : Launch). first_launch ls ≡ some l) (from_option (first_launch ls))
        (λ l. delete_launch_by_id args w l.id >> pure tt) (Adds-from_option (first_launch ls))
        (λ h l e. from_option-ok (first_launch ls) l h e)
        λ l first.
          Adds-bind
            (Adds-attempt false (
              Adds-bind (Adds-send w _ (removes profile l (fakes ls l refl first)))
                λ r. search trace depth 12))
            λ b. Adds-pure tt

  delete_fake-IsProfileWork :
      (profile : Option Text) → Adds IsProfileWork (delete_fake args a host lib w profile)
  unfolding delete_fake
  delete_fake-IsProfileWork profile =
      Adds-bind_returned (Fakes profile) _ _ (search-IsProfileWork profile) (found-Fakes profile)
        (remove_first-IsProfileWork profile)

  delete_removed-IsProfileWork :
      (profiles : List Text) (ps : List (Option Text))
      → Adds IsProfileWork (delete_removed args a host lib w profiles ps)
  unfolding delete_removed
  delete_removed-IsProfileWork profiles [] = Adds-pure tt
  delete_removed-IsProfileWork profiles (p ∷ ps) =
      Adds-bind (Adds-if (not (is_listed p profiles)) (delete_fake-IsProfileWork p) (Adds-pure tt))
        λ u. delete_removed-IsProfileWork profiles ps

  existing-IsProfileWork :
      (profile version : Text)
      → Adds IsProfileWork (existing_golang_launch_with_profile args a host lib w profile version)
  unfolding existing_golang_launch_with_profile
  existing-IsProfileWork profile version = search (trace, reads) depth 20

  put_profile-IsProfileWork :
      (profile : Text) → Adds IsProfileWork (put_profile args a host lib w profile)
  unfolding put_profile
  put_profile-IsProfileWork profile =
      Adds-bind (existing-IsProfileWork profile (version_text a)) λ existing.
        Adds-when_some existing
          (Adds-bind (import_result-IsProfileWork (with_profile a profile)) λ b. Adds-pure tt)
          λ n. Adds-if (ltb 1 n) (delete_fake-IsProfileWork (some profile)) (Adds-pure tt)

  put_profiles-IsProfileWork :
      (ps : List Text) → Adds IsProfileWork (put_profiles args a host lib w ps)
  unfolding put_profiles
  put_profiles-IsProfileWork [] = Adds-pure tt
  put_profiles-IsProfileWork (p ∷ ps) =
      Adds-bind (put_profile-IsProfileWork p) λ u. put_profiles-IsProfileWork ps

  -- Whatever the service answers, a launch is only removed by `putProfileLaunch` as the first one with a
  -- profile among the golang launches that an answer to the search for the name of the launches that
  -- stand for profiles lists, one launch at a time. Everything else is a read, an import or a change of
  -- attributes.
  pub put_profile_launch-IsProfileWork : Adds IsProfileWork (put_profile_launch args a host lib w)
  unfolding put_profile_launch get_fake_golang_launch_profile_list
  put_profile_launch-IsProfileWork = Adds-bind (Adds-from_option lib.listdir) λ names.
      Adds-if (nat_eq (length (profile_list lib names)) 0) (Adds-pure tt) (
        Adds-bind (search (trace, reads) depth 20) λ found.
          Adds-bind
            (Adds-when_some found (Adds-pure tt)
              (delete_removed-IsProfileWork (profile_list lib names)))
            λ u. put_profiles-IsProfileWork (profile_list lib names))
