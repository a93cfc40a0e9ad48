-- ===== src/ReportPortal/Profiles/Existing.antt =====
-- pipeline/reportportal.py: what `putProfileLaunch` does for a profile that has a launch already.
use yyou.Common.{
  ℕ, ◌≡◌, ◌≢◌, ◌⊎◌, inl, inr, refl, ap, ◌∙◌, true, List, [], ◌∷◌, ◌++◌, Option, some, All,
  if◌then◌else◌, ltb, length, append_assoc,
}
use yyou.Text.{Text, codes}
use yyou.Session.{
  World, Event, sent, Response, ok, pure, ◌>>=◌, send, from_option, when_some, is_200, attempt,
  guard,
}
use yyou.Session.Trace.{Adds, Adds-pure, Adds-if, trace}
use yyou.ReportPortal.{Launch, Body, ids, Request, get, remove, Args}
use yyou.ReportPortal.Launches.{launches_of, get_launch_id_with_launch_name, delete_launch_by_id}
use yyou.ReportPortal.Import.{ImportArgs, Host}
use yyou.ReportPortal.Profiles.{
  Library, version_text, existing_golang_launch_with_profile, delete_fake, put_profile,
}

module _ (args : Args) (a : ImportArgs) (host : Host) (lib : Library) (w : World Request Body) where
  put_profile-some :
      (profile : Text) (n : ℕ) (h : List (Event Request))
      → (existing_golang_launch_with_profile args a host lib w profile (version_text a) h).0
        ≡ ok (some n)
      → put_profile args a host lib w profile h
        ≡ (if ltb 1 n then delete_fake args a host lib w (some profile) else pure tt)
            (existing_golang_launch_with_profile args a host lib w profile (version_text a) h).1
  unfolding put_profile ◌>>=◌ when_some
  put_profile-some profile n h e = rw e refl

  pub data IsReadOrRemove : Event Request → Type 0 where
    reads_only : (url : Text) → IsReadOrRemove (sent (get url))
    removes_one : (id : ℕ) → IsReadOrRemove (sent (remove args.launch_url (ids (id ∷ []))))

  delete_fake-IsReadOrRemove :
      (profile : Option Text) → Adds IsReadOrRemove (delete_fake args a host lib w profile)
  unfolding delete_fake get_launch_id_with_launch_name delete_launch_by_id
  delete_fake-IsReadOrRemove profile = search (trace, reads_only, removes_one) depth 40

  abbrev pub profile_url : Text → Text
  profile_url profile =
      args.launch_url
      ++ codes "?page.page=1&page.size=10&filter.has.attributeValue="
      ++ lib.quote (profile ++ codes "," ++ version_text a ++ codes ",golang")

  existing_golang_launch_with_profile-length :
      (profile : Text) (h : List (Event Request)) (r : Response Body) (l : Launch)
      (ls : List Launch)
      → w.respond h (get (profile_url profile)) ≡ ok r
      → is_200 r ≡ true
      → launches_of r.json ≡ some (l ∷ ls)
      → existing_golang_launch_with_profile args a host lib w profile (version_text a) h
        ≡ (ok (some (length (l ∷ ls))), h ++ (sent (get (profile_url profile)) ∷ []))
  unfolding existing_golang_launch_with_profile attempt ◌>>=◌ send guard from_option pure
  existing_golang_launch_with_profile-length profile h r l ls e good listed =
      rw (e, good, listed) refl

  -- If the service answers the search for the launches of a profile and a version with one launch or more,
  -- `putProfileLaunch` imports nothing for the profile: behind the search it only reads and removes single
  -- launches, and if the answer lists just one launch, nothing is sent behind the search.
  pub put_profile_existing :
      (profile : Text) (h : List (Event Request)) (r : Response Body) (l : Launch)
      (ls : List Launch)
      → w.respond h (get (profile_url profile)) ≡ ok r
      → is_200 r ≡ true
      → launches_of r.json ≡ some (l ∷ ls)
      → (es : List (Event Request)) × ((put_profile args a host lib w profile h).1
          ≡ h ++ (sent (get (profile_url profile)) ∷ es))
        × All IsReadOrRemove es
        × ((ls ≢ []) ⊎ (es ≡ []))
  unfolding pure
  put_profile_existing profile h r l [] e good listed =
      let found = existing_golang_launch_with_profile-length profile h r l [] e good listed in
      (
        [],
        ap (λ p. p.1) (put_profile-some profile 1 h (ap (λ p. p.0) found)) ∙ ap (λ p. p.1) found,
        tt,
        inr refl,
      )
  put_profile_existing profile h r l (m ∷ ms) e good listed =
      let n = length (l ∷ m ∷ ms) in
      let found = existing_golang_launch_with_profile-length profile h r l (m ∷ ms) e good listed in
      let after =
        existing_golang_launch_with_profile args a host lib w profile (version_text a) h in
      let (ys, ys-trace, ys-all) =
        (Adds-if (ltb 1 n) (delete_fake-IsReadOrRemove (some profile)) (Adds-pure tt)).added
          after.1 in
      (
        ys,
        ap (λ p. p.1) (put_profile-some profile n h (ap (λ p. p.0) found))
            ∙ ys-trace
            ∙ ap (λ p. p.1 ++ ys) found
            ∙ append_assoc h (sent (get (profile_url profile)) ∷ []) ys,
        ys-all,
        inl (λ gone. absurd (cc)),
      )
