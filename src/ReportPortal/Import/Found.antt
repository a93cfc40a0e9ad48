-- ===== src/ReportPortal/Import/Found.antt =====
-- pipeline/reportportal.py: the launch that `importResult` has made is one that `logResult` finds.
use yyou.Common.{ℕ, ◌≡◌, ◌≢◌, refl, ap, sym, ◌∙◌, Bool, true, false, List, [], ◌∷◌, ◌++◌, some, map}
use yyou.Text.{Text, codes}
use yyou.Dict.{Dict}
use yyou.Session.{
  World, Event, sent, Outcome, ok, raised, Response, pure, guard, attempt, and_then, ◌>>=◌, ◌>>◌,
  send, is_200,
}
use yyou.Session.Steps.{bind-ok, from_option-ok, guard-ok, attempt-true, attempt-some}
use yyou.ReportPortal.{Launch, Body, changes, Request, get, post, put, zip_file, Args}
use yyou.ReportPortal.Launches.{
  message_of, launch_id_of, get_launch_id_with_launch_uuid, AttrAction, change_of, select_launches,
  handle_launch_attribution,
}
use yyou.ReportPortal.Import.{
  ImportArgs, Host, new_uuid, import_attributes, get_profile_attr, import_result,
}
use yyou.ReportPortal.Import.Labels.{changed, labelled-selected, import_attributes-IsLabelled}

module _ (args : Args) (a : ImportArgs) (host : Host) (w : World Request Body) where
  abbrev pub info_url : Text
  info_url = args.launch_url ++ codes "/info"

  guarded-trace : (b : Bool) (h : List (Event Request)) → ((guard b >> pure true) h).1 ≡ h
  unfolding guard pure ◌>>=◌
  guarded-trace true h = refl
  guarded-trace false h = refl

  handle_launch_attribution-trace :
      (is : List ℕ) (d : Dict AttrAction) (h : List (Event Request))
      → (handle_launch_attribution args w is d h).1
        ≡ h ++ (sent (put info_url (changes (map change_of d) is)) ∷ [])
  unfolding handle_launch_attribution send ◌>>=◌ attempt
  handle_launch_attribution-trace is d h =
      no_more (w.respond h (put info_url (changes (map change_of d) is)))
        (h ++ (sent (put info_url (changes (map change_of d) is)) ∷ []))
    where
      no_more :
          (r : Outcome (Response Body)) (h' : List (Event Request))
          → (and_then r (λ x. guard (is_200 x) >> pure true) h').1 ≡ h'
      no_more raised h' = refl
      no_more (ok x) h' = guarded-trace (is_200 x) h'

  -- The service has answered 200 to a request.
  abbrev pub IsAccepted : List (Event Request) → Request → Type 0
  IsAccepted h request = (r : Response Body) × (w.respond h request ≡ ok r) × (is_200 r ≡ true)

  handle_launch_attribution-IsAccepted :
      (is : List ℕ) (d : Dict AttrAction) (h : List (Event Request))
      → (handle_launch_attribution args w is d h).0 ≡ ok true
      → IsAccepted h (put info_url (changes (map change_of d) is))
  unfolding handle_launch_attribution send
  handle_launch_attribution-IsAccepted is d h e =
      let (e0, _) = attempt-true _ h e in
      let (r, m1, e1, _) = bind-ok _ _ h e0 in
      let (_, m2, _, _) = bind-ok _ _ _ e1 in (r, m1, guard-ok (is_200 r) _ m2)

  guard-trace : (b : Bool) (h : List (Event Request)) → (guard b h).1 ≡ h
  unfolding guard
  guard-trace true h = refl
  guard-trace false h = refl

  -- The launch with this id is the one that the import after `h` has made: the service has accepted the
  -- file with a message that names a uuid, and has answered a request for the launch with that uuid with
  -- the id.
  pub record IsNew (h : List (Event Request)) (id : ℕ) : Type 0 where
    pub text : Text
    pub uuid : Text
    pub before : List (Event Request)
    pub accepted :
        (r : Response Body) × (w.respond h
            (post (args.launch_url ++ codes "/import") (zip_file a.file))
          ≡ ok r)
        × (is_200 r ≡ true)
        × (message_of r.json ≡ some text)
    pub named : new_uuid args a host text ≡ some uuid
    pub answered :
        (r : Response Body) × (w.respond before (get (args.launch_url ++ codes "/uuid/" ++ uuid))
          ≡ ok r)
        × (is_200 r ≡ true)
        × (launch_id_of r.json ≡ some id)

  abbrev IsIdOf : Text → List (Event Request) → ℕ → Type 0
  IsIdOf uuid before id =
      (r : Response Body) × (w.respond before (get (args.launch_url ++ codes "/uuid/" ++ uuid))
        ≡ ok r)
      × (is_200 r ≡ true)
      × (launch_id_of r.json ≡ some id)

  get_launch_id-IsIdOf :
      (uuid : Text) (id : ℕ) (h : List (Event Request))
      → (get_launch_id_with_launch_uuid args w uuid h).0 ≡ ok (some id)
      → IsIdOf uuid h id
  unfolding get_launch_id_with_launch_uuid send pure
  get_launch_id-IsIdOf uuid id h e =
      let (body, _) = attempt-some _ h e in
      let (r, e0, e1, _) = bind-ok _ _ h body in
      let (_, e1', e2, _) = bind-ok _ _ _ e1 in
      let (found, e2', e3, _) = bind-ok _ _ _ e2 in
      let same : found ≡ id = cc in
      (r, e0, guard-ok (is_200 r) _ e1', from_option-ok _ found _ e2' ∙ ap some same)

  abbrev pub IsImported : ℕ → Dict AttrAction → List (Event Request) → List (Event Request) → Type 0
  IsImported id d h end =
      IsAccepted h (put info_url (changes (map change_of d) (id ∷ [])))
      × (end ≡ h ++ (sent (put info_url (changes (map change_of d) (id ∷ []))) ∷ []))

  -- An import that returns `True` has ended with a request to set attributes of the new launch, which the
  -- service has answered with 200: the launch whose id the service has given for the uuid in the message
  -- with which it has accepted the file. The changes are those of `attDict`, and a launch `l` with them is
  -- found by the search of `logResult` for a launch of the subteam.
  pub import_result-IsFound :
      (h : List (Event Request)) (l : Launch)
      → (import_result args a host w h).0 ≡ ok true
      → (id : ℕ) × (d : Dict AttrAction) × (before : List (Event Request)) × IsNew h id
        × (import_attributes args a host (get_profile_attr host a) ≡ some d)
        × IsImported id d before (import_result args a host w h).1
        × (select_launches
              (some (codes "team", some args.subteam))
              (changed (map change_of d) l ∷ [])
            ≢ [])
  unfolding import_result send
  import_result-IsFound h l e =
      let (e0, t0) = attempt-true _ h e in
      let (_, _, e1, t1) = bind-ok _ _ h e0 in
      let (r, m2, e2, t2) = bind-ok _ _ _ e1 in
      let (_, m3, e3, t3) = bind-ok _ _ _ e2 in
      let (text, m4, e4, t4) = bind-ok _ _ _ e3 in
      let (uuid, m5, e5, t5) = bind-ok _ _ _ e4 in
      let (found, m6, e6, t6) = bind-ok _ _ _ e5 in
      let (id, m7, e7, t7) = bind-ok _ _ _ e6 in
      let (d, m8, e8, t8) = bind-ok _ _ _ e7 in
      let (b, m9, e9, t9) = bind-ok _ _ _ e8 in
      let same : import_attributes args a host (get_profile_attr host a) ≡ some d =
        from_option-ok _ d _ m8 in
      let (_, m10, _, _) = bind-ok _ _ _ e9 in
      let yes : b ≡ true = guard-ok b _ m10 in
      (
        id,
        d,
        _,
        record {
          text = text;
          uuid = uuid;
          before = _;
          accepted = (
            r,
            ap (λ t. w.respond t (post (args.launch_url ++ codes "/import") (zip_file a.file)))
                  (sym (guard-trace (host.readable a.file) h))
                ∙ m2,
            guard-ok (is_200 r) _ m3,
            from_option-ok _ text _ m4,
          );
          named = from_option-ok _ uuid _ m5;
          answered = get_launch_id-IsIdOf uuid id _ (m6 ∙ ap ok (from_option-ok found id _ m7));
        },
        same,
        (
          handle_launch_attribution-IsAccepted (id ∷ []) d _ (m9 ∙ ap ok yes),
          t0
              ∙ t1
              ∙ t2
              ∙ t3
              ∙ t4
              ∙ t5
              ∙ t6
              ∙ t7
              ∙ t8
              ∙ t9
              ∙ guarded-trace b _
              ∙ handle_launch_attribution-trace (id ∷ []) d _,
        ),
        labelled-selected args a host d l
            (import_attributes-IsLabelled args a host (get_profile_attr host a) d same),
      )
