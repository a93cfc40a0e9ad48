-- ===== src/UnifyCi/Reference.antt =====
-- pipeline/unifycirp.py: its methods against those of pipeline/reportportal.py.
use mathlib.Core.Path.{fun_ext}
use yyou.Common.Maybe.{◌>>=◌ as ◌>>=?◌}
use yyou.Common.{
  ℕ, ◌≡◌, ◌≢◌, refl, ap, ◌∙◌, sym, Bool, true, false, List, [], ◌∷◌, ◌++◌, Option, none, some, map,
}
use yyou.Text.{codes, strip, ◌==◌}
use yyou.Dict.{Dict, lookup}
use yyou.Session.{World, Action, pure, guard, from_option, attempt, ◌>>=◌, ◌>>◌, send, is_200}
use yyou.ReportPortal.{Launch, Body, zip_file, Request, post, Args}
use yyou.ReportPortal.Matching.{part}
use yyou.ReportPortal.Launches as Launches
use yyou.ReportPortal.Launches.{
  message_of, AttrAction, to_add, to_update, to_delete, change_of, select_launches,
}
use yyou.ReportPortal.Import as Import
use yyou.ReportPortal.Import.{ImportArgs, Host, new_uuid, import_attributes, get_profile_attr}
use yyou.ReportPortal.Import.Labels.{changed, labelled-selected, IsLabelled}
use yyou.UnifyCi.{
  change_list, att_dict, get_launch_id_with_launch_uuid, handle_launch_attribution, import_result,
  log_result,
}

change_list-map : (d : Dict AttrAction) → change_list d ≡ map change_of d
unfolding change_list change_of
change_list-map [] = refl
change_list-map ((k, to_update o n) ∷ d) = rw (change_list-map d) refl
change_list-map ((k, to_add v) ∷ d) = rw (change_list-map d) refl
change_list-map ((k, to_delete v) ∷ d) = rw (change_list-map d) refl

module _ {R : Type 0} where
  from_option-bind {ℓ} :
      {A B : Type 0} {C : Type ℓ} (o : Option A) (f : A → Option B) (k : B → Action R C)
      → (from_option o >>= λ x. from_option (f x) >>= k) ≡ (from_option (◌>>=?◌ o f) >>= k)
  unfolding from_option ◌>>=◌
  from_option-bind none f k = refl
  from_option-bind (some x) f k = refl

  some-bind {ℓ} :
      {A : Type 0} {C : Type ℓ} (x : A) (k : A → Action R C) → (from_option (some x) >>= k) ≡ k x
  unfolding from_option ◌>>=◌
  some-bind x k = refl

  bind-cong {ℓ} :
      {A : Type 0} {C : Type ℓ} (m : Action R A) (f g : A → Action R C)
      → ((x : A) → f x ≡ g x)
      → (m >>= f) ≡ (m >>= g)
  bind-cong m f g same = ap (◌>>=◌ m) (fun_ext same)

module _ (args : Args) (a : ImportArgs) (host : Host) (w : World Request Body) where
  abbrev labelling : ℕ → Dict AttrAction → Action Request Bool
  labelling id d = do
    labelled ← Launches.handle_launch_attribution args w (id ∷ []) d
    guard labelled
    pure true

  -- The import of a file, for the attributes that the new launch gets. `none` raises.
  unfoldable pub import_with : Option (Dict AttrAction) → Action Request Bool
  import_with attributes =
      attempt
        (do
          guard (host.readable a.file)
          r ← send w (post (args.launch_url ++ codes "/import") (zip_file a.file))
          guard (is_200 r)
          text ← from_option (message_of r.json)
          uuid ← from_option (new_uuid args a host text)
          found ← Launches.get_launch_id_with_launch_uuid args w uuid
          id ← from_option found
          d ← from_option attributes
          labelling id d)
        false

  handle_launch_attribution-same :
      (is : List ℕ) (d : Dict AttrAction)
      → handle_launch_attribution args a host w is d
        ≡ Launches.handle_launch_attribution args w is d
  unfolding handle_launch_attribution Launches.handle_launch_attribution
  handle_launch_attribution-same is d = rw (change_list-map d) refl

  reportportal-import_with :
      Import.import_result args a host w
      ≡ import_with (import_attributes args a host (get_profile_attr host a))
  unfolding Import.import_result import_with
  reportportal-import_with = refl

  unifyci-import_with : import_result args a host w ≡ import_with (some (att_dict args a host))
  unfolding import_result import_with new_uuid get_launch_id_with_launch_uuid
      Launches.get_launch_id_with_launch_uuid
  unifyci-import_with =
      ap (λ m. attempt m false)
        (bind-cong (guard (host.readable a.file)) _ _ λ u. bind-cong _ _ _ λ r. bind-cong _ _ _ λ v.
          bind-cong _ _ _ λ text.
            from_option-bind (part text (codes "id =") 1) (λ rest. part (strip rest) (codes " ") 0)
              _
            ∙ bind-cong (from_option (new_uuid args a host text)) _ _ λ uuid.
              bind-cong (Launches.get_launch_id_with_launch_uuid args w uuid) _ _ λ found.
                bind-cong (from_option found) _ _ λ id.
                  ap (λ m. m >>= λ labelled. guard labelled >> pure true)
                    (handle_launch_attribution-same (id ∷ []) (att_dict args a host))
                  ∙ sym (some-bind (att_dict args a host) (labelling id)))

  -- Both imports of a result file, `logResult` of unifycirp.py and `importResult` of reportportal.py, do
  -- the same requests with the same results: they are one procedure, given the attributes of the new
  -- launch. Those of unifycirp.py are always there.
  pub import_result-import_with :
      (Import.import_result args a host w
        ≡ import_with (import_attributes args a host (get_profile_attr host a)))
      × (log_result args a host w ≡ import_with (some (att_dict args a host)))
  unfolding log_result attempt import_result
  import_result-import_with = (reportportal-import_with, refl ∙ unifyci-import_with)

  att_dict-IsLabelled : IsLabelled args a host (att_dict args a host)
  unfolding att_dict lookup ◌==◌
  att_dict-IsLabelled = (refl, refl)

  -- A launch `l` with the changes that unifycirp.py asks for is found by the search of `logResult` of
  -- reportportal.py for a launch of the subteam.
  att_dict-IsFound :
      (l : Launch)
      → select_launches
          (some (codes "team", some args.subteam))
          (changed (change_list (att_dict args a host)) l ∷ [])
        ≢ []
  att_dict-IsFound l =
      rw (change_list-map (att_dict args a host))
        (labelled-selected args a host (att_dict args a host) l att_dict-IsLabelled)
