-- ===== src/UnifyCi.antt =====
-- pipeline/unifycirp.py, the class UnifyciRPClient: the import of a result file of another system. The
-- requests, the answers and the arguments are those of ReportPortal.
pub mod Reference
mod Tests
use yyou.Common.Maybe.{◌>>=◌ as ◌>>=?◌}
use yyou.Common.{Bool, true, false, List, [], ◌∷◌, ◌++◌, Option, none, some, if◌then◌else◌, map, ℕ}
use yyou.Text.{Text, codes, split, strip, replace, ◌==◌}
use yyou.Dict.{Dict}
use yyou.Settings.{Yaml, scalar, walk}
use yyou.Session.{World, Action, pure, guard, from_option, attempt, ◌>>=◌, ◌>>◌, send, is_200}
use yyou.ReportPortal.{
  Body, Change, create, delete, update, changes, zip_file, Request, get, post, put, Args,
}
use yyou.ReportPortal.Matching.{part}
use yyou.ReportPortal.Launches.{message_of, launch_id_of, AttrAction, to_add, to_update, to_delete}
use yyou.ReportPortal.Import.{ImportArgs, Host}
use yyou.ReportPortal.Values.{file_stem, or_default, not_null}

-- The loop over the dictionary of attribute actions.
unfoldable pub change_list : Dict AttrAction → List Change
change_list [] = []
change_list ((k, to_update oldvalue newvalue) ∷ d) = update k oldvalue newvalue ∷ change_list d
change_list ((k, to_add value) ∷ d) = create k value ∷ change_list d
change_list ((k, to_delete value) ∷ d) = delete k value ∷ change_list d

-- `None` and null are the same.
unfoldable pub get_attr_option : Host → ImportArgs → Text → Option Yaml
unfolding walk split ◌==◌
get_attr_option host a name =
    let attrvalue = ◌>>=?◌ (host.safe_load a.attroption) (walk (split name (codes ":"))) in
    if a.attroption == [] then none else ◌>>=?◌ attrvalue not_null

module _ (args : Args) (a : ImportArgs) (host : Host) where
  -- `attDict`
  unfoldable pub att_dict : Dict AttrAction
  unfolding file_stem replace get_attr_option
  att_dict =
      (codes "name", to_add (scalar (file_stem a.file)))
      ∷ (codes "team", to_add (scalar args.subteam))
      ∷ (codes "version", to_add (scalar (replace a.version (codes ".") (codes "_"))))
      ∷ (
        codes "build_version",
        to_add
            (or_default (codes "nobuildversion") (get_attr_option host a (codes "build_version"))),
      )
      ∷ (codes "pipeline_type", to_add (scalar (codes "unifyci")))
      ∷ (codes "profilename", to_add (scalar a.profilename))
      ∷ (codes "launchtype", to_add (scalar (codes "golang")))
      ∷ (codes "trial", to_add (scalar (codes "\"\"")))
      ∷ []

module _ (args : Args) (a : ImportArgs) (host : Host) (w : World Request Body) where
  unfoldable pub get_launch_id_with_launch_uuid : Text → Action Request (Option ℕ)
  get_launch_id_with_launch_uuid uuid =
      attempt
        (do
          r ← send w (get (args.launch_url ++ codes "/uuid/" ++ uuid))
          guard (is_200 r)
          id ← from_option (launch_id_of r.json)
          pure (some id))
        none

  unfoldable pub handle_launch_attribution : List ℕ → Dict AttrAction → Action Request Bool
  unfolding change_list
  handle_launch_attribution id_list attr_dict =
      attempt
        (do
          r ←
              send w
                (put (args.launch_url ++ codes "/info") (changes (change_list attr_dict) id_list))
          guard (is_200 r)
          pure true)
        false

  unfoldable pub import_result : Action Request Bool
  unfolding split strip att_dict
  import_result =
      attempt
        (do
          guard (host.readable a.file)
          r ← send w (post (args.launch_url ++ codes "/import") (zip_file a.file))
          guard (is_200 r)
          text ← from_option (message_of r.json)
          rest ← from_option (part text (codes "id =") 1)
          uuid ← from_option (part (strip rest) (codes " ") 0)
          found ← get_launch_id_with_launch_uuid uuid
          id ← from_option found
          labelled ← handle_launch_attribution (id ∷ []) (att_dict args a host)
          guard labelled
          pure true)
        false

  unfoldable pub log_result : Action Request Bool
  log_result = attempt import_result false
