-- ===== src/ReportPortal/Import.antt =====
-- pipeline/reportportal.py: `logResult`, `importResult`, `getProfileAttr` and `getAttrOption`.
pub mod Labels
pub mod Found
use yyou.Common.Maybe.{◌>>=◌ as ◌>>=?◌}
use yyou.Common.{
  ℕ, Bool, true, false, not, ◌&&◌, ◌||◌, List, [], ◌∷◌, ◌++◌, Option, none, some, if◌then◌else◌,
  map, ◌==◌ as nat_eq,
}
use yyou.Text.{Text, codes, contains, split, strip, replace, member, ◌==◌}
use yyou.Dict.{Dict, insert}
use yyou.Junit.{Testsuite}
use yyou.Settings.{
  Yaml, null, scalar, literal, sequence, mapping, Elements, none_left, element, find, index, walk,
}
use yyou.Session.{
  World, Action, pure, guard, from_option, attempt, when_some, ◌>>=◌, ◌>>◌, send, is_200,
}
use yyou.ReportPortal.{Launch, Body, zip_file, Request, post, Args}
use yyou.ReportPortal.Matching.{part}
use yyou.ReportPortal.Launches.{
  message_of, AttrAction, to_add, get_launch_id_with_launch_name, get_launch_id_with_launch_uuid,
  handle_launch_attribution,
}
use yyou.ReportPortal.Values.{
  split_ext, file_stem, not_null, or_default, has_key, first_of, is_text_value,
}
use yyou.ReportPortal.Rerun.{rerun_result}

-- The arguments of the command line that only these methods read.
pub record ImportArgs : Type 0 where
  pub file : Text
  pub version : Text
  pub attroption : Text
  pub profilename : Text
  pub profilepath : Text
  pub triallaunch : Text

-- The machine: whether a file can be opened, what `yaml.safe_load` returns for a file and for a text and
-- the parser of XML for a file, where they do not raise, and `int(float(text))`.
pub record Host : Type 0 where
  pub readable : Text → Bool
  pub yaml_file : Text → Option Yaml
  pub safe_load : Text → Option Yaml
  pub xml_file : Text → Option Testsuite
  pub seconds : Text → Option ℕ

unfoldable pub get_profile_attr : Host → ImportArgs → Option Yaml
get_profile_attr host a =
    ◌>>=?◌ (host.yaml_file (a.profilepath ++ (a.profilename ++ codes ".test_run.yaml"))) not_null

unfoldable pub get_attr_option : Host → ImportArgs → Text → Option Yaml
unfolding walk split ◌==◌
get_attr_option host a name =
    let value =
      ◌>>=?◌ (◌>>=?◌ (host.safe_load a.attroption) (walk (split name (codes ":")))) not_null in
    if a.attroption == [] then none else value

abbrev pub attr_key_list : List Text
attr_key_list =
    codes "plannedin"
    ∷ codes "caseautomation"
    ∷ codes "env_network_plugin"
    ∷ codes "env_container_runtime"
    ∷ codes "env_auth"
    ∷ codes "env_iaas_cloud_provider"
    ∷ codes "env_os"
    ∷ codes "env_docker_storage_driver"
    ∷ codes "env_install_method"
    ∷ codes "env_network_backend"
    ∷ codes "env_cluster"
    ∷ codes "env_fips"
    ∷ codes "env_disconnected"
    ∷ codes "env_behind_proxy"
    ∷ codes "env_private_cluster"
    ∷ codes "env_networking_address"
    ∷ codes "products"
    ∷ []

-- The loop over the keys of a profile.
unfoldable pub add_fields : Yaml → List Text → Dict AttrAction → Option (Dict AttrAction)
unfolding has_key index first_of insert ◌==◌
add_fields fields [] att_dict = some att_dict
add_fields fields (k ∷ ks) att_dict = ◌>>=?◌ (has_key fields k) λ there.
    let value =
      ◌>>=?◌ (index fields k) (λ v. if k == codes "products" then first_of v else some v) in
    ◌>>=?◌
      (if there then ◌>>=?◌ value (λ v. some (insert k (to_add v) att_dict)) else some att_dict)
      (add_fields fields ks)

abbrev pub first_launch : List Launch → Option Launch
first_launch [] = none
first_launch (l ∷ ls) = some l

module _ (args : Args) (a : ImportArgs) (host : Host) where
  abbrev pub add_text : Text → AttrAction
  add_text t = to_add (scalar t)

  unfoldable pub first_attributes : Dict AttrAction
  unfolding file_stem replace get_attr_option
  first_attributes =
      (codes "name", add_text (file_stem a.file))
      ∷ (codes "team", add_text args.subteam)
      ∷ (codes "version", add_text (replace a.version (codes ".") (codes "_")))
      ∷ (
        codes "build_version",
        to_add
            (or_default (codes "nobuildversion") (get_attr_option host a (codes "build_version"))),
      )
      ∷ (
        codes "pipeline_type",
        to_add (or_default (codes "notpipeline") (get_attr_option host a (codes "pipeline_type"))),
      )
      ∷ (codes "gbuildnum", add_text args.buildnum)
      ∷ (codes "launchtype", add_text (codes "golang"))
      ∷ []

  abbrev pub telco : Yaml
  telco =
      or_default (codes "unknowntelcoprofilename")
        (get_attr_option host a (codes "telco_profile_name"))

  abbrev pub trial_key : Text
  trial_key = if a.triallaunch == codes "yes" then codes "trial" else codes "nontrial"

  -- `attDict`, with a profile or without.
  unfoldable pub import_attributes : Option Yaml → Option (Dict AttrAction)
  unfolding first_attributes is_text_value add_fields index
  import_attributes none = some (
      if is_text_value telco (codes "unknowntelcoprofilename")
      then first_attributes
      else first_attributes ++ ((codes "profilename", to_add telco) ∷ []))
  import_attributes (some att_map) = ◌>>=?◌ (index att_map (codes "custom_fields")) λ fields.
      add_fields fields attr_key_list (
        first_attributes
        ++ ((
          codes "profilename",
          (if is_text_value telco (codes "unknowntelcoprofilename")
              then add_text a.profilename
              else to_add telco),
        )
            ∷ (trial_key, add_text (codes "\"\""))
            ∷ []))

  -- `message.split("id =")[1].strip().split(" ")[0]`
  unfoldable pub new_uuid : Text → Option Text
  unfolding split strip
  new_uuid text = ◌>>=?◌ (part text (codes "id =") 1) (λ rest. part (strip rest) (codes " ") 0)

  unfoldable pub import_result : World Request Body → Action Request Bool
  import_result w =
      attempt
        (do
          guard (host.readable a.file)
          r ← send w (post (args.launch_url ++ codes "/import") (zip_file a.file))
          guard (is_200 r)
          text ← from_option (message_of r.json)
          uuid ← from_option (new_uuid text)
          found ← get_launch_id_with_launch_uuid args w uuid
          id ← from_option found
          att_dict ← from_option (import_attributes (get_profile_attr host a))
          labelled ← handle_launch_attribution args w (id ∷ []) att_dict
          guard labelled
          pure true)
        false

  unfoldable pub log_result : World Request Body → Action Request Bool
  log_result w =
      attempt
        (do
          let launchname : Text = file_stem a.file
          existinglaunch ←
              get_launch_id_with_launch_name args w launchname
                (some (codes "team", some args.subteam))
          when_some existinglaunch (import_result w) λ ls. do
            l ← from_option (first_launch ls)
            rerun_result args w host.seconds launchname l
                (host.xml_file (codes "import-" ++ (args.subteam ++ codes ".xml"))))
        false
