-- ===== src/ReportPortal/ImportTests.antt =====
-- pipeline/reportportal.py: runs of the imports against small services.
use yyou.Common.{ℕ, ◌≡◌, ◌≢◌, ◌⊎◌, refl, true, List, [], ◌∷◌, Option, none, some, All, map}
use yyou.Text.{Text, codes}
use yyou.Dict.{Dict}
use yyou.Junit.{Testsuite}
use yyou.Session.{sent, World, Event, ok, effects}
use yyou.Session.Trace.{Adds}
use yyou.ReportPortal.{
  Launch, launches, Body, message, launch_id, other, Request, get, post, put, remove,
}
use yyou.ReportPortal.Tests.{args, launch, service}
use yyou.ReportPortal.Launches.{
  change_of, select_launches, AttrAction, get_launch_id_with_launch_uuid, handle_launch_attribution,
}
use yyou.ReportPortal.Import.{
  ImportArgs, Host, import_result, import_attributes, get_profile_attr, new_uuid,
}
use yyou.ReportPortal.Import.Labels.{changed}
use yyou.ReportPortal.Import.Found.{import_result-IsFound, IsImported, IsNew}
use yyou.ReportPortal.Profiles.{Library, profile_list, put_profile, put_profile_launch}
use yyou.ReportPortal.Profiles.Work.{put_profile_launch-IsProfileWork, IsProfileWork}
use yyou.ReportPortal.Profiles.Existing.{put_profile_existing, profile_url, IsReadOrRemove}

-- It imports every file.
abbrev import_reply : Request → Body
import_reply (get url) = launch_id 5
import_reply (post url json) = message (codes "launch with id = ab is imported")
import_reply (put url json) = other
import_reply (remove url json) = other

abbrev pub importer : World Request Body
importer = record {
  respond = λ h r. ok (record { status_code = 200; text = []; json = import_reply r });
  clock = service.clock;
}

abbrev suite : Testsuite
suite = record {
  name = codes "s";
  time = codes "3";
  tests = none;
  failures = none;
  skipped = none;
  errors = none;
  cases = [];
}

abbrev three : Text → Option ℕ
three t = some 3

abbrev pub import_args : ImportArgs
import_args = record {
  file = codes "d/import-OLM.zip";
  version = codes "4.10";
  attroption = [];
  profilename = codes "p";
  profilepath = [];
  triallaunch = codes "no";
}

abbrev pub host : Host
host = record {
  readable = λ f. true;
  yaml_file = λ f. none;
  safe_load = λ t. none;
  xml_file = λ f. some suite;
  seconds = three;
}

imported : (import_result args import_args host importer []).0 ≡ ok true
unfolding import_result new_uuid get_launch_id_with_launch_uuid get_profile_attr import_attributes
    handle_launch_attribution effects
imported = refl

import_result-IsFound_example :
    (id : ℕ) × (d : Dict AttrAction) × (before : List (Event Request)) × IsNew args import_args host
      importer [] id
    × (import_attributes args import_args host (get_profile_attr host import_args) ≡ some d)
    × IsImported args import_args host importer id d before
        (import_result args import_args host importer []).1
    × (select_launches
          (some (codes "team", some args.subteam))
          (changed (map change_of d) launch ∷ [])
        ≢ [])
import_result-IsFound_example =
    import_result-IsFound args import_args host importer [] launch imported

abbrev library : Library
library = record {
  listdir = some (codes "aws.test_run.yaml" ∷ codes "README.md" ∷ []);
  is_file = λ f. true;
  quote = λ t. t;
  distinct = λ ps. ps;
}

profiles :
    profile_list library (codes "aws.test_run.yaml" ∷ codes "README.md" ∷ []) ≡ codes "aws" ∷ []
unfolding profile_list
profiles = refl

put_profile_launch-IsProfileWork_example :
    Adds
      (IsProfileWork args import_args host library service)
      (put_profile_launch args import_args host library service)
put_profile_launch-IsProfileWork_example =
    put_profile_launch-IsProfileWork args import_args host library service

abbrev no_more : List Launch
no_more = []

put_profile_existing_example :
    (es : List (Event Request)) × ((put_profile args import_args host library service
        (codes "aws")
        []).1
      ≡ sent (get (profile_url args import_args host library service (codes "aws"))) ∷ es)
    × All (IsReadOrRemove args import_args host library service) es
    × ((no_more ≢ []) ⊎ (es ≡ []))
put_profile_existing_example =
    put_profile_existing args import_args host library service (codes "aws") []
      (record { status_code = 200; text = []; json = launches (launch ∷ []) }) launch no_more refl
      refl refl
