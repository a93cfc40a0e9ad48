-- ===== src/ReportPortal/Profiles.antt =====
-- pipeline/reportportal.py: `existingGolangLaunchWithProfile`, `getFakeGolangLaunchProfileList` and
-- `putProfileLaunch`, which keep one launch for every profile. The directory of the profiles,
-- `urllib.parse.quote` and the order in which `list(set(…))` lists are parameters.
pub mod Work
pub mod Existing
use yyou.Common.{
  ℕ, Bool, true, false, not, ◌&&◌, ◌||◌, List, [], ◌∷◌, ◌++◌, Option, none, some, if◌then◌else◌,
  map, length, ltb, ◌==◌ as nat_eq,
}
use yyou.Text.{Text, codes, replace, member, ◌==◌}
use yyou.Session.{
  World, Action, pure, guard, from_option, attempt, when_some, ◌>>=◌, ◌>>◌, send, is_200,
}
use yyou.ReportPortal.{Attr, Launch, Body, Request, get, Args, is_text}
use yyou.ReportPortal.Launches.{launches_of, get_launch_id_with_launch_name, delete_launch_by_id}
use yyou.ReportPortal.Import.{ImportArgs, Host, first_launch, import_result}
use yyou.ReportPortal.Values.{split_ext}

-- `os.listdir(pathToProfile)`, where it does not raise, whether a name in the directory is that of a
-- file, `urllib.parse.quote` and `list(set(…))`.
pub record Library : Type 0 where
  pub listdir : Option (List Text)
  pub is_file : Text → Bool
  pub quote : Text → Text
  pub distinct : List (Option Text) → List (Option Text)

-- `s.endswith(p)`
unfoldable pub ends_with : Text → Text → Bool
unfolding ◌==◌
ends_with [] p = [] == p
ends_with (c ∷ s) p = (c ∷ s) == p || ends_with s p

-- The names of the profiles among the names in the directory.
unfoldable pub profile_list : Library → List Text → List Text
unfolding ends_with split_ext
profile_list lib [] = []
profile_list lib (f ∷ fs) =
    let rest = profile_list lib fs in
    if ends_with f (codes ".test_run.yaml")
      && (not (ends_with f (codes "destructive.test_run.yaml")) && lib.is_file f)
    then split_ext (split_ext f) ∷ rest
    else rest

-- `existingProfile in profileList`, where the profile may be null
abbrev pub is_listed : Option Text → List Text → Bool
is_listed none profiles = false
is_listed (some p) profiles = member p profiles

unfoldable pub profiles_of : List Attr → List (Option Text)
unfolding is_text
profiles_of [] = []
profiles_of (a ∷ as') =
    let rest = profiles_of as' in
    if is_text a.key (codes "profilename") then a.value ∷ rest else rest

unfoldable pub all_profiles : List Launch → List (Option Text)
unfolding profiles_of
all_profiles [] = []
all_profiles (l ∷ ls) = profiles_of l.attributes ++ all_profiles ls

-- `None` stands for no launch.
abbrev pub count_of : List Launch → Option ℕ
count_of [] = none
count_of (l ∷ ls) = some (length (l ∷ ls))

abbrev pub with_profile : ImportArgs → Text → ImportArgs
with_profile a profile = record {
  file = a.file;
  version = a.version;
  attroption = a.attroption;
  profilename = profile;
  profilepath = a.profilepath;
  triallaunch = a.triallaunch;
}

abbrev pub fake_name : ImportArgs → Text
fake_name a = codes "00000000-00" ++ replace a.version (codes ".") []

abbrev pub version_text : ImportArgs → Text
version_text a = replace a.version (codes ".") (codes "_")

module _ (args : Args) (a : ImportArgs) (host : Host) (lib : Library) (w : World Request Body) where
  unfoldable pub existing_golang_launch_with_profile : Text → Text → Action Request (Option ℕ)
  existing_golang_launch_with_profile profilename version =
      attempt
        (do
          r ← send w (
              get (
                args.launch_url
                ++ codes "?page.page=1&page.size=10&filter.has.attributeValue="
                ++ lib.quote (profilename ++ codes "," ++ version ++ codes ",golang")))
          guard (is_200 r)
          content ← from_option (launches_of r.json)
          pure (count_of content))
        none

  unfoldable pub get_fake_golang_launch_profile_list :
      Text → Text → Action Request (Option (List (Option Text)))
  unfolding all_profiles
  get_fake_golang_launch_profile_list launchname version =
      attempt
        (do
          r ← send w (
              get (
                args.launch_url
                ++ codes "?page.page=1&page.size=300&filter.has.attributeValue="
                ++ lib.quote (version ++ codes ",golang")
                ++ codes "&filter.eq.name="
                ++ launchname))
          guard (is_200 r)
          content ← from_option (launches_of r.json)
          pure (some (lib.distinct (all_profiles content))))
        none

  -- The first of the launches with the name and the profile is removed, if there is one.
  unfoldable pub delete_fake : Option Text → Action Request (Unit {0})
  delete_fake profile = do
    existinglaunch ←
        get_launch_id_with_launch_name args w (fake_name a) (some (codes "profilename", profile))
    when_some existinglaunch (pure tt)
        λ ls. do l ← from_option (first_launch ls); delete_launch_by_id args w l.id; pure tt

  -- The loop over the profiles that have a launch.
  unfoldable pub delete_removed : List Text → List (Option Text) → Action Request (Unit {0})
  unfolding member
  delete_removed profiles [] = pure tt
  delete_removed profiles (p ∷ ps) =
      (if not (is_listed p profiles) then delete_fake p else pure tt) >> delete_removed profiles ps

  unfoldable pub put_profile : Text → Action Request (Unit {0})
  put_profile profile = do
    existing ← existing_golang_launch_with_profile profile (version_text a)
    when_some existing (import_result args (with_profile a profile) host w >> pure tt)
        λ n. if ltb 1 n then delete_fake (some profile) else pure tt

  unfoldable pub put_profiles : List Text → Action Request (Unit {0})
  put_profiles [] = pure tt
  put_profiles (p ∷ ps) = put_profile p >> put_profiles ps

  unfoldable pub put_profile_launch : Action Request (Unit {0})
  unfolding profile_list
  put_profile_launch = do
    names ← from_option lib.listdir
    let profiles = profile_list lib names
    if nat_eq (length profiles) 0 then pure tt else do
      found ← get_fake_golang_launch_profile_list (fake_name a) (version_text a)
      when_some found (pure tt) (delete_removed profiles)
      put_profiles profiles
