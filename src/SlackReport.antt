-- ===== src/SlackReport.antt =====
-- pipeline/auto_result_tool/collect_result_to_slack.py, the class SummaryClient: the answers of the
-- service, the arguments and `checkSubteam`.
pub mod Launches
pub mod Collect
pub mod Message
mod Tests
use yyou.Common.{
  ℕ, Bool, true, false, not, ◌&&◌, ◌||◌, ◌+◌, leb, List, [], ◌∷◌, ◌++◌, Option, none, some,
  if◌then◌else◌,
}
use yyou.Text.{lower, Text, codes, split, strip, member, ◌==◌}
use yyou.Dict.{Dict, keys}
use yyou.ReportPortal.{Attr, Item}

-- A launch of an answer with its statistics: `total`, `failed` and `skipped` of its executions and the
-- total of `to_investigate` of its defects. All but the first may be missing.
pub record Launch : Type 0 where
  pub id : ℕ
  pub name : Text
  pub total : ℕ
  pub failed : Option ℕ
  pub skipped : Option ℕ
  pub to_investigate : Option ℕ
  pub attributes : List Attr

-- `r.json()`. At a body of another form the accesses raise.
pub data Body : Type 0 where
  launches : List Launch → Body
  items : List Item → Body
  other : Body

-- A message is sent as a section of markdown.
pub data Request : Type 0 where
  get : (url : Text) → Request
  post : (url notification : Text) → Request

-- The arguments of the command line and the URLs that `__init__` derives from them.
pub record Args : Type 0 where
  pub launch_url : Text
  pub item_url : Text
  pub ui_url : Text
  pub jenkins_url : Text
  pub slack_url : Text
  pub launchnames : Text
  pub subteam : Text
  pub release_version : Text
  pub cluster : Text
  pub filter_type : Text
  pub silence : Bool
  pub additional_message : Text

-- `SummaryClient.SUBTEAM_OWNER`
unfoldable pub subteam_owner : Dict Text
subteam_owner =
    (codes "SDN", codes "")
    ∷ (codes "STORAGE", codes "")
    ∷ (codes "Developer_Experience", codes "")
    ∷ (codes "User_Interface", codes "")
    ∷ (codes "PerfScale", codes "")
    ∷ (codes "Service_Development_B", codes "")
    ∷ (codes "NODE", codes "")
    ∷ (codes "Logging", codes "")
    ∷ (codes "Apiserver_and_Auth", codes "")
    ∷ (codes "Workloads", codes "")
    ∷ (codes "Metering", codes "")
    ∷ (codes "Cluster_Observability", codes "")
    ∷ (codes "Quay/Quay.io", codes "")
    ∷ (codes "Cluster_Infrastructure", codes "")
    ∷ (codes "Multi-Cluster", codes "")
    ∷ (codes "Cluster_Operator", codes "")
    ∷ (codes "Azure", codes "")
    ∷ (codes "Network_Edge", codes "")
    ∷ (codes "ETCD", codes "")
    ∷ (codes "Installer", codes "")
    ∷ (codes "Portfolio_Integration", codes "")
    ∷ (codes "Service_Development_A", codes "")
    ∷ (codes "OLM", codes "@olm-qe-team ")
    ∷ (codes "Operator_SDK", codes "@jfan ")
    ∷ (codes "App_Migration", codes "")
    ∷ (codes "Windows_Containers", codes "")
    ∷ (codes "Security_and_Compliance", codes "")
    ∷ (codes "KNI", codes "")
    ∷ (codes "Openshift_Jenkins", codes "")
    ∷ (codes "RHV", codes "")
    ∷ (codes "ISV_Operators", codes "")
    ∷ (codes "PSAP", codes "")
    ∷ (codes "Multi-Cluster-Networking", codes "")
    ∷ (codes "OTA", codes "")
    ∷ (codes "Kata", codes "")
    ∷ (codes "Build_API", codes "")
    ∷ (codes "Image_Registry", codes "@imageregistry-qe-team ")
    ∷ (codes "Container_Engine_Tools", codes "")
    ∷ (codes "MCO", codes "@rioliu ")
    ∷ (codes "API_Server", codes "")
    ∷ (codes "Authentication", codes "")
    ∷ (codes "Hypershift", codes "")
    ∷ (codes "Network_Observability", codes "")
    ∷ []

unfoldable pub is_all : Text → Bool
unfolding lower ◌==◌
is_all subteam = lower subteam == codes "all"

unfoldable pub valid_names : List Text → Bool
unfolding strip member keys subteam_owner ◌==◌
valid_names [] = true
valid_names (s ∷ ss) =
    (strip s == codes "isv]" || member (strip s) (keys subteam_owner)) && valid_names ss

-- `checkSubteam`: `false` raises.
unfoldable pub check_subteam : Args → Bool
unfolding is_all valid_names split
check_subteam args = is_all args.subteam || valid_names (split args.subteam (codes ":"))
