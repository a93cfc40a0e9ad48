-- ===== src/Rule.antt =====
-- hack/rule.py: the check of the titles that the last commits add. The output of git and the engine of
-- `re` are parameters; `findall` of a pattern lists the matches, or the groups of each match.
pub mod Describes
mod Tests
use yyou.Common.{ℕ, Bool, true, false, not, ◌&&◌, ◌||◌, List, [], ◌∷◌, ◌++◌, if◌then◌else◌}
use yyou.Text.{Text, codes, contains, split, replace, lower}

pub record Engine : Type 0 where
  pub findall : (pattern text : Text) → List Text
  pub findall_three : (pattern text : Text) → List (Text × Text × Text)
  pub findall_four : (pattern text : Text) → List (Text × Text × Text × Text)

unfoldable pub sig_name_list : List Text
unfolding split replace
sig_name_list =
    split
      (replace
        (codes
          "sig-arch,sig-isc,sig-api-machinery,sig-auth,sig-apps,sig-cli,sig-scheduling,sig-etcd,sig-network,sig-network-edge,sig-storage,sig-openshift-logging,sig-devex, sig-builds,sig-ui,sig-instrumentation,sig-service-catalog,sig-operators,sig-imageregistry,sig-service-catalog,sig-hive,sig-windows,sig-testing,sig-scalability,sig-node,sig-node,sig-cluster-lifecycle,sig-node,sig-netobserv")
        (codes " ") [])
      (codes ",")

unfoldable pub sub_team_list : List Text
unfolding split replace
sub_team_list =
    split
      (replace
        (codes
          "SDN,STORAGE,Developer_Experience,User_Interface,PerfScale,Service_Development_B,NODE,Logging,Apiserver_and_Auth,Workloads,Metering,Cluster_Observability,Quay/Quay.io,Cluster_Infrastructure,Multi-Cluster,Cluster_Operator,Azure,Network_Edge,ETCD,Installer,Portfolio_Integration,Service_Development_A,OLM,Operator_SDK,App_Migration,Windows_Containers,Security_and_Compliance,KNI,Openshift_Jenkins,RHV,ISV_Operators,PSAP,Multi-Cluster-Networking,OTA,Kata,Build_API,Image_Registry,Container_Engine_Tools,MCO,API_Server,Authentication,Hypershift,Network_Observability")
        (codes " ") [])
      (codes ",")

unfoldable pub importance : List Text
importance = codes "Critical" ∷ codes "High" ∷ codes "Medium" ∷ codes "Low" ∷ []

-- The loops over the names: whether one is part of a text.
unfoldable pub any_in : List Text → Text → Bool
unfolding contains
any_in [] t = false
any_in (n ∷ ns) t = contains n t || any_in ns t

-- The loop over the descriptions, with `findSig` and `findTeam`. `false` raises.
unfoldable pub check_describes : (find_sig find_team : Bool) → List (Text × Text × Text) → Bool
check_describes find_sig find_team [] = true
check_describes find_sig find_team ((whole, sig, team) ∷ rest) =
    let sig_now = find_sig || any_in sig_name_list sig in
    let team_now = find_team || any_in sub_team_list team in
    let more = check_describes sig_now team_now rest in if sig_now && team_now then more else false

unfoldable pub any_lower_in : List Text → Text → Bool
unfolding contains lower
any_lower_in [] t = false
any_lower_in (n ∷ ns) t = contains (lower n) (lower t) || any_lower_in ns t

-- The test of a title by its match: the part before the importances has none. `false` raises.
unfoldable pub check_mode : List (Text × Text × Text × Text) → Bool
unfolding any_lower_in importance
check_mode [] = false
check_mode ((before, modes, last, title) ∷ more) = not (any_lower_in importance before)

unfoldable pub check_titles : Engine → List Text → Bool
unfolding check_mode
check_titles re [] = true
check_titles re (it ∷ its) =
    let more = check_titles re its in
    if check_mode
      (re.findall_four (codes "g.It\\((\"\\D*)*(((?:Critical|High|Medium|Low)-\\d+-)+)(.*)") it)
    then more
    else false

-- The script, on the output of `git show master..`.
unfoldable pub check : Engine → Text → Bool
unfolding check_describes check_titles
check re content =
    let it_content = re.findall (codes "\n\\+\\s+g.It\\(\".*\"") content in
    let des_content =
      re.findall_three (codes "\n\\+.*g.Describe\\(\"(\\[(.*)\\]\\s(.*)\")") content in
    check_describes false false des_content && check_titles re it_content
