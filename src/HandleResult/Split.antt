-- ===== src/HandleResult/Split.antt =====
-- pipeline/handleresult.py: `splitRP`, in its two loops. `none` is an `IndexError`, which ends the
-- first loop before any file is written, and `false` any exception.
pub mod Counts
pub mod Balance
pub mod Partition
pub mod Written
use yyou.Common.Maybe.{◌>>=◌}
use yyou.Common.{
  ℕ, zero, suc, ◌+◌, ◌-◌, Bool, true, false, List, [], ◌∷◌, ◌++◌, Option, none, some, get_elem?,
  map, if◌then◌else◌,
}
use yyou.Common.Int.{pos}
use yyou.Text.{Text, codes, split, member}
use yyou.Dict.{Dict, lookup, insert}
use yyou.Junit.{Testcase, Testsuite, is_some_element, rename}
use yyou.HandleResult.Names.{get_names}
use yyou.HandleResult.Files.{FileEvent, binary, write_document}

-- `TestResult.subteam`
unfoldable pub subteam : List Text
subteam =
    codes "SDN"
    ∷ codes "STORAGE"
    ∷ codes "Developer_Experience"
    ∷ codes "User_Interface"
    ∷ codes "PerfScale"
    ∷ codes "Service_Development_B"
    ∷ codes "NODE"
    ∷ codes "Logging"
    ∷ codes "Apiserver_and_Auth"
    ∷ codes "Workloads"
    ∷ codes "Metering"
    ∷ codes "Cluster_Observability"
    ∷ codes "Quay/Quay.io"
    ∷ codes "Cluster_Infrastructure"
    ∷ codes "Multi-Cluster"
    ∷ codes "Cluster_Operator"
    ∷ codes "Azure"
    ∷ codes "Network_Edge"
    ∷ codes "ETCD"
    ∷ codes "Installer"
    ∷ codes "Portfolio_Integration"
    ∷ codes "Service_Development_A"
    ∷ codes "OLM"
    ∷ codes "Operator_SDK"
    ∷ codes "App_Migration"
    ∷ codes "Windows_Containers"
    ∷ codes "Security_and_Compliance"
    ∷ codes "KNI"
    ∷ codes "Openshift_Jenkins"
    ∷ codes "RHV"
    ∷ codes "ISV_Operators"
    ∷ codes "PSAP"
    ∷ codes "Multi-Cluster-Networking"
    ∷ codes "OTA"
    ∷ codes "Kata"
    ∷ codes "Build_API"
    ∷ codes "Image_Registry"
    ∷ codes "Container_Engine_Tools"
    ∷ codes "MCO"
    ∷ codes "API_Server"
    ∷ codes "Authentication"
    ∷ codes "Hypershift"
    ∷ codes "Network_Observability"
    ∷ []

pub record CaseDesc : Type 0 where
  pub case : Testcase
  pub names : List Text

pub record Mod : Type 0 where
  pub cases : List CaseDesc
  pub tests : ℕ
  pub skipped : ℕ
  pub failure : ℕ
  pub errors : ℕ

-- `name.split(" ")[1]`, or "Unknown" if that is no subteam.
unfoldable pub team_of : Text → Option Text
unfolding split subteam member
team_of name = do
  team ← get_elem? (split name (codes " ")) 1
  some (if member team subteam then team else codes "Unknown")

abbrev pub flag : List Text → ℕ
flag elements = if is_some_element elements then 1 else 0

-- The record of the subteam after one more case.
unfoldable pub add_case : Option Mod → CaseDesc → Mod
add_case (some mod') d = record {
  cases = mod'.cases ++ (d ∷ []);
  tests = mod'.tests + 1;
  skipped = mod'.skipped + flag d.case.skipped;
  failure = mod'.failure + flag d.case.failure;
  errors = mod'.errors;
}
add_case none d = record {
  cases = d ∷ [];
  tests = 1;
  skipped = flag d.case.skipped;
  failure = flag d.case.failure;
  errors = 0;
}

-- The first loop.
unfoldable pub collect_mods : List Testcase → Dict Mod → Option (Dict Mod)
unfolding team_of get_names add_case insert lookup
collect_mods [] mods = some mods
collect_mods (c ∷ cs) mods = do
  team ← team_of c.name
  names ← get_names c.name
  let d : CaseDesc = record { case = c; names = names }
  collect_mods cs (insert team (add_case (lookup team mods) d) mods)

pub record Tally : Type 0 where
  pub testnum : ℕ
  pub failnum : ℕ
  pub skipnum : ℕ

pub data Result : Type 0 where
  pass skip fail : Result

-- A failure counts before a skip.
abbrev pub result_of : Testcase → Result
result_of c =
    if is_some_element c.failure then fail else if is_some_element c.skipped then skip else pass

abbrev pub count_name : Result → Tally → Tally
count_name pass t = record t { testnum = t.testnum + 1 }
count_name fail t = record t { testnum = t.testnum + 1; failnum = t.failnum + 1 }
count_name skip t = record t { testnum = t.testnum + 1; skipnum = t.skipnum + 1 }

-- The loop over the names of a case.
unfoldable pub count_names : Result → List Text → Tally → Tally
count_names r [] t = t
count_names r (name ∷ names) t = count_names r names (count_name r t)

-- `if n > 0: n = n - 1`
abbrev pub less_one : ℕ → ℕ
less_one zero = zero
less_one (suc n) = n

pub record Import : Type 0 where
  pub testscount : ℕ
  pub failurescount : ℕ
  pub skippedcount : ℕ
  pub children : List Testcase

-- One round of the loop over the cases of a subteam.
unfoldable pub import_case : Import → CaseDesc → Import
unfolding count_names
import_case i d =
    let t =
      count_names (result_of d.case) d.names (record { testnum = 0; failnum = 0; skipnum = 0 }) in
    record {
      testscount = i.testscount + less_one t.testnum;
      failurescount = i.failurescount + less_one t.failnum;
      skippedcount = i.skippedcount + less_one t.skipnum;
      children = i.children ++ map (rename d.case) d.names;
    }

unfoldable pub import_cases : Import → List CaseDesc → Import
unfolding import_case
import_cases i [] = i
import_cases i (d ∷ ds) = import_cases (import_case i d) ds

-- The document for one subteam.
unfoldable pub import_mod : Text → Text → Mod → Testsuite
unfolding import_cases
import_mod time k v =
    let i =
      import_cases
        (record {
          testscount = v.tests;
          failurescount = v.failure;
          skippedcount = v.skipped;
          children = [];
        })
        v.cases in
    record {
      name = k;
      time = time;
      tests = some (pos i.testscount);
      failures = some (pos i.failurescount);
      skipped = some (pos i.skippedcount);
      errors = some (pos v.errors);
      cases = i.children;
    }

-- The documents, one for each subteam, before they are written.
unfoldable pub split_documents : Testsuite → Option (List Testsuite)
unfolding collect_mods import_mod
split_documents s = do
  mods ← collect_mods s.cases []
  some (map (λ (k, v). import_mod s.time k v) mods)

-- The file of a subteam. With a "/" in the name, as in "Quay/Quay.io", it lies in a directory.
abbrev pub import_path : Text → Text
import_path k = codes "import-" ++ k ++ codes ".xml"

-- The end of each round of the second loop. An exception ends the loop.
unfoldable pub write_documents :
    (opens : Text → Bool) → List Testsuite → List FileEvent → Bool × List FileEvent
unfolding write_document
write_documents opens [] files = (true, files)
write_documents opens (d ∷ ds) files =
    let (done, files') = write_document opens binary (import_path d.name) d files in
    let rest = write_documents opens ds files' in if done then rest else (false, files')

-- The whole method.
unfoldable pub split_rp : (opens : Text → Bool) → Testsuite → List FileEvent → Bool × List FileEvent
unfolding split_documents write_documents
split_rp opens s files = elim (split_documents s) [
  | none ↦ (false, files)
  | some ds ↦ write_documents opens ds files
]
