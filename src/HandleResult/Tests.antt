-- ===== src/HandleResult/Tests.antt =====
-- pipeline/handleresult.py: runs of the scripts on small results.
use mathlib.Core.List.{Perm}
use yyou.Common.{
  ◌+◌, ◌≡◌, refl, Bool, not, true, false, List, [], ◌∷◌, Option, none, some, arith, length, count,
  keep, All,
}
use yyou.Common.Int.{pos}
use yyou.Text.{Text, codes, contains, replace, ◌==◌}
use yyou.Dict.{Dict, lookup, NodupKeys}
use yyou.Junit.{Testcase, Testsuite}
use yyou.HandleResult.Names.{get_names, init}
use yyou.HandleResult.Names.Laws.{get_names-total, name_count}
use yyou.HandleResult.Monitor.{monitor_name, drop_monitor, remove_monitor, is_monitor}
use yyou.HandleResult.Monitor.Counts.{
  remove_monitor-IsBalanced, remove_monitor_unswapped, IsSwapped, MonitorFails, executed,
}
use yyou.HandleResult.Files.{opened}
use yyou.HandleResult.Generate.{generate_document, generate_rp}
use yyou.HandleResult.Generate.Names.{generate_rp-names, all_names, names_in}
use yyou.HandleResult.Split.{team_of, collect_mods, split_documents, split_rp}
use yyou.HandleResult.Split.Counts.{has_failure, has_skipped}
use yyou.HandleResult.Split.Balance.{split_documents-IsBalanced, IsBalanced}
use yyou.HandleResult.Split.Partition.{collect_mods-partition, cases_of, in_team}
use yyou.HandleResult.Split.Written.{
  split_rp-have_files, has_file, have_files, all_written, until_unopened,
}
use yyou.HandleResult.Summary.{pass, fail, Entry, record_ids, ocp_key, summarize}
use yyou.HandleResult.Summary.Merging.{summarize-IsAtLeast, record_ids_leak, IsAtLeast}

abbrev case_of : Text → List Text → List Text → Testcase
case_of name failure skipped = record {
  name = name;
  time = codes "3";
  failure = failure;
  skipped = skipped;
  system_out = [];
}

-- A case with two ids, which fails, a case with one that is skipped, and one without that passes.
abbrev two_ids : Text
two_ids = codes "[sig] OLM Author:ab-High-12345-High-67890-it's ok [Suite:openshift/x]"

abbrev one_id : Text
one_id = codes "[sig] SDN Author:cd-Low-24680-net [Suite:openshift/x]"

abbrev cases : List Testcase
cases =
    case_of two_ids (codes "bad" ∷ []) []
    ∷ case_of one_id [] (codes "no" ∷ [])
    ∷ case_of (codes "some other") [] []
    ∷ []

abbrev suite : Testsuite
suite = record {
  name = codes "s";
  time = codes "9";
  tests = some (pos 2);
  failures = some (pos 2);
  skipped = some (pos 1);
  errors = some (pos 0);
  cases = cases;
}

abbrev or_nil {ℓ} : {A : Type ℓ} → Option (List A) → List A
or_nil none = []
or_nil (some xs) = xs

-- A directory with no directory in it.
abbrev in_one_directory : Text → Bool
in_one_directory path = not (contains (codes "/") path)

get_names-total_example :
    (ns : List Text) × (get_names two_ids ≡ some ns) × (length ns ≡ name_count two_ids)
get_names-total_example = get_names-total two_ids

generate_rp-names_example :
    (out : Testsuite) × (ns : List Text) × (generate_document suite (codes "olm") ≡ some out)
    × (all_names cases ≡ some ns)
    × Perm (names_in out.cases) ns
    × (out.name ≡ codes "olm")
    × (generate_rp in_one_directory suite (codes "out.xml") (codes "olm") []
        ≡ (false, opened (codes "out.xml") ∷ []))
unfolding contains
generate_rp-names_example =
    generate_rp-names in_one_directory suite (codes "out.xml") (codes "olm") []

split_returns : split_documents suite ≡ some (or_nil (split_documents suite))
unfolding split_documents
split_returns = refl

split_documents-IsBalanced_example : All IsBalanced (or_nil (split_documents suite))
split_documents-IsBalanced_example =
    split_documents-IsBalanced suite (or_nil (split_documents suite)) (refl, (refl, (refl, tt)))
      split_returns

collect_returns : collect_mods cases [] ≡ some (or_nil (collect_mods cases []))
unfolding collect_mods
collect_returns = refl

collect_mods-partition_example :
    NodupKeys (or_nil (collect_mods cases []))
    × ((k : Text) → cases_of k (or_nil (collect_mods cases [])) ≡ keep (in_team k) cases)
collect_mods-partition_example =
    collect_mods-partition cases (or_nil (collect_mods cases [])) collect_returns

spaces : All (λ c. contains (codes " ") c.name ≡ true) cases
unfolding contains
spaces = (refl, (refl, (refl, tt)))

split_rp-have_files_example :
    (ds : List Testsuite) × (split_documents suite ≡ some ds)
    × ((split_rp in_one_directory suite []).0 ≡ have_files in_one_directory suite.cases)
    × ((split_rp in_one_directory suite []).1
        ≡ all_written in_one_directory (until_unopened in_one_directory ds))
split_rp-have_files_example = split_rp-have_files in_one_directory suite [] spaces

suite_written : have_files in_one_directory cases ≡ true
unfolding have_files has_file contains team_of
suite_written = refl

-- The subteam "Quay/Quay.io" of the list has no file in one directory.
abbrev quay : Text
quay = codes "[sig] Quay/Quay.io Author:ab-High-12345-x"

quay_unwritten : have_files in_one_directory (case_of quay [] [] ∷ []) ≡ false
unfolding have_files has_file contains team_of
quay_unwritten = refl

-- The counts as the test framework swaps them, with a monitor case.
abbrev monitor_case : Testcase
monitor_case = case_of monitor_name (codes "bad" ∷ []) []

abbrev monitored : Testsuite
monitored = record suite {
  tests = some (pos 3);
  failures = some (pos 3);
  skipped = some (pos 1);
  cases = monitor_case ∷ cases;
}

monitored-IsSwapped : IsSwapped monitored
unfolding count
monitored-IsSwapped = record { failures = refl; tests = refl; skipped = refl }

monitored-MonitorFails : All MonitorFails (monitor_case ∷ cases)
unfolding is_monitor
monitored-MonitorFails = (refl, (refl, (refl, (refl, tt))))

monitor_dropped : drop_monitor (monitor_case ∷ cases) ≡ some cases
unfolding drop_monitor is_monitor
monitor_dropped = refl

remove_monitor-IsBalanced_example :
    (out : Testsuite) × (remove_monitor monitored ≡ some out) × IsBalanced out × (out.cases ≡ cases)
remove_monitor-IsBalanced_example =
    remove_monitor-IsBalanced monitored cases monitored-IsSwapped monitored-MonitorFails
      monitor_dropped

-- Swapped counts without a monitor case: two cases were executed, and two failed or were skipped.
abbrev unmonitored : Testsuite
unmonitored = suite

unmonitored-IsSwapped : IsSwapped unmonitored
unfolding count
unmonitored-IsSwapped = record { failures = refl; tests = refl; skipped = refl }

no_monitor : drop_monitor cases ≡ none
unfolding drop_monitor is_monitor
no_monitor = refl

abbrev settled : Testsuite
settled = record unmonitored { tests = some (pos 3); failures = some (pos 1) }

unmonitored-settled : remove_monitor unmonitored ≡ some settled
unfolding remove_monitor
unmonitored-settled = refl

settled-IsBalanced : IsBalanced settled
unfolding count
settled-IsBalanced = record { tests = refl; failures = refl; skipped = refl }

remove_monitor_unswapped_example :
    count executed cases ≡ count has_failure cases + count has_skipped cases
remove_monitor_unswapped_example =
    remove_monitor_unswapped unmonitored settled unmonitored-IsSwapped no_monitor
      unmonitored-settled settled-IsBalanced

abbrev before : Dict Entry
before = (codes "OCP-12345", record { result = fail; title = codes "t"; author = codes "ab" }) ∷ []

abbrev id_one : Text
id_one = codes "12345-"

abbrev id_two : Text
id_two = codes "67890-"

summary_returns : summarize cases before ≡ some (or_nil (summarize cases before))
unfolding summarize
summary_returns = refl

failed_before :
    lookup (ocp_key id_one) before
    ≡ some (record { result = fail; title = codes "t"; author = codes "ab" })
unfolding lookup ◌==◌ init
failed_before = refl

summarize-IsAtLeast_example : IsAtLeast 2 (ocp_key id_one) (or_nil (summarize cases before))
summarize-IsAtLeast_example =
    summarize-IsAtLeast 2 id_one cases before (or_nil (summarize cases before)) summary_returns
      (record { result = fail; title = codes "t"; author = codes "ab" }, failed_before, omega arith)

other_id : (ocp_key id_one == ocp_key id_two) ≡ false
unfolding ◌==◌ init
other_id = refl

unknown_id : lookup (ocp_key id_two) before ≡ none
unfolding lookup ◌==◌ init
unknown_id = refl

record_ids_leak_example :
    lookup (codes "OCP-67890") (
      record_ids
        (codes "cd")
        (id_one ∷ id_two ∷ [])
        (record { result = pass; casetitle = codes "u" })
        before)
    ≡ some (record { result = fail; title = codes "t"; author = codes "cd" })
unfolding init replace
record_ids_leak_example =
    record_ids_leak (codes "cd") id_one id_two (codes "u") before
      (record { result = fail; title = codes "t"; author = codes "ab" }) failed_before refl other_id
      unknown_id
