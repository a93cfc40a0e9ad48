-- ===== src/HandleResult/Monitor/Counts.antt =====
-- The counts that `removeMonitor` writes, where the input follows the habit of the test framework
-- that the comments in the method describe.
use yyou.Common.{
  suc, ◌+◌, ◌≡◌, refl, Bool, false, not, ◌&&◌, ◌||◌, List, [], ◌∷◌, none, some, arith, length,
  count, All, Bool-cases, inl, inr, Option-cases,
}
use yyou.Common.Int.{pos, ◌+ℤ◌, ◌-ℤ◌}
use yyou.Junit.{Testcase, Testsuite}
use yyou.HandleResult.Monitor.{is_monitor, drop_monitor, remove_monitor}
use yyou.HandleResult.Split.Counts.{has_failure, has_skipped}
use yyou.HandleResult.Split.Balance.{IsBalanced}

abbrev pub executed : Testcase → Bool
executed c = not (has_skipped c)

-- "failures is the total executed cases, not include skip", "tests is the total failing and skip
-- cases", "skip is the skip cases".
pub record IsSwapped (s : Testsuite) : Type 0 where
  pub failures : s.failures ≡ some (pos (count executed s.cases))
  pub tests : s.tests ≡ some (pos (count has_failure s.cases + count has_skipped s.cases))
  pub skipped : s.skipped ≡ some (pos (count has_skipped s.cases))

-- A monitor case has failed, and is not skipped.
abbrev pub MonitorFails : Testcase → Type 0
MonitorFails c = (is_monitor c && (not (has_failure c) || has_skipped c)) ≡ false

drop_monitor-counts :
    (cs ds : List Testcase)
    → All MonitorFails cs
    → drop_monitor cs ≡ some ds
    → (count executed cs ≡ suc (count executed ds))
      × (count has_failure cs ≡ suc (count has_failure ds))
      × (count has_skipped cs ≡ count has_skipped ds)
unfolding drop_monitor count
drop_monitor-counts [] ds h e = absurd (cc)
drop_monitor-counts (c ∷ cs) ds h e = elim (Bool-cases (is_monitor c)) [
  | inl found ↦ ground (arith, h.0)
  | inr other ↦ elim (Option-cases (drop_monitor cs)) [
    | inl f ↦ absurd (ground arith)
    | inr (rest, f) ↦ ground (arith, drop_monitor-counts cs rest h.1 f)
  ]
]

count-executed : (cs : List Testcase) → count executed cs + count has_skipped cs ≡ length cs
unfolding count
count-executed [] = refl
count-executed (c ∷ cs) = ground (arith, count-executed cs)

-- Where `failures` of the input counts the executed cases, `tests` the failed and the skipped ones and
-- `skipped` the skipped ones, every monitor case has failed and is not skipped, and there is one,
-- `removeMonitor` returns, drops the first monitor case alone, and `tests`, `failures` and `skipped` are
-- the counts of the cases that are left.
pub remove_monitor-IsBalanced :
    (s : Testsuite) (cs : List Testcase)
    → IsSwapped s
    → All MonitorFails s.cases
    → drop_monitor s.cases ≡ some cs
    → (out : Testsuite) × (remove_monitor s ≡ some out) × IsBalanced out × (out.cases ≡ cs)
unfolding remove_monitor ◌+ℤ◌ ◌-ℤ◌
remove_monitor-IsBalanced s cs w m e =
    let (x, y, z) = drop_monitor-counts s.cases cs m e in
    (
      record s {
        tests = some (pos (length cs));
        failures = some (pos (count has_failure cs));
        skipped = some (pos (count has_skipped cs));
        errors = some (pos 0);
        cases = cs;
      },
      ground (arith, count-executed cs, x, y, z, e, w.failures, w.tests, w.skipped),
      record { tests = refl; failures = refl; skipped = refl },
      refl,
    )

-- Where `failures` of the input counts the executed cases, `tests` the failed and the skipped ones and
-- `skipped` the skipped ones, but there is no monitor case, the counts are not swapped: they come out
-- right only if as many cases were executed as failed or were skipped.
pub remove_monitor_unswapped :
    (s out : Testsuite)
    → IsSwapped s
    → drop_monitor s.cases ≡ none
    → remove_monitor s ≡ some out
    → IsBalanced out
    → count executed s.cases ≡ count has_failure s.cases + count has_skipped s.cases
unfolding remove_monitor ◌+ℤ◌ ◌-ℤ◌
remove_monitor_unswapped s out w e h b =
    ground (arith, count-executed s.cases, w.failures, w.tests, w.skipped, b.tests)
