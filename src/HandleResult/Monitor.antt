-- ===== src/HandleResult/Monitor.antt =====
-- pipeline/handleresult.py: `removeMonitor`. `none` is a `ValueError` of `int`.
pub mod Counts
use yyou.Common.Maybe.{◌>>=◌}
use yyou.Common.{
  ℕ, ◌+◌, ◌-◌, ◌≤◌, ◌≡◌, refl, Bool, true, false, List, [], ◌∷◌, ◌++◌, Option, none, some, arith,
  if◌then◌else◌,
}
use yyou.Common.Int.{ℤ, pos, ◌+ℤ◌, ◌-ℤ◌}
use yyou.Text.{Text, codes, contains}
use yyou.Junit.{Testcase, Testsuite}

abbrev pub monitor_name : Text
monitor_name = codes "Monitor cluster while tests execute"

unfoldable pub is_monitor : Testcase → Bool
unfolding contains
is_monitor c = contains monitor_name c.name

-- The loop over the cases: the list without its first monitor case, or `none` if it has none.
unfoldable pub drop_monitor : List Testcase → Option (List Testcase)
drop_monitor [] = none
drop_monitor (c ∷ cs) =
    let rest = drop_monitor cs >>= (λ ds. some (c ∷ ds)) in if is_monitor c then some cs else rest

-- What the loop does to the counts when it meets the monitor case.
unfoldable pub swap_counts : Testsuite → Option Testsuite
unfolding ◌-ℤ◌
swap_counts s = do
  tested ← s.failures
  failed ← s.tests
  some (record s { tests = some (tested -ℤ pos 1); failures = some (failed -ℤ pos 1) })

-- The counts that are written at the end.
unfoldable pub settle_counts : Testsuite → Option Testsuite
unfolding ◌+ℤ◌ ◌-ℤ◌
settle_counts s = do
  tests ← s.tests
  skipped ← s.skipped
  failures ← s.failures
  some (record s {
    tests = some (tests +ℤ skipped);
    failures = some (failures -ℤ skipped);
    errors = some (pos 0);
  })

unfoldable pub remove_monitor : Testsuite → Option Testsuite
unfolding drop_monitor swap_counts settle_counts is_monitor
remove_monitor s = elim (drop_monitor s.cases) [
  | none ↦ settle_counts s
  | some cases ↦ swap_counts s >>= (λ t. settle_counts (record t { cases = cases }))
]
