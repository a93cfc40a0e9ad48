-- ===== src/HandleResult/Split/Counts.antt =====
-- What one round of the second loop of `splitRP` adds to the counts of a document.
use yyou.Common.{
  ℕ, suc, ◌+◌, ◌≤◌, ◌≡◌, refl, Bool, false, ◌&&◌, List, [], ◌∷◌, arith, length, count, All,
  length-append, count-append, if◌then◌else◌, map, ap,
}
use yyou.Text.{Text}
use yyou.Junit.{Testcase, is_some_element, rename}
use yyou.HandleResult.Split.{
  CaseDesc, Tally, Result, result_of, pass, skip, fail, count_names, Import, import_case,
  import_cases,
}

abbrev pub has_failure : Testcase → Bool
has_failure c = is_some_element c.failure

abbrev pub has_skipped : Testcase → Bool
has_skipped c = is_some_element c.skipped

-- No case is failed and skipped at once.
abbrev pub IsExclusive : Testcase → Type 0
IsExclusive c = (has_failure c && has_skipped c) ≡ false

abbrev pub units : Result → Result → ℕ
units pass pass = 1
units skip skip = 1
units fail fail = 1
units _ _ = 0

abbrev pub if_is : Result → Result → ℕ → ℕ
if_is pass pass n = n
if_is skip skip n = n
if_is fail fail n = n
if_is _ _ n = 0

pub count_names_lem :
    (r : Result) (ns : List Text) (t : Tally)
    → ((count_names r ns t).testnum ≡ t.testnum + length ns)
      × ((count_names r ns t).failnum ≡ t.failnum + if_is r fail (length ns))
      × ((count_names r ns t).skipnum ≡ t.skipnum + if_is r skip (length ns))
unfolding count_names
count_names_lem pass [] t = omega arith
count_names_lem pass (n ∷ ns) t =
    omega (arith, count_names_lem pass ns (record t { testnum = t.testnum + 1 }))
count_names_lem skip [] t = omega arith
count_names_lem skip (n ∷ ns) t =
    omega (
      arith,
      count_names_lem skip ns (record t { testnum = t.testnum + 1; skipnum = t.skipnum + 1 }),
    )
count_names_lem fail [] t = omega arith
count_names_lem fail (n ∷ ns) t =
    omega (
      arith,
      count_names_lem fail ns (record t { testnum = t.testnum + 1; failnum = t.failnum + 1 }),
    )

pub count-map-rename :
    (p : Testcase → Bool) (c : Testcase) (ns : List Text)
    → ((n : Text) → p (rename c n) ≡ p c)
    → count p (map (rename c) ns) ≡ (if p c then length ns else 0)
unfolding count
count-map-rename p c [] h = ground arith
count-map-rename p c (n ∷ ns) h = ground (arith, count-map-rename p c ns h, h n)

pub length-map-rename : (c : Testcase) (ns : List Text) → length (map (rename c) ns) ≡ length ns
length-map-rename c [] = refl
length-map-rename c (n ∷ ns) = ap suc (length-map-rename c ns)

abbrev pub failing : CaseDesc → Bool
failing d = has_failure d.case

abbrev pub skipping : CaseDesc → Bool
skipping d = has_skipped d.case

-- The counts so far are those of the children so far and one for each case that is still to come.
pub record IsAhead (i : Import) (ds : List CaseDesc) : Type 0 where
  pub tests : i.testscount ≡ length i.children + length ds
  pub failures : i.failurescount ≡ count has_failure i.children + count failing ds
  pub skips : i.skippedcount ≡ count has_skipped i.children + count skipping ds

abbrev pub IsNamed : CaseDesc → Type 0
IsNamed d = (1 ≤ length d.names) × IsExclusive d.case

pub import_case-IsAhead :
    (i : Import) (d : CaseDesc) (ds : List CaseDesc)
    → IsNamed d
    → IsAhead i (d ∷ ds)
    → IsAhead (import_case i d) ds
unfolding import_case count
import_case-IsAhead i d ds named a = ground (
  arith,
  count_names_lem (result_of d.case) d.names (record { testnum = 0; failnum = 0; skipnum = 0 }),
  length-append i.children (map (rename d.case) d.names),
  count-append has_failure i.children (map (rename d.case) d.names),
  count-append has_skipped i.children (map (rename d.case) d.names),
  length-map-rename d.case d.names,
  count-map-rename has_failure d.case d.names (λ n. refl),
  count-map-rename has_skipped d.case d.names (λ n. refl),
)

pub import_cases-IsAhead :
    (i : Import) (ds : List CaseDesc)
    → All IsNamed ds
    → IsAhead i ds
    → IsAhead (import_cases i ds) []
unfolding import_cases
import_cases-IsAhead i [] h a = a
import_cases-IsAhead i (d ∷ ds) h a =
    import_cases-IsAhead (import_case i d) ds h.1 (import_case-IsAhead i d ds h.0 a)
