-- ===== src/ReportPortal/BuildNum.antt =====
-- pipeline/reportportal.py: `addMoreBuildNumToLaunch`.
use yyou.Common.Maybe.{◌>>=◌ as ◌>>=?◌}
use yyou.Common.{
  ℕ, Bool, true, false, ◌&&◌, not, List, [], ◌∷◌, ◌++◌, Option, none, some, if◌then◌else◌,
}
use yyou.Text.{Text, codes, contains, split, ◌==◌}
use yyou.Text.Regex.{is_build_num}
use yyou.Session.{World, Action, pure, guard, from_option, attempt, ◌>>=◌, ◌>>◌}
use yyou.ReportPortal.{Body, Request, Args}
use yyou.ReportPortal.Matching.{part, bid_type, bid_job_name}
use yyou.ReportPortal.Launches.{to_update, get_launch_attr_by_id, handle_launch_attribution}

-- The loop over the build numbers that are there: whether one is of this type and job.
unfoldable pub has_job : Text → Text → List Text → Option Bool
unfolding is_build_num bid_type bid_job_name ◌==◌
has_job build_type build_job_name [] = some false
has_job build_type build_job_name (bid ∷ bids) =
    let rest = has_job build_type build_job_name bids in
    if not (is_build_num bid)
    then rest
    else ◌>>=?◌ (bid_type bid) (λ kind.
      if kind == build_type && bid_job_name bid == build_job_name then some true else rest)

-- The new value, if there is one. The outer `none` is an `IndexError`.
unfoldable pub more_build_nums : Text → Text → Option (Option Text)
unfolding contains has_job split
more_build_nums buildnum existing =
    let extend = ◌>>=?◌ (part buildnum (codes "_") 0) (λ front.
      ◌>>=?◌ (part front (codes "-") 1) (λ build_type.
        ◌>>=?◌ (part buildnum (codes "_") 1) (λ build_job_name.
          ◌>>=?◌ (has_job build_type build_job_name (split existing (codes ","))) (λ there.
            some (if there then none else some (existing ++ (codes "," ++ buildnum))))))) in
    if contains buildnum existing then some none else extend

abbrev pub not_empty : Option (Option Text) → Option Text
not_empty none = none
not_empty (some none) = none
not_empty (some (some [])) = none
not_empty (some (some (c ∷ s))) = some (c ∷ s)

module _ (args : Args) (w : World Request Body) where
  unfoldable pub write_build_num : ℕ → Text → Option Text → Action Request Bool
  write_build_num lid existing none = pure true
  write_build_num lid existing (some newvalue) = do
    written ←
        handle_launch_attribution args w (lid ∷ [])
          ((codes "gbuildnum", to_update existing newvalue) ∷ [])
    guard written
    pure true

  unfoldable pub add_more_build_num_to_launch : ℕ → Action Request Bool
  add_more_build_num_to_launch lid =
      attempt
        (do
          value ← get_launch_attr_by_id args w lid (codes "gbuildnum")
          existing ← from_option (not_empty value)
          more ← from_option (more_build_nums args.buildnum existing)
          write_build_num lid existing more)
        false
