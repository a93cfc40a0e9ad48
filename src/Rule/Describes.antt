-- ===== src/Rule/Describes.antt =====
-- hack/rule.py: which descriptions the loop looks at.
use yyou.Common.{◌≡◌, refl, Bool, true, false, ◌&&◌, List, [], ◌∷◌, if◌then◌else◌}
use yyou.Text.{Text}
use yyou.Rule.{any_in, sig_name_list, sub_team_list, check_describes}

-- Once both have been found, nothing is looked at any more.
check_describes_found : (ds : List (Text × Text × Text)) → check_describes true true ds ≡ true
unfolding check_describes
check_describes_found [] = refl
check_describes_found (d ∷ ds) = check_describes_found ds

-- The check of the descriptions passes exactly if the first one names an area and a team: `findSig` and
-- `findTeam` are never reset, so all later descriptions pass with the first, whatever they name.
pub check_describes_first :
    (whole sig team : Text) (ds : List (Text × Text × Text))
    → check_describes false false ((whole, sig, team) ∷ ds)
      ≡ (any_in sig_name_list sig && any_in sub_team_list team)
unfolding check_describes
check_describes_first whole sig team ds =
    both (any_in sig_name_list sig) (any_in sub_team_list team)
  where
    both : (s t : Bool) → (if s && t then check_describes s t ds else false) ≡ (s && t)
    both true true = check_describes_found ds
    both true false = refl
    both false t = refl
