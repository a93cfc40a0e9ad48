-- ===== src/Rule/Tests.antt =====
-- hack/rule.py: a run on descriptions of which only the first names an area and a team.
use yyou.Common.{◌≡◌, refl, ◌&&◌, [], ◌∷◌, true, false}
use yyou.Text.{Text, codes}
use yyou.Rule.{any_in, sig_name_list, sub_team_list, check_describes}
use yyou.Rule.Describes.{check_describes_first}

abbrev nameless : Text × Text × Text
nameless = (codes "[x] y", codes "x", codes "y")

names_area : any_in sig_name_list (codes "sig-operators") ≡ true
unfolding any_in sig_name_list
names_area = refl

names_team : any_in sub_team_list (codes "OLM should") ≡ true
unfolding any_in sub_team_list
names_team = refl

check_describes_first_example :
    check_describes false false (
      (codes "[sig-operators] OLM should", codes "sig-operators", codes "OLM should")
      ∷ nameless
      ∷ [])
    ≡ (any_in sig_name_list (codes "sig-operators") && any_in sub_team_list (codes "OLM should"))
check_describes_first_example =
    check_describes_first (codes "[sig-operators] OLM should") (codes "sig-operators")
      (codes "OLM should") (nameless ∷ [])
