-- ===== src/Settings/Tests.antt =====
-- pipeline/handleattribution.py: look-ups in a small document.
use yyou.Common.{◌≡◌, refl, false, [], ◌∷◌, some, All}
use yyou.Text.{codes, join, ◌==◌}
use yyou.Text.Joining.{Lacks}
use yyou.Settings.{Yaml, scalar, mapping, empty, entry, get}
use yyou.Settings.Laws.{put, get-put}

abbrev document : Yaml
document = mapping (
    entry (some (codes "a")) (scalar (codes "1")) (
      entry (some (codes "b")) (mapping (entry (some (codes "c")) (scalar (codes "2")) empty))
        empty))

b_c-Lacks : All (Lacks b':') (codes "b" ∷ codes "c" ∷ [])
b_c-Lacks = ((refl, tt), ((refl, tt), tt))

get-put_example :
    get
      (put (codes "b" ∷ codes "c" ∷ []) (scalar (codes "3")) document)
      (join (codes ":") (codes "b" ∷ codes "c" ∷ []))
    ≡ scalar (codes "3")
get-put_example = get-put (codes "b") (codes "c" ∷ []) (scalar (codes "3")) document b_c-Lacks

a_is_not_b : (codes "a" == codes "b") ≡ false
unfolding ◌==◌
a_is_not_b = refl
