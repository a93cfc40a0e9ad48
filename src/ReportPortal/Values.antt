-- ===== src/ReportPortal/Values.antt =====
-- pipeline/reportportal.py: what `importResult` does with file names and the values of a YAML document.
use yyou.Common.{
  Bool, true, false, ◌||◌, List, [], ◌∷◌, Option, none, some, if◌then◌else◌, ◌==◌ as nat_eq,
}
use yyou.Text.{Text, codes, contains, split, ◌==◌}
use yyou.Settings.{
  Yaml, null, scalar, literal, sequence, mapping, Elements, none_left, element, find,
}

-- What stands before the last dot, and nothing if there is no dot.
unfoldable pub before_dot : Text → Option Text
before_dot [] = none
before_dot (c ∷ s) = elim (before_dot s) [
  | none ↦ if nat_eq c b'.' then some [] else none
  | some t ↦ some (c ∷ t)
]

-- `os.path.splitext(name)[0]`: the dots at the beginning do not count.
unfoldable pub split_ext : Text → Text
unfolding before_dot
split_ext [] = []
split_ext (c ∷ s) =
    let dot = c ∷ split_ext s in
    let rest : Text = elim (before_dot (c ∷ s)) [ none ↦ c ∷ s | some t ↦ t ] in
    if nat_eq c b'.' then dot else rest

abbrev last_part : List Text → Text
last_part [] = []
last_part (p ∷ []) = p
last_part (p ∷ q ∷ ps) = last_part (q ∷ ps)

-- `os.path.splitext(os.path.basename(file))[0]`
unfoldable pub file_stem : Text → Text
unfolding split_ext split
file_stem file = split_ext (last_part (split file (codes "/")))

abbrev pub not_null : Yaml → Option Yaml
not_null null = none
not_null (scalar s) = some (scalar s)
not_null (literal s) = some (literal s)
not_null (sequence vs) = some (sequence vs)
not_null (mapping es) = some (mapping es)

-- `if value == None or value == "": value = default`
abbrev pub or_default : Text → Option Yaml → Yaml
or_default default none = scalar default
or_default default (some (scalar [])) = scalar default
or_default default (some (scalar (c ∷ s))) = scalar (c ∷ s)
or_default default (some null) = null
or_default default (some (literal s)) = literal s
or_default default (some (sequence vs)) = sequence vs
or_default default (some (mapping es)) = mapping es

unfoldable pub has_text : Text → Elements → Bool
unfolding ◌==◌
has_text k none_left = false
has_text k (element null vs) = has_text k vs
has_text k (element (scalar s) vs) = s == k || has_text k vs
has_text k (element (literal s) vs) = has_text k vs
has_text k (element (sequence us) vs) = has_text k vs
has_text k (element (mapping es) vs) = has_text k vs

-- `fields.__contains__(key)`. `none` raises.
unfoldable pub has_key : Yaml → Text → Option Bool
unfolding find contains has_text
has_key null k = none
has_key (literal s) k = none
has_key (scalar s) k = some (contains k s)
has_key (sequence vs) k = some (has_text k vs)
has_key (mapping es) k = some (elim (find k es) [ none ↦ false | some v ↦ true ])

-- `value[0]`. A mapping has no key that is a number.
unfoldable pub first_of : Yaml → Option Yaml
first_of null = none
first_of (literal s) = none
first_of (scalar []) = none
first_of (scalar (c ∷ s)) = some (scalar (c ∷ []))
first_of (sequence none_left) = none
first_of (sequence (element v vs)) = some v
first_of (mapping es) = none

unfoldable pub is_text_value : Yaml → Text → Bool
unfolding ◌==◌
is_text_value null t = false
is_text_value (literal s) t = false
is_text_value (sequence vs) t = false
is_text_value (mapping es) t = false
is_text_value (scalar s) t = s == t
