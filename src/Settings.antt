-- ===== src/Settings.antt =====
-- pipeline/handleattribution.py and pipeline/handleconfig.py, which have the same class under two names:
-- a value is looked up in a YAML document by a path of keys.
pub mod Laws
mod Tests
use yyou.Common.{Bool, true, false, List, [], ◌∷◌, Option, none, some, if◌then◌else◌}
use yyou.Common.Maybe.{◌>>=◌}
use yyou.Text.{Text, codes, split, ◌==◌}

-- What `yaml.safe_load` returns. A scalar is a text; a literal is a number, a truth value or a date, by
-- its text.
mutual
  pub data Yaml : Type 0 where
    null : Yaml
    scalar : Text → Yaml
    literal : Text → Yaml
    sequence : Elements → Yaml
    mapping : Entries → Yaml

  pub data Elements : Type 0 where
    none_left : Elements
    element : Yaml → Elements → Elements

  -- The entries of a mapping. A key that is no text is `none`.
  pub data Entries : Type 0 where
    empty : Entries
    entry : (key : Option Text) (value : Yaml) (rest : Entries) → Entries

unfoldable pub is_key : Option Text → Text → Bool
unfolding ◌==◌
is_key none k = false
is_key (some j) k = j == k

unfoldable pub find : Text → Entries → Option Yaml
unfolding is_key
find k empty = none
find k (entry key value rest) =
    let later = find k rest in if is_key key k then some value else later

-- `value[i]`, of a text `i`. `none` is a `KeyError` or a `TypeError`.
unfoldable pub index : Yaml → Text → Option Yaml
unfolding find
index null i = none
index (scalar s) i = none
index (literal s) i = none
index (sequence vs) i = none
index (mapping es) i = find i es

-- The loop over the path.
unfoldable pub walk : List Text → Yaml → Option Yaml
unfolding index
walk [] value = some value
walk (i ∷ parapath) value = index value i >>= walk parapath

abbrev pub or_fail : Option Yaml → Yaml
or_fail none = scalar (codes "failtogetvalue")
or_fail (some value) = value

unfoldable pub get : Yaml → Text → Yaml
unfolding walk split
get content para = or_fail (walk (split para (codes ":")) content)
