-- ===== src/Text.antt =====
-- Python's `str` as a list of code points, with the operations of `str` that the scripts use:
-- `==`, `in`, `startswith`, `split`, `join`, `replace`, `strip` and `str` of a number.
pub mod Laws
pub mod Regex
pub mod Pieces
pub mod Joining
use Prim.Native.Char.{code}
use Prim.Native.String
use yyou.Common.{
  ℕ, zero, suc, ◌+◌, ◌-◌, ◌/◌, ◌%◌, String, Bool, true, false, not, ◌&&◌, ◌||◌, List, [], ◌∷◌, ◌++◌,
  Option, none, some, ltb, leb, ◌==◌ as nat_eq, if◌then◌else◌, length,
}

abbrev pub Text : Type 0
Text = List ℕ

-- The code points of a literal.
abbrev pub codes : String → Text
codes String.[] = []
codes (String.◌∷◌ c s) = code c ∷ codes s

-- `s == t`
infix 50 ◌==◌
unfoldable pub ◌==◌ : Text → Text → Bool
[] == [] = true
[] == (d ∷ t) = false
(c ∷ s) == [] = false
(c ∷ s) == (d ∷ t) = nat_eq c d && s == t

-- `x in xs`, for a list of texts
unfoldable pub member : Text → List Text → Bool
unfolding ◌==◌
member x [] = false
member x (y ∷ ys) = x == y || member x ys

-- `s.startswith(p)`
unfoldable pub starts_with : Text → Text → Bool
starts_with s [] = true
starts_with [] (d ∷ p) = false
starts_with (c ∷ s) (d ∷ p) = nat_eq c d && starts_with s p

-- `p in s`
unfoldable pub contains : Text → Text → Bool
unfolding starts_with
contains p [] = starts_with [] p
contains p (c ∷ s) = starts_with (c ∷ s) p || contains p s

-- The loop of `split`: `cur` is the part so far, and `skip` counts what is left of a separator that
-- was met. Separators are not empty.
unfoldable pub cut : Text → Text → Text → ℕ → List Text
unfolding starts_with
cut sep [] cur skip = cur ∷ []
cut sep (c ∷ s) cur (suc skip) = cut sep s cur skip
cut sep (c ∷ s) cur zero =
    let close = cur ∷ cut sep s [] (length sep - 1) in
    let extend = cut sep s (cur ++ (c ∷ [])) 0 in if starts_with (c ∷ s) sep then close else extend

-- `s.split(sep)`
unfoldable pub split : Text → Text → List Text
unfolding cut
split s sep = cut sep s [] 0

-- `sep.join(parts)`
unfoldable pub join : Text → List Text → Text
join sep [] = []
join sep (p ∷ []) = p
join sep (p ∷ q ∷ ps) = p ++ sep ++ join sep (q ∷ ps)

-- `s.replace(old, new)`
unfoldable pub replace : Text → Text → Text → Text
unfolding split join
replace s old new = join new (split s old)

-- The white space that `strip` removes, of ASCII.
unfoldable pub is_space : ℕ → Bool
is_space c = nat_eq c 32 || leb 9 c && leb c 13 || leb 28 c && leb c 31

unfoldable pub strip_left : Text → Text
unfolding is_space
strip_left [] = []
strip_left (c ∷ s) = let rest = strip_left s in if is_space c then rest else c ∷ s

unfoldable pub strip_right : Text → Text
unfolding is_space
strip_right [] = []
strip_right (c ∷ s) = elim (strip_right s) [
  | [] ↦ if is_space c then [] else c ∷ []
  | d ∷ r ↦ c ∷ d ∷ r
]

-- `s.strip()`
unfoldable pub strip : Text → Text
unfolding strip_left strip_right
strip s = strip_right (strip_left s)

-- `str(n)` of a number below 10 ^ fuel.
unfoldable pub digits : ℕ → ℕ → Text
digits zero n = []
digits (suc f) n =
    let more = digits f (n / 10) ++ ((b'0' + n % 10) ∷ []) in
    if ltb n 10 then (b'0' + n) ∷ [] else more

-- `str(n)`
unfoldable pub show : ℕ → Text
unfolding digits
show n = digits (suc n) n

-- The last part of a text, `parts[-1]`, and the one before it, `parts[-2]`.
unfoldable pub second_last : List Text → Option Text
second_last [] = none
second_last (p ∷ []) = none
second_last (p ∷ q ∷ []) = some p
second_last (p ∷ q ∷ r ∷ ps) = second_last (q ∷ r ∷ ps)

-- `s.lower()`, of ASCII
unfoldable pub lower : Text → Text
lower [] = []
lower (c ∷ s) = (if leb b'A' c && leb c b'Z' then c + 32 else c) ∷ lower s
