-- ===== src/Text/Regex.antt =====
-- The regular expressions of the scripts, each as a function that reads one match at the start of a
-- text, and `re.findall` over such a function. `\d` and `\w` are those of ASCII.
use yyou.Common.{
  ℕ, zero, suc, ◌+◌, ◌-◌, Bool, true, false, ◌&&◌, ◌||◌, List, [], ◌∷◌, Option, none, some, leb,
  ◌==◌ as nat_eq, if◌then◌else◌, length, drop, take, get_elem?,
}
use yyou.Text.{Text, starts_with, codes}

-- `\d`
unfoldable pub is_digit : ℕ → Bool
is_digit c = leb b'0' c && leb c b'9'

-- `[a-zA-Z]`
unfoldable pub is_letter : ℕ → Bool
is_letter c = leb b'a' c && leb c b'z' || leb b'A' c && leb c b'Z'

-- `\w`
unfoldable pub is_word : ℕ → Bool
unfolding is_digit is_letter
is_word c = is_digit c || is_letter c || nat_eq c b'_'

-- How many characters in a row pass the test: what a greedy `x*` takes.
unfoldable pub run : (ℕ → Bool) → Text → ℕ
run p [] = 0
run p (c ∷ s) = if p c then suc (run p s) else 0

-- Whether the text goes on with a given character behind `n` others.
unfoldable pub at : Text → ℕ → ℕ → Bool
at s n c = elim (get_elem? s n) [ none ↦ false | some d ↦ nat_eq c d ]

-- A pattern gives the length of its match at the start of a text. No pattern matches the empty text.
abbrev pub Pattern : Type 0
Pattern = Text → Option ℕ

-- `re.findall`: the matches from left to right that do not overlap. `skip` counts what is left of the
-- last match.
unfoldable pub scan : Pattern → Text → ℕ → List Text
scan p [] skip = []
scan p (c ∷ s) (suc skip) = scan p s skip
scan p (c ∷ s) zero = elim (p (c ∷ s)) [
  | none ↦ scan p s 0
  | some n ↦ take n (c ∷ s) ∷ scan p s (n - 1)
]

unfoldable pub findall : Pattern → Text → List Text
unfolding scan
findall p s = scan p s 0

-- `\d{5,}-`: the digits are followed by `-`, so a match takes all of them.
unfoldable pub case_id : Pattern
unfolding is_digit run at
case_id s = let n = run is_digit s in if leb 5 n && at s n b'-' then some (n + 1) else none

-- `Author:\w+-`: `-` is no word character, so a match takes all word characters.
unfoldable pub author_tag : Pattern
unfolding is_word run at starts_with
author_tag s =
    let n = run is_word (drop 7 s) in
    if starts_with s (codes "Author:") && (leb 1 n && at s (n + 7) b'-') then some (n + 8) else none

-- `OCP-\d{4,}`
unfoldable pub ocp_id : Pattern
unfolding is_digit run starts_with
ocp_id s =
    let n = run is_digit (drop 4 s) in
    if starts_with s (codes "OCP-") && leb 4 n then some (n + 4) else none

-- `re.match('(\d+)-([a-zA-Z]+)_(.+)', s)`: `.` is any character but a line feed.
unfoldable pub is_build_num : Text → Bool
unfolding is_digit is_letter run at
is_build_num s =
    let d = run is_digit s in
    let l = run is_letter (drop (d + 1) s) in
    leb 1 d
    && at s d b'-'
    && (leb 1 l && at s (d + 1 + l) b'_')
    && leb 1 (run (λ c. if nat_eq c 10 then false else true) (drop (d + l + 2) s))

-- `re.findall(prefix + '(.*)', s)[0]`: what stands behind the first occurrence of the prefix, up to
-- the end of its line.
unfoldable pub rest_after : Text → Text → Option Text
unfolding starts_with run
rest_after prefix [] = none
rest_after prefix (c ∷ s) =
    let more = drop (length prefix) (c ∷ s) in
    if starts_with (c ∷ s) prefix
    then some (take (run (λ d. if nat_eq d 10 then false else true) more) more)
    else rest_after prefix s
