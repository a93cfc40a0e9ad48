-- ===== src/FastFix/Notes.antt =====
-- pipeline/fastfixmonitor.py: what is read from and taken off a whiteboard, with no request.
use yyou.Common.Maybe.{◌>>=◌}
use yyou.Common.{
  ℕ, ◌+◌, ◌-◌, ◌/◌, ◌%◌, Bool, false, ◌||◌, List, [], ◌∷◌, ◌++◌, Option, none, some, ltb, leb,
  ◌==◌ as nat_eq, if◌then◌else◌,
}
use yyou.Common.Int.{ℤ, pos, negsuc}
use yyou.Text.{Text, codes, contains, split, ◌==◌}
use yyou.Text.Regex.{rest_after}
use yyou.Datetime.{strptime_z}
use yyou.FastFix.{Comment, crlf, notify_note}

-- The first match in the lines of a whiteboard.
unfoldable pub first_time : Text → List Text → Option Text
unfolding rest_after
first_time prefix [] = none
first_time prefix (line ∷ lines) = elim (rest_after prefix line) [
  | none ↦ first_time prefix lines
  | some time ↦ some time
]

-- `getNotifyTime`
unfoldable pub get_notify_time : Text → Text → Option Text
unfolding first_time split
get_notify_time cf_qa_whiteboard id =
    first_time (notify_note id ++ codes " at UTC ") (split cf_qa_whiteboard crlf)

-- The loop of `removeNotifyWhiteBoard`.
unfoldable pub remaining : Text → List Text → Text → Text
unfolding contains
remaining id [] new_content = new_content
remaining id (line ∷ lines) new_content = remaining id lines (
    if contains (notify_note id ++ codes " at UTC") line
    then new_content
    else new_content ++ crlf ++ line)

abbrev pub ten_minutes : ℕ
ten_minutes = 600_000_000

abbrev pub half_hour : ℕ
half_hour = 1_800_000_000

-- The whole half hours from one time to ten minutes past another; `divmod` rounds down.
unfoldable pub half_hours : ℕ → ℕ → ℤ
half_hours notify current =
    let later = current + ten_minutes in
    if leb notify later
    then pos ((later - notify) / half_hour)
    else negsuc ((notify - later - 1) / half_hour)

-- The tests of `isSendTrackEmail` on the number of half hours.
unfoldable pub is_due : ℤ → ℕ → ℕ → Bool
is_due (negsuc n) interval offset = false
is_due (pos n) interval offset =
    if nat_eq n 0
    then false
    else (if ltb n offset then false else nat_eq ((n - offset) % interval) 0)

-- The loop of `isCommented`. Every comment of the contact is parsed, also behind one that counts.
unfoldable pub commented_since : Text → ℕ → List Comment → Option Bool
unfolding strptime_z ◌==◌
commented_since qa first_notify [] = some false
commented_since qa first_notify (c ∷ cs) =
    let parsed = strptime_z c.creation_time >>= (λ t.
      commented_since qa first_notify cs >>= (λ later. some (ltb first_notify t || later))) in
    let rest = commented_since qa first_notify cs in if c.creator == qa then parsed else rest
