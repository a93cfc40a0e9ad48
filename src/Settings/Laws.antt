-- ===== src/Settings/Laws.antt =====
-- A value that is written at a path is looked up there.
use yyou.Common.{
  ◌≡◌, refl, ap, ◌∙◌, true, false, List, [], ◌∷◌, Option, none, some, All, if◌then◌else◌,
  Bool-cases, inl, inr,
}
use yyou.Common.Maybe.{◌>>=◌}
use yyou.Text.{Text, codes, join, ◌==◌}
use yyou.Text.Laws.{eq_refl, eq_sound}
use yyou.Text.Joining.{Lacks, split-join}
use yyou.Settings.{
  Yaml, scalar, null, literal, sequence, mapping, Entries, empty, entry, is_key, find, index, walk,
  or_fail, get,
}

abbrev entries_of : Yaml → Entries
entries_of null = empty
entries_of (scalar s) = empty
entries_of (literal s) = empty
entries_of (sequence vs) = empty
entries_of (mapping es) = es

-- The entries with a new value for a key, in the place of the old one if there is one.
unfoldable pub put_entry : Text → Yaml → Entries → Entries
put_entry k v empty = entry (some k) v empty
put_entry k v (entry key value rest) =
    let later = put_entry k v rest in
    if is_key key k then entry key v rest else entry key value later

abbrev or_empty : Option Yaml → Yaml
or_empty none = mapping empty
or_empty (some v) = v

-- A document with a new value at a path; what is no mapping on the way is replaced by one.
unfoldable pub put : List Text → Yaml → Yaml → Yaml
put [] v content = v
put (k ∷ ks) v content =
    mapping (put_entry k (put ks v (or_empty (find k (entries_of content)))) (entries_of content))

find-put_entry : (k : Text) (v : Yaml) (es : Entries) → find k (put_entry k v es) ≡ some v
unfolding find put_entry is_key
find-put_entry k v empty = rw (eq_refl k) refl
find-put_entry k v (entry key value rest) = elim (Bool-cases (is_key key k)) [
  | inl here ↦ rw here (rw here refl)
  | inr later ↦ rw later (rw later (find-put_entry k v rest))
]

is_key-other :
    (key : Option Text) (j k : Text) → is_key key j ≡ true → (j == k) ≡ false → is_key key k ≡ false
unfolding is_key
is_key-other none j k here other = absurd (cc)
is_key-other (some i) j k here other = rw (eq_sound i j here) other

find-put_entry_other :
    (j k : Text) (v : Yaml) (es : Entries)
    → (j == k) ≡ false
    → find k (put_entry j v es) ≡ find k es
unfolding find put_entry is_key
find-put_entry_other j k v empty other = rw other refl
find-put_entry_other j k v (entry key value rest) other = elim (Bool-cases (is_key key j)) [
  | inl here ↦ rw (here, is_key-other key j k here other) refl
  | inr later ↦ rw (later, find-put_entry_other j k v rest other) refl
]

index-entries_of : (content : Yaml) (k : Text) → index content k ≡ find k (entries_of content)
unfolding index find
index-entries_of null k = refl
index-entries_of (scalar s) k = refl
index-entries_of (literal s) k = refl
index-entries_of (sequence vs) k = refl
index-entries_of (mapping es) k = refl

walk-put : (ks : List Text) (v content : Yaml) → walk ks (put ks v content) ≡ some v
unfolding walk put index
walk-put [] v content = refl
walk-put (k ∷ ks) v content =
    rw (find-put_entry k (put ks v (or_empty (find k (entries_of content)))) (entries_of content))
      (walk-put ks v (or_empty (find k (entries_of content))))

-- For keys without a colon, the value that is put at a path is what is got at the keys joined by
-- colons, whatever the document held before.
pub get-put :
    (k : Text) (ks : List Text) (v content : Yaml)
    → All (Lacks b':') (k ∷ ks)
    → get (put (k ∷ ks) v content) (join (codes ":") (k ∷ ks)) ≡ v
unfolding get
get-put k ks v content lacks =
    ap (λ path. or_fail (walk path (put (k ∷ ks) v content))) (split-join b':' k ks lacks)
    ∙ ap or_fail (walk-put (k ∷ ks) v content)

-- For keys without a colon, what is put at a path changes nothing that is got at a path with another
-- first key.
get-put_other :
    (j : Text) (js : List Text) (v : Yaml) (k : Text) (ks : List Text) (content : Yaml)
    → All (Lacks b':') (k ∷ ks)
    → (j == k) ≡ false
    → get (put (j ∷ js) v content) (join (codes ":") (k ∷ ks))
      ≡ get content (join (codes ":") (k ∷ ks))
unfolding get walk put
get-put_other j js v k ks content lacks other =
    let es = entries_of content in
    let inner = put js v (or_empty (find j es)) in
    rw (split-join b':' k ks lacks, index-entries_of content k)
      (ap (λ found. or_fail (found >>= walk ks))
        (index-entries_of (mapping (put_entry j inner es)) k
          ∙ find-put_entry_other j k inner es other))
