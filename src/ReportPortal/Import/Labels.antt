-- ===== src/ReportPortal/Import/Labels.antt =====
-- pipeline/reportportal.py: the attributes that `importResult` gives a new launch are those by which
-- `logResult` finds it again.
use mathlib.Core.Option.{some-injective}
use yyou.Common.Maybe.{bind-some}
use yyou.Common.{
  not, ◌≡◌, ◌≢◌, refl, sym, ap, ◌∙◌, subst, inl, inr, Bool, true, false, ◌&&◌, ◌||◌, List, [], ◌∷◌,
  ◌++◌, Option, none, some, arith, Bool-cases, if◌then◌else◌, map, append-nil,
}
use yyou.Text.{Text, codes, ◌==◌}
use yyou.Text.Laws.{eq_refl}
use yyou.Dict.{Dict, lookup, insert, lookup-insert}
use yyou.Settings.{Yaml, null, scalar, literal, sequence, mapping, index}
use yyou.ReportPortal.{
  Attr, Launch, Change, create, delete, update, Args, is_golang_launch, is_text,
}
use yyou.ReportPortal.Launches.{
  AttrAction, to_add, to_update, to_delete, change_of, fitting, select_launches,
}
use yyou.ReportPortal.Import.{
  ImportArgs, Host, first_attributes, import_attributes, add_fields, attr_key_list, telco,
  trial_key,
}
use yyou.ReportPortal.Values.{has_key, is_text_value}

-- A text value as the service stores it; of other values nothing is said.
abbrev attr_value : Yaml → Option Text
attr_value (scalar s) = some s
attr_value null = none
attr_value (literal s) = none
attr_value (sequence vs) = none
attr_value (mapping es) = none

-- The attributes of a new launch after the changes that create one.
abbrev pub created_by : List Change → List Attr
created_by [] = []
created_by (create k v ∷ cs) = record { key = some k; value = attr_value v } ∷ created_by cs
created_by (delete k v ∷ cs) = created_by cs
created_by (update k v v' ∷ cs) = created_by cs

-- A launch after changes that only create attributes.
abbrev pub changed : List Change → Launch → Launch
changed cs l = record {
  id = l.id;
  uuid = l.uuid;
  start_time = l.start_time;
  end_time = l.end_time;
  attributes = l.attributes ++ created_by cs;
}

-- Some attribute has the key and the value.
unfoldable has_attr : Text → Text → List Attr → Bool
unfolding is_text
has_attr k v [] = false
has_attr k v (a ∷ as') = (is_text a.key k && is_text a.value v) || has_attr k v as'

lookup-has_attr :
    (k v : Text) (d : Dict AttrAction)
    → lookup k d ≡ some (to_add (scalar v))
    → has_attr k v (created_by (map change_of d)) ≡ true
unfolding lookup has_attr change_of is_text
lookup-has_attr k v [] e = absurd (cc)
lookup-has_attr k v ((j, to_add y) ∷ d) e = elim (Bool-cases (j == k)) [
  | inl here ↦
      let same : some (to_add y) ≡ some (to_add (scalar v)) = rw here at e in
      let value : y ≡ scalar v = cc in rw (here, value, eq_refl v) refl
  | inr there ↦ rw there (lookup-has_attr k v d (rw there at e))
]
lookup-has_attr k v ((j, to_update o n) ∷ d) e = elim (Bool-cases (j == k)) [
  | inl here ↦
      let same : some (to_update o n) ≡ some (to_add (scalar v)) = rw here at e in absurd (cc)
  | inr there ↦ lookup-has_attr k v d (rw there at e)
]
lookup-has_attr k v ((j, to_delete o) ∷ d) e = elim (Bool-cases (j == k)) [
  | inl here ↦
      let same : some (to_delete o) ≡ some (to_add (scalar v)) = rw here at e in absurd (cc)
  | inr there ↦ lookup-has_attr k v d (rw there at e)
]

has_attr-golang :
    (as' : List Attr) → is_golang_launch as' ≡ has_attr (codes "launchtype") (codes "golang") as'
unfolding is_golang_launch has_attr
has_attr-golang [] = refl
has_attr-golang (a ∷ as') = ground (arith, has_attr-golang as')

has_attr-append :
    (k v : Text) (xs ys : List Attr) → has_attr k v ys ≡ true → has_attr k v (xs ++ ys) ≡ true
unfolding has_attr
has_attr-append k v [] ys h = h
has_attr-append k v (a ∷ xs) ys h = ground (arith, has_attr-append k v xs ys h)

fitting-ne-nil :
    (k v : Text) (l : Launch) (as' : List Attr)
    → has_attr k v as' ≡ true
    → fitting k (some v) l as' ≢ []
unfolding fitting has_attr
fitting-ne-nil k v l [] h = absurd (cc)
fitting-ne-nil k v l (a ∷ as') h = ground (arith, fitting-ne-nil k v l as')

-- The keys of a profile are written without touching another key.
unfoldable all_other : Text → List Text → Bool
all_other k [] = true
all_other k (j ∷ js) = not (j == k) && all_other k js

all_other-cons :
    (k j : Text) (js : List Text)
    → all_other k (j ∷ js) ≡ true
    → ((j == k) ≡ false) × (all_other k js ≡ true)
unfolding all_other
all_other-cons k j js h = elim (Bool-cases (j == k)) [
  | inl same ↦ let no : false ≡ true = rw same at h in absurd (cc)
  | inr differs ↦ (differs, rw differs at h)
]

add_fields-other :
    (k : Text) (fields : Yaml) (ks : List Text) (d out : Dict AttrAction)
    → all_other k ks ≡ true
    → add_fields fields ks d ≡ some out
    → lookup k out ≡ lookup k d
unfolding add_fields
add_fields-other k fields [] d out other e = ap (lookup k) (sym (some-injective d out e))
add_fields-other k fields (j ∷ js) d out h e =
    let other = all_other-cons k j js h in
    let (there, _, e1) = bind-some (has_key fields j) _ e in
    elim (Bool-cases there) [
      | inl yes_there ↦
          let (next, e2, e3) = bind-some _ (add_fields fields js) (rw yes_there at e1) in
          let (v, _, e4) = bind-some _ (λ v. some (insert j (to_add v) d)) e2 in
          add_fields-other k fields js next out other.1 e3
          ∙ ap (lookup k) (sym (some-injective _ next e4))
          ∙ rw (lookup-insert, other.0) refl
      | inr not_there ↦ add_fields-other k fields js d out other.1 (rw not_there at e1)
    ]

team-other : all_other (codes "team") attr_key_list ≡ true
unfolding all_other ◌==◌
team-other = refl

launchtype-other : all_other (codes "launchtype") attr_key_list ≡ true
unfolding all_other ◌==◌
launchtype-other = refl

module _ (args : Args) (a : ImportArgs) (host : Host) where
  -- What is known of the attributes: the two by which launches are selected.
  abbrev pub IsLabelled : Dict AttrAction → Type 0
  IsLabelled d =
      (lookup (codes "team") d ≡ some (to_add (scalar args.subteam)))
      × (lookup (codes "launchtype") d ≡ some (to_add (scalar (codes "golang"))))

  first-IsLabelled : (more : Dict AttrAction) → IsLabelled (first_attributes args a host ++ more)
  unfolding first_attributes lookup ◌==◌
  first-IsLabelled more = (refl, refl)

  first_alone-IsLabelled : IsLabelled (first_attributes args a host)
  unfolding first_attributes lookup ◌==◌
  first_alone-IsLabelled = (refl, refl)

  add_fields-IsLabelled :
      (fields : Yaml) (d out : Dict AttrAction)
      → add_fields fields attr_key_list d ≡ some out
      → IsLabelled d
      → IsLabelled out
  add_fields-IsLabelled fields d out e (t, l) = (
    add_fields-other (codes "team") fields attr_key_list d out team-other e ∙ t,
    add_fields-other (codes "launchtype") fields attr_key_list d out launchtype-other e ∙ l,
  )

  pub import_attributes-IsLabelled :
      (o : Option Yaml) (d : Dict AttrAction)
      → import_attributes args a host o ≡ some d
      → IsLabelled d
  unfolding import_attributes
  import_attributes-IsLabelled none d e =
      subst IsLabelled (some-injective _ d e)
        (either (is_text_value (telco args a host) (codes "unknowntelcoprofilename")))
    where
      either :
          (b : Bool)
          → IsLabelled (
              if b
              then first_attributes args a host
              else first_attributes args a host
                ++ ((codes "profilename", to_add (telco args a host)) ∷ []))
      either true = first_alone-IsLabelled
      either false = first-IsLabelled ((codes "profilename", to_add (telco args a host)) ∷ [])
  import_attributes-IsLabelled (some att_map) d e =
      let (fields, _, e1) = bind-some (index att_map (codes "custom_fields")) _ e in
      add_fields-IsLabelled fields _ d e1 (
        first-IsLabelled (
          (
            codes "profilename",
            (if is_text_value (telco args a host) (codes "unknowntelcoprofilename")
                then to_add (scalar a.profilename)
                else to_add (telco args a host)),
          )
          ∷ (trial_key args a host, to_add (scalar (codes "\"\"")))
          ∷ []))

  -- A launch with these changes is a launch of its subteam for the next `logResult`.
  pub labelled-selected :
      (d : Dict AttrAction) (l : Launch)
      → IsLabelled d
      → select_launches (some (codes "team", some args.subteam)) (changed (map change_of d) l ∷ [])
        ≢ []
  unfolding select_launches
  labelled-selected d l (t, g) =
      let new : List Attr = created_by (map change_of d) in
      let all : List Attr = l.attributes ++ new in
      let golang : is_golang_launch all ≡ true =
        has_attr-golang all
        ∙ has_attr-append (codes "launchtype") (codes "golang") l.attributes new
            (lookup-has_attr (codes "launchtype") (codes "golang") d g) in
      let team : has_attr (codes "team") args.subteam all ≡ true =
        has_attr-append (codes "team") args.subteam l.attributes new
          (lookup-has_attr (codes "team") args.subteam d t) in
      rw golang (
        rw
          (append-nil
            (fitting (codes "team") (some args.subteam) (changed (map change_of d) l) all))
          (fitting-ne-nil (codes "team") args.subteam (changed (map change_of d) l) all team))
