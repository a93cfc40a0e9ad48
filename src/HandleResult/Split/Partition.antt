-- ===== src/HandleResult/Split/Partition.antt =====
-- pipeline/handleresult.py: which document of `splitRP` a case goes to.
use mathlib.Core.Option.{some-injective}
use yyou.Common.{
  ◌≡◌, refl, sym, ◌∙◌, Bool, true, false, List, [], ◌∷◌, ◌++◌, Option, none, some, arith, All, keep,
  map, append_assoc, append-nil, if◌then◌else◌, Bool-cases, inl, inr, ap, map, subst,
}
use yyou.Text.{Text, codes, ◌==◌, contains, split, member}
use yyou.Text.Laws.{eq_sound}
use yyou.Text.Pieces.{get_elem?-total, split_two}
use yyou.Dict.{Dict, lookup, insert, lookup-insert, NodupKeys, insert-NodupKeys}
use yyou.Junit.{Testcase}
use yyou.HandleResult.Names.Laws.{get_names-total}
use yyou.HandleResult.Split.{CaseDesc, Mod, add_case, collect_mods, team_of, subteam}
use yyou.HandleResult.Split.Balance.{collect_mods_inv}

abbrev mod_cases : Option Mod → List Testcase
mod_cases none = []
mod_cases (some v) = map (λ d. d.case) v.cases

-- The cases of a subteam, in order.
abbrev pub cases_of : Text → Dict Mod → List Testcase
cases_of k mods = mod_cases (lookup k mods)

-- Whether a case belongs to a subteam.
unfoldable pub in_team : Text → Testcase → Bool
in_team k c = elim (team_of c.name) [ none ↦ false | some team ↦ team == k ]

map-append_one {ℓ κ} :
    {A : Type ℓ} {B : Type κ} (f : A → B) (xs : List A) (x : A)
    → map f (xs ++ (x ∷ [])) ≡ map f xs ++ (f x ∷ [])
map-append_one f [] x = refl
map-append_one f (y ∷ ys) x = ap (◌∷◌ (f y)) (map-append_one f ys x)

mod_cases-add_case :
    (o : Option Mod) (d : CaseDesc) → mod_cases (some (add_case o d)) ≡ mod_cases o ++ (d.case ∷ [])
unfolding add_case
mod_cases-add_case none d = refl
mod_cases-add_case (some v) d = map-append_one (λ e. e.case) v.cases d

cases_of-insert :
    (k team : Text) (d : CaseDesc) (mods : Dict Mod)
    → cases_of k (insert team (add_case (lookup team mods) d) mods)
      ≡ (if team == k then cases_of k mods ++ (d.case ∷ []) else cases_of k mods)
cases_of-insert k team d mods = elim (Bool-cases (team == k)) [
  | inl same ↦
      rw (lookup-insert, same)
        (mod_cases-add_case (lookup team mods) d
          ∙ ap (λ j. mod_cases (lookup j mods) ++ (d.case ∷ [])) (eq_sound team k same))
  | inr other ↦ rw (lookup-insert, other)
]

collect_mods-cases_of :
    (k : Text) (cs : List Testcase) (mods : Dict Mod) {out : Dict Mod}
    → collect_mods cs mods ≡ some out
    → cases_of k out ≡ cases_of k mods ++ keep (in_team k) cs
unfolding collect_mods keep in_team
collect_mods-cases_of k [] mods {out} e =
    ap (cases_of k) (sym (some-injective mods out e)) ∙ sym (append-nil (cases_of k mods))
collect_mods-cases_of k (c ∷ cs) mods e =
    let (team, names, t, f, rest) = collect_mods_inv c cs mods e in
    let d : CaseDesc = record { case = c; names = names } in
    ground (
      arith,
      collect_mods-cases_of k cs (insert team (add_case (lookup team mods) d) mods) rest,
      cases_of-insert k team d mods,
      append_assoc (cases_of k mods) (c ∷ []) (keep (in_team k) cs),
    )

collect_mods-NodupKeys :
    (cs : List Testcase) (mods : Dict Mod) {out : Dict Mod}
    → NodupKeys mods
    → collect_mods cs mods ≡ some out
    → NodupKeys out
unfolding collect_mods
collect_mods-NodupKeys [] mods {out} h e = subst NodupKeys (some-injective mods out e) h
collect_mods-NodupKeys (c ∷ cs) mods h e =
    let (team, names, t, f, rest) = collect_mods_inv c cs mods e in
    collect_mods-NodupKeys cs _ (insert-NodupKeys team _ mods h) rest

-- If the first loop of `splitRP` raises nothing, it sorts the cases by subteam: no subteam has two
-- records, and the record of a subteam holds the cases that belong to it, each as often as in the input
-- and in its order.
pub collect_mods-partition :
    (cs : List Testcase) (mods : Dict Mod)
    → collect_mods cs [] ≡ some mods
    → NodupKeys mods × ((k : Text) → cases_of k mods ≡ keep (in_team k) cs)
unfolding lookup
collect_mods-partition cs mods e =
    (collect_mods-NodupKeys cs [] tt e, λ k. collect_mods-cases_of k cs [] e)

pub team_of-total :
    (name : Text) → contains (codes " ") name ≡ true → (t : Text) × (team_of name ≡ some t)
unfolding team_of
team_of-total name h =
    let (word, e) =
      get_elem?-total (split name (codes " ")) 1 (split_two name (codes " ") (omega arith) h) in
    ((if member word subteam then word else codes "Unknown"), rw e refl)

pub collect_mods-total :
    (cs : List Testcase) (mods : Dict Mod)
    → All (λ c. contains (codes " ") c.name ≡ true) cs
    → (out : Dict Mod) × (collect_mods cs mods ≡ some out)
unfolding collect_mods
collect_mods-total [] mods h = (mods, refl)
collect_mods-total (c ∷ cs) mods h =
    let (team, e) = team_of-total c.name h.0 in
    let (names, f, _) = get_names-total c.name in
    let (out, g) =
      collect_mods-total cs
        (insert team (add_case (lookup team mods) (record { case = c; names = names })) mods) h.1 in
    (out, rw (e, f) g)
