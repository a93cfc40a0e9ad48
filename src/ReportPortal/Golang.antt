-- ===== src/ReportPortal/Golang.antt =====
-- pipeline/reportportal.py: the launches that are selected are golang launches.
use mathlib.Core.Option.{some-injective}
use yyou.Common.Maybe.{bind-some}
use yyou.Common.{
  ℕ, ◌≡◌, refl, sym, ap, Bool, true, false, not, ◌&&◌, ◌||◌, List, [], ◌∷◌, ◌++◌, some, arith, All,
  All-append, if◌then◌else◌, Bool-cases, inl, inr, ◌==◌ as nat_eq, ◌∙◌,
}
use yyou.Text.{Text, split, codes, ◌==◌}
use yyou.Text.Regex.{is_build_num}
use yyou.ReportPortal.{Attr, Launch, is_golang_launch, is_text}
use yyou.ReportPortal.Matching.{
  match_bids, is_same_job, match_attrs, match_team, match_teams, Matched, build_num_of, is_nil,
}

-- A golang launch with the id is among the launches.
unfoldable pub has_golang_id : ℕ → List Launch → Bool
has_golang_id id [] = false
has_golang_id id (l ∷ ls) = (is_golang_launch l.attributes && nat_eq l.id id) || has_golang_id id ls

abbrev pub IsGolangId : List Launch → ℕ → Type 0
IsGolangId content id = has_golang_id id content ≡ true

result-All {ℓ} : {A : Type ℓ} (Q : A → Type 0) (a b : A) → Q a → some a ≡ some b → Q b
result-All Q a b q e = rw (sym (some-injective a b e)) q

module _ (buildnum : Text) (id : ℕ) where
  abbrev Same : ℕ → Type 0
  Same i = id ≡ i

  keep-Same :
      (same : Bool) (ids : List ℕ) → All Same ids → All Same (if same then id ∷ ids else ids)
  keep-Same true ids a = (refl, a)
  keep-Same false ids a = a

  match_bids-Same :
      (bids : List Text) (ids : List ℕ) → match_bids buildnum id bids ≡ some ids → All Same ids
  unfolding match_bids
  match_bids-Same [] ids e = result-All (All Same) [] ids tt e
  match_bids-Same (bid ∷ bids) ids e = elim (Bool-cases (is_build_num bid)) [
    | inl good ↦
        let (same, _, rest) = bind-some (is_same_job buildnum bid) _ (rw good at e) in
        let (found, there, last) = bind-some (match_bids buildnum id bids) _ rest in
        result-All (All Same) (if same then id ∷ found else found) ids
          (keep-Same same found (match_bids-Same bids found there)) last
    | inr bad ↦ match_bids-Same bids ids (rw bad at e)
  ]

  match_attrs-Same :
      (st nums : Text) (as' : List Attr) (ids : List ℕ)
      → match_attrs buildnum id st nums as' ≡ some ids
      → All Same ids
  unfolding match_attrs
  match_attrs-Same st nums [] ids e = result-All (All Same) [] ids tt e
  match_attrs-Same st nums (a ∷ as') ids e =
      elim (Bool-cases (is_text a.key (codes "team") && is_text a.value st && not (nums == []))) [
        | inl good ↦
            let (here, e1, rest) =
              bind-some (match_bids buildnum id (split nums (codes ","))) _ (rw good at e) in
            let (found, there, last) = bind-some (match_attrs buildnum id st nums as') _ rest in
            result-All (All Same) (here ++ found) ids
              (All-append Same here found (match_bids-Same (split nums (codes ",")) here e1)
                (match_attrs-Same st nums as' found there))
              last
        | inr bad ↦ match_attrs-Same st nums as' ids (rw bad at e)
      ]

IsGolangId-later :
    (l : Launch) (ls : List Launch) (ids : List ℕ)
    → All (IsGolangId ls) ids
    → All (IsGolangId (l ∷ ls)) ids
unfolding has_golang_id
IsGolangId-later l ls [] a = tt
IsGolangId-later l ls (id ∷ ids) a = (ground (arith, a.0), IsGolangId-later l ls ids a.1)

IsGolangId-here :
    (l : Launch) (ls : List Launch) (ids : List ℕ)
    → is_golang_launch l.attributes ≡ true
    → All (λ i. l.id ≡ i) ids
    → All (IsGolangId (l ∷ ls)) ids
unfolding has_golang_id
IsGolangId-here l ls [] golang a = tt
IsGolangId-here l ls (id ∷ ids) golang a =
    (ground (arith, a.0, golang), IsGolangId-here l ls ids golang a.1)

match_team-IsGolangId :
    (buildnum st : Text) (ls : List Launch) (ids : List ℕ)
    → match_team buildnum st ls ≡ some ids
    → All (IsGolangId ls) ids
unfolding match_team
match_team-IsGolangId buildnum st [] ids e = result-All (All (IsGolangId [])) [] ids tt e
match_team-IsGolangId buildnum st (l ∷ ls) ids e =
    elim (Bool-cases (is_golang_launch l.attributes)) [
      | inl golang ↦
          let (here, e1, rest) =
            bind-some (match_attrs buildnum l.id st (build_num_of l.attributes []) l.attributes) _
              (rw golang at e) in
          let (found, there, last) = bind-some (match_team buildnum st ls) _ rest in
          result-All (All (IsGolangId (l ∷ ls))) (here ++ found) ids
            (All-append (IsGolangId (l ∷ ls)) here found
              (IsGolangId-here l ls here golang (
                match_attrs-Same buildnum l.id st (build_num_of l.attributes []) l.attributes here
                  e1))
              (IsGolangId-later l ls found (match_team-IsGolangId buildnum st ls found there)))
            last
      | inr non_golang ↦
          IsGolangId-later l ls ids (match_team-IsGolangId buildnum st ls ids (rw non_golang at e))
    ]

-- No launch matches the subteam.
abbrev pub IsUnmatched : Text → List Launch → Text → Type 0
IsUnmatched buildnum content st = match_team buildnum st content ≡ some []

is_nil-nil : (ids : List ℕ) → is_nil ids ≡ true → ids ≡ []
is_nil-nil [] e = refl
is_nil-nil (id ∷ ids) e = absurd (cc)

-- If the subteams are matched without an error, each id that is returned is the id of a golang launch
-- of the answer, and each subteam that is left for a later run matches no launch of it.
pub match_teams-IsGolangId :
    (buildnum : Text) (sts : List Text) (content : List Launch) (m : Matched)
    → match_teams buildnum sts content ≡ some m
    → All (IsGolangId content) m.ids × All (IsUnmatched buildnum content) m.subteam_not_matched
unfolding match_teams
match_teams-IsGolangId buildnum [] content m e =
    result-All
      (λ m.
        All (IsGolangId content) m.ids × All (IsUnmatched buildnum content) m.subteam_not_matched)
      _ m (tt, tt) e
match_teams-IsGolangId buildnum (st ∷ sts) content m e =
    let (here, e1, rest) = bind-some (match_team buildnum st content) _ e in
    let (found, there, last) = bind-some (match_teams buildnum sts content) _ rest in
    let (golang, unmatched) = match_teams-IsGolangId buildnum sts content found there in
    result-All
      (λ m.
        All (IsGolangId content) m.ids × All (IsUnmatched buildnum content) m.subteam_not_matched)
      _ m
      (
        All-append (IsGolangId content) here found.ids
            (match_team-IsGolangId buildnum st content here e1) golang,
        elim (Bool-cases (is_nil here)) [
          | inl nothing ↦ rw nothing (e1 ∙ ap some (is_nil-nil here nothing), unmatched)
          | inr matched ↦ rw matched unmatched
        ],
      )
      last
