-- ===== src/CaseIds/Laws.antt =====
-- What `getFailCaseID` of pipeline/getfailcaseid.py answers.
use yyou.Common.{ℕ, ◌≡◌, subst, List, [], ◌∷◌, Option, none, some, All}
use yyou.Text.{Text, codes, join}
use yyou.Session.{World, Event, ok, pure, guard, from_option, when_some, send, is_200}
use yyou.Session.Steps.{bind-ok, attempt-some, from_option-ok}
use yyou.ReportPortal.{Item, Body, Request, Args}
use yyou.ReportPortal.Launches.{items_of}
use yyou.ReportPortal.FailCases.{fail_cases}
use yyou.ReportPortal.FailCases.Laws.{IsCaseNumber, fail_cases-IsCaseNumber}
use yyou.CaseIds.{answer_of, get_launch_id_with_launch_name, answer_for, get_fail_case_id}

-- One of the two messages, or the numbers of one case or more.
pub data IsAnswer : Text → Type 0 where
  no_launch : IsAnswer (codes "no Launch is found")
  no_fail : IsAnswer (codes "No fail case")
  numbers :
      (t : Text) (ts : List Text) → All IsCaseNumber (t ∷ ts) → IsAnswer (join (codes "|") (t ∷ ts))

pure-value :
    (Q : Text → Type 0) (a b : Text) (h : List (Event Request))
    → Q a
    → (pure (some a) h).0 ≡ ok (some b)
    → Q b
unfolding pure
pure-value Q a b h q e = let same : a ≡ b = cc in subst Q same q

answer_of-IsAnswer : (is : List Item) (t : Text) → answer_of is ≡ some t → IsAnswer t
unfolding answer_of
answer_of-IsAnswer [] t e = let same : codes "No fail case" ≡ t = cc in subst IsAnswer same no_fail
answer_of-IsAnswer (i ∷ is) t e =
    from_numbers (fail_cases (i ∷ is)) (fail_cases-IsCaseNumber (i ∷ is)) e
  where
    from_numbers :
        (ts : List Text)
        → All IsCaseNumber ts
        → elim ts [ [] ↦ none | u ∷ us ↦ some (join (codes "|") (u ∷ us)) ] ≡ some t
        → IsAnswer t
    from_numbers [] a e = absurd (cc)
    from_numbers (u ∷ us) a e =
        let same : join (codes "|") (u ∷ us) ≡ t = cc in subst IsAnswer same (numbers u us a)

module _ (args : Args) (w : World Request Body) where
  answer_for-IsAnswer :
      (id : ℕ) (h : List (Event Request)) (t : Text)
      → (answer_for args w id h).0 ≡ ok (some t)
      → IsAnswer t
  unfolding answer_for
  answer_for-IsAnswer id h t e =
      let (body, _) = attempt-some _ h e in
      let (r, _, e1, _) = bind-ok (send w _) _ h body in
      let (_, _, e2, _) = bind-ok (guard (is_200 r)) _ _ e1 in
      let (content, _, e3, _) = bind-ok (from_option (items_of r.json)) _ _ e2 in
      let (answer, e4, e5, _) = bind-ok (from_option (answer_of content)) _ _ e3 in
      pure-value IsAnswer answer t _
        (answer_of-IsAnswer content answer (from_option-ok _ answer _ e4)) e5

  found-IsAnswer :
      (o : Option ℕ) (h : List (Event Request)) (t : Text)
      → (when_some o (pure (some (codes "no Launch is found"))) (answer_for args w) h).0
        ≡ ok (some t)
      → IsAnswer t
  unfolding when_some
  found-IsAnswer none h t e = pure-value IsAnswer (codes "no Launch is found") t h no_launch e
  found-IsAnswer (some id) h t e = answer_for-IsAnswer id h t e

  -- Whatever the service answers, the script prints one of its two messages, or the numbers of one case
  -- or more, each of four digits or more, joined by `|`, unless it returns `None` after an error.
  pub get_fail_case_id-IsAnswer :
      (h : List (Event Request)) (t : Text)
      → (get_fail_case_id args w h).0 ≡ ok (some t)
      → IsAnswer t
  unfolding get_fail_case_id
  get_fail_case_id-IsAnswer h t e =
      let (o, _, rest, _) =
        bind-ok (get_launch_id_with_launch_name args w args.launchname (codes "team") args.subteam)
          _ h e in
      found-IsAnswer o _ t rest
