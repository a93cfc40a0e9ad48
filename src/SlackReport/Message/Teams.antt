-- ===== src/SlackReport/Message/Teams.antt =====
-- pipeline/auto_result_tool/collect_result_to_slack.py: the lines of the message on the subteams.
use mathlib.Core.Option.{some-injective}
use yyou.Common.Maybe.{bind-some, ◌>>=◌ as ◌>>=?◌}
use yyou.Common.{
  ℕ, ◌*◌, ◌≡◌, refl, ap, ◌∙◌, sym, Bool, false, not, List, [], ◌∷◌, ◌++◌, Option, none, some, arith,
  Bool-cases, inl, inr, ◌==◌ as nat_eq, count, length, length-append,
}
use yyou.Text.{Text}
use yyou.Session.{World, Event, raised, from_option, ◌>>=◌}
use yyou.SlackReport.{Body, Request, Args}
use yyou.SlackReport.Collect.{CaseResult, Testrun, Result}
use yyou.SlackReport.Message.{team_lines, all_team_lines, notification, report_testruns}

abbrev pub has_failed : Option Text × CaseResult → Bool
has_failed (team, c) = not (nat_eq c.counts.failed 0)

bind-none {ℓ κ} :
    {A : Type ℓ} {B : Type κ} (o : Option A) (f : A → Option B)
    → ((a : A) → f a ≡ none)
    → ◌>>=?◌ o f ≡ none
bind-none none f e = refl
bind-none (some a) f e = e a

module _ (ui_url : Text) where
  team_lines-length :
      (team : Option Text) (c : CaseResult) (out : List Text × Text)
      → team_lines ui_url team c ≡ some out
      → length out.0 ≡ 3
  unfolding team_lines
  team_lines-length none c out e = absurd (cc)
  team_lines-length (some t) c out e =
      let (faild, _, last) = bind-some c.faild_case _ e in
      ap (λ (o : List Text × Text). length o.0) (sym (some-injective _ out last))

  team_lines-none :
      (team : Option Text) (c : CaseResult) → c.faild_case ≡ none → team_lines ui_url team c ≡ none
  unfolding team_lines
  team_lines-none none c e = refl
  team_lines-none (some t) c e = rw e refl

  -- Where it does not raise, the message has three lines for each subteam with failures, and none for
  -- any other.
  all_team_lines-length :
      (cs : List (Option Text × CaseResult)) (out : List Text × Text)
      → all_team_lines ui_url cs ≡ some out
      → length out.0 ≡ 3 * count has_failed cs
  unfolding all_team_lines count
  all_team_lines-length [] out e =
      ap (λ (o : List Text × Text). length o.0) (sym (some-injective _ out e))
  all_team_lines-length ((team, c) ∷ cs) out e = elim (Bool-cases (nat_eq c.counts.failed 0)) [
    | inl fine ↦ rw fine (omega (arith, all_team_lines-length cs out (rw fine at e)))
    | inr failed ↦
        let (mine, e1, more) = bind-some (team_lines ui_url team c) _ (rw failed at e) in
        let (rest, e2, last) = bind-some (all_team_lines ui_url cs) _ more in
        let same : length (mine.0 ++ rest.0) ≡ length out.0 =
          ap (λ (o : List Text × Text). length o.0) (some-injective _ out last) in
        rw failed (
          omega (
            arith,
            same,
            length-append mine.0 rest.0,
            team_lines-length team c mine e1,
            all_team_lines-length cs rest e2,
          ))
  ]

  all_team_lines_no_ids :
      (before after : List (Option Text × CaseResult)) (team : Option Text) (c : CaseResult)
      → nat_eq c.counts.failed 0 ≡ false
      → c.faild_case ≡ none
      → all_team_lines ui_url (before ++ ((team, c) ∷ after)) ≡ none
  unfolding all_team_lines
  all_team_lines_no_ids [] after team c f e = rw (f, team_lines-none team c e) refl
  all_team_lines_no_ids ((t, b) ∷ before) after team c f e =
      let later = all_team_lines_no_ids before after team c f e in
      elim (Bool-cases (nat_eq b.counts.failed 0)) [
        | inl fine ↦ rw fine later
        | inr failed ↦ rw (failed, later) (bind-none (team_lines ui_url t b) _ λ mine. refl)
      ]

notification-none :
    (args : Args) (name : Option Text) (t : Testrun)
    → all_team_lines args.ui_url t.case_result ≡ none
    → notification args name t ≡ none
unfolding notification
notification-none args name t e = bind-none name _ λ testrun.
    bind-none t.profilename _
      λ profile. bind-none t.build_version _ λ build. bind-none t.gbuildnum _ λ number. rw e refl

module _ (args : Args) (w : World Request Body) where
  -- If the ids of the failed cases of some subteam with failures could not be found, the report of the test
  -- run raises: neither this test run nor one after it is sent.
  pub report_testruns_no_ids :
      (name : Option Text) (t : Testrun) (rest : Result) (number : ℕ)
      (before after : List (Option Text × CaseResult)) (team : Option Text) (c : CaseResult)
      (h : List (Event Request))
      → t.case_result ≡ before ++ ((team, c) ∷ after)
      → nat_eq c.counts.failed 0 ≡ false
      → c.faild_case ≡ none
      → report_testruns args w ((name, t) ∷ rest) number h ≡ (raised, h)
  unfolding report_testruns ◌>>=◌ from_option
  report_testruns_no_ids name t rest number before after team c h same f e =
      rw
        (notification-none args name t (
          ap (all_team_lines args.ui_url) same
          ∙ all_team_lines_no_ids args.ui_url before after team c f e))
        refl
