-- ===== src/ReportPortal/Effects.antt =====
-- pipeline/reportportal.py: what `getFailCaseID` and `addMoreBuildNumToLaunch` send.
use yyou.Common.Maybe.{bind-some}
use yyou.Common.{
  ℕ, ◌≡◌, refl, Bool, true, false, List, [], ◌∷◌, ◌++◌, Option, none, some, Bool-cases, inl, inr,
  if◌then◌else◌, append-nil, sym, ap, ◌∙◌,
}
use yyou.Text.{Text, codes, contains, split, show}
use yyou.Session.{World, Event, sent, Response, is_200, send, ok, pure, from_option, attempt, ◌>>=◌}
use yyou.Session.Steps.{bind-ok, from_option-ok, attempt-some, guard-ok}
use yyou.Session.Trace.{
  Adds, Adds-bind_returned, Adds-bind, Adds-send, Adds-attempt, Adds-from_option, trace,
}
use yyou.ReportPortal.{Attr, Body, Request, get, put, Args, changes, update}
use yyou.ReportPortal.Matching.{
  part, CheckResult, existinglaunch, newlaunch, newgolanglaunch, nosubteaminscenario,
}
use yyou.ReportPortal.Launches.{
  check_launchs_by_name_scenario, attributes_of, last_value, get_launch_attr_by_id,
  handle_launch_attribution, change_of,
}
use yyou.ReportPortal.FailCases.{
  Failures, add_failures, collect_failures, rerun_text, fail_case_text, get_fail_case_id,
}
use yyou.ReportPortal.BuildNum.{
  has_job, not_empty, more_build_nums, write_build_num, add_more_build_num_to_launch,
}

-- A request that changes nothing.
pub data IsGet : Event Request → Type 0 where
  reads : (url : Text) → IsGet (sent (get url))

module _ (args : Args) (w : World Request Body) where
  collect_failures-reads :
      (lids : List ℕ) (f : Failures) → Adds IsGet (collect_failures args w lids f)
  unfolding collect_failures add_failures
  collect_failures-reads [] f = search trace depth 12
  collect_failures-reads (lid ∷ lids) f = Adds-bind (Adds-send w _ (reads _)) λ r.
      Adds-bind {m = add_failures args w f lid r} (search trace depth 12)
        λ next. collect_failures-reads lids next

  fail_case_text-reads : (c : Option CheckResult) → Adds IsGet (fail_case_text args w c)
  unfolding fail_case_text rerun_text
  fail_case_text-reads none = search trace
  fail_case_text-reads (some newlaunch) = search trace
  fail_case_text-reads (some newgolanglaunch) = search trace
  fail_case_text-reads (some nosubteaminscenario) = search trace
  fail_case_text-reads (some (existinglaunch m)) = search (trace, collect_failures-reads) depth 12

  check-reads : Adds IsGet (check_launchs_by_name_scenario args w args.launchname args.scenarios)
  unfolding check_launchs_by_name_scenario
  check-reads = search (trace, reads) depth 12

  fail_case_text-returns :
      (c : Option CheckResult) (h : List (Event Request))
      → (t : Text) × ((fail_case_text args w c h).0 ≡ ok t)
  unfolding fail_case_text rerun_text pure attempt
  fail_case_text-returns none h = (_, refl)
  fail_case_text-returns (some newlaunch) h = (_, refl)
  fail_case_text-returns (some newgolanglaunch) h = (_, refl)
  fail_case_text-returns (some nosubteaminscenario) h = (_, refl)
  fail_case_text-returns (some (existinglaunch m)) h = (_, refl)

  -- Whatever the service answers, even if it fails, `getFailCaseID` returns a text and does not raise.
  get_fail_case_id-total :
      (h : List (Event Request)) → (t : Text) × ((get_fail_case_id args w h).0 ≡ ok t)
  unfolding get_fail_case_id ◌>>=◌ check_launchs_by_name_scenario attempt
  get_fail_case_id-total h = fail_case_text-returns _ _

  -- `getFailCaseID` only reads.
  get_fail_case_id-IsGet : Adds IsGet (get_fail_case_id args w)
  unfolding get_fail_case_id
  get_fail_case_id-IsGet = Adds-bind check-reads fail_case_text-reads

value_same :
    (v : Option Text) (t : Text) (h : List (Event Request))
    → (pure (some v) h).0 ≡ ok (some (some t))
    → v ≡ some t
unfolding pure
value_same v t h e = cc

not_empty-some :
    (value : Option (Option Text)) (t : Text) → not_empty value ≡ some t → value ≡ some (some t)
not_empty-some none t e = absurd (cc)
not_empty-some (some none) t e = absurd (cc)
not_empty-some (some (some [])) t e = absurd (cc)
not_empty-some (some (some (c ∷ s))) t e = ap some e

-- A new value of the attribute is the old one, a comma and the build number, which the old one lacks.
more_build_nums-extends :
    (buildnum existing newvalue : Text)
    → more_build_nums buildnum existing ≡ some (some newvalue)
    → (contains buildnum existing ≡ false) × (newvalue ≡ existing ++ (codes "," ++ buildnum))
unfolding more_build_nums
more_build_nums-extends buildnum existing newvalue e =
    elim (Bool-cases (contains buildnum existing)) [
      | inl there ↦ let impossible : some none ≡ some (some newvalue) = rw there at e in absurd (cc)
      | inr lacking ↦
          let (front, _, e1) = bind-some (part buildnum (codes "_") 0) _ (rw lacking at e) in
          let (kind, _, e2) = bind-some (part front (codes "-") 1) _ e1 in
          let (job, _, e3) = bind-some (part buildnum (codes "_") 1) _ e2 in
          let (there, _, e4) = bind-some (has_job kind job (split existing (codes ","))) _ e3 in
          (lacking, new_value there e4)
    ]
  where
    new_value :
        (there : Bool)
        → some (if there then none else some (existing ++ (codes "," ++ buildnum)))
          ≡ some (some newvalue)
        → newvalue ≡ existing ++ (codes "," ++ buildnum)
    new_value true e = absurd (cc)
    new_value false e = cc

module _ (args : Args) (w : World Request Body) (lid : ℕ) where
  -- An answer of the service to the request for the launch gives its attribute "gbuildnum" this value.
  pub record HasBuildNum (existing : Text) : Type 0 where
    pub before : List (Event Request)
    pub as' : List Attr
    pub answered :
        (r : Response Body) × (w.respond before (get (args.launch_url ++ codes "/" ++ show lid))
          ≡ ok r)
        × (is_200 r ≡ true)
        × (attributes_of r.json ≡ some as')
    pub last : last_value (codes "gbuildnum") as' (some []) ≡ some existing

  -- A read, or the change of the attribute "gbuildnum" of the launch from the value that the service has
  -- given, which lacks the build number, to that value, a comma and the build number.
  pub data IsExtension : Event Request → Type 0 where
    reads : (url : Text) → IsExtension (sent (get url))
    extends :
        (existing : Text)
        → HasBuildNum existing
        → contains args.buildnum existing ≡ false
        → IsExtension (
            sent (
              put (args.launch_url ++ codes "/info") (
                changes
                  (update (codes "gbuildnum") existing (existing ++ (codes "," ++ args.buildnum))
                    ∷ [])
                  (lid ∷ []))))

  abbrev Given : Option (Option Text) → Type 0
  Given value = (existing : Text) → not_empty value ≡ some existing → HasBuildNum existing

  get_launch_attr-reads : Adds IsExtension (get_launch_attr_by_id args w lid (codes "gbuildnum"))
  unfolding get_launch_attr_by_id
  get_launch_attr-reads = search (trace, IsExtension.reads) depth 12

  get_launch_attr-Given :
      (h : List (Event Request)) (value : Option (Option Text))
      → (get_launch_attr_by_id args w lid (codes "gbuildnum") h).0 ≡ ok value
      → Given value
  unfolding get_launch_attr_by_id send
  get_launch_attr-Given h value e existing there =
      let (body, _) = attempt-some _ h (e ∙ ap ok (not_empty-some value existing there)) in
      let (r, e0, e1, _) = bind-ok _ _ h body in
      let (_, e1', e2, _) = bind-ok _ _ _ e1 in
      let (as', e2', e3, _) = bind-ok _ _ _ e2 in
      record {
        before = h;
        as' = as';
        answered = (r, e0, guard-ok (is_200 r) _ e1', from_option-ok _ as' _ e2');
        last = value_same (last_value (codes "gbuildnum") as' (some [])) existing _ e3;
      }

  write_build_num-extends :
      (existing : Text) (more : Option Text)
      → HasBuildNum existing
      → more_build_nums args.buildnum existing ≡ some more
      → Adds IsExtension (write_build_num args w lid existing more)
  unfolding write_build_num handle_launch_attribution change_of
  write_build_num-extends existing none given e = search trace
  write_build_num-extends existing (some newvalue) given e =
      let (lacking, same) = more_build_nums-extends args.buildnum existing newvalue e in
      rw same (
        Adds-bind
          (Adds-attempt false
            (Adds-bind (Adds-send w _ (extends existing given lacking)) λ r. search trace depth 12))
          λ written. search trace depth 12)

  add_with_value :
      (existing : Text) (o : Option (Option Text))
      → HasBuildNum existing
      → more_build_nums args.buildnum existing ≡ o
      → Adds IsExtension (from_option o >>= write_build_num args w lid existing)
  unfolding from_option ◌>>=◌
  add_with_value existing none given e = record { added = λ h. ([], sym (append-nil h), tt) }
  add_with_value existing (some more) given e = record {
    added = (write_build_num-extends existing more given e).added;
  }

  -- Whatever the service answers, adding the build number to a launch sends nothing but reads and
  -- changes that append the build number to the value of "gbuildnum" of that launch, as the service has
  -- given it in an answer to a read of the launch, and only to a value that lacks it.
  pub add_more_build_num-IsExtension : Adds IsExtension (add_more_build_num_to_launch args w lid)
  unfolding add_more_build_num_to_launch
  add_more_build_num-IsExtension = Adds-attempt false (
      Adds-bind_returned Given _ _ get_launch_attr-reads get_launch_attr-Given λ value given.
        Adds-bind_returned (λ existing. not_empty value ≡ some existing)
          (from_option (not_empty value)) _ (Adds-from_option (not_empty value))
          (λ h existing e. from_option-ok (not_empty value) existing h e)
          λ existing there.
            add_with_value existing (more_build_nums args.buildnum existing) (given existing there)
              refl)
