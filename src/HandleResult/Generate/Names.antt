-- ===== src/HandleResult/Generate/Names.antt =====
-- `generateRP` and `getNames` give a case the same names.
use mathlib.Core.List.{Perm, perm_append_comm}
use mathlib.Core.List.Perm
use yyou.Common.Maybe.{◌>>=◌}
use yyou.Common.{
  ◌≡◌, refl, ap, List, [], ◌∷◌, ◌++◌, Option, some, arith, Option-cases, inl, inr, map,
  append_assoc, Bool, false, if◌then◌else◌,
}
use yyou.Text.{Text}
use yyou.Text.Regex.{findall, case_id}
use yyou.Junit.{Testcase, Testsuite, rename}
use yyou.HandleResult.Names.{
  get_author_name, plain_title, case_title, names_for, get_names, last, ocp_name, plain_name,
}
use yyou.HandleResult.Names.Laws.{get_names-total}
use yyou.HandleResult.Generate.{
  Effect, rename_case, generate_case, generate_cases, generate_document, generate_rp,
}
use yyou.HandleResult.Files.{FileEvent, opened, write_document}

abbrev pub names_in : List Testcase → List Text
names_in = map (λ c. c.name)

map-rename :
    (c : Testcase) (f : Text → Text) (ids : List Text)
    → names_in (map (λ i. rename c (f i)) ids) ≡ map f ids
map-rename c f [] = refl
map-rename c f (i ∷ is) = ap (◌∷◌ (f i)) (map-rename c f is)

rename_case-names :
    (c : Testcase) (author : Text) (ids ns : List Text)
    → names_for c.name author ids ≡ some ns
    → (e : Effect) × (rename_case c author ids ≡ some e)
      × (names_in e.stay ++ names_in e.to_be_add ≡ ns)
unfolding rename_case names_for
rename_case-names c author [] ns h = elim (Option-cases (plain_title c.name)) [
  | inl e ↦ absurd (ground arith)
  | inr (t, e) ↦
      (record { stay = rename c (plain_name author t) ∷ []; to_be_add = [] }, rw e, ground arith)
]
rename_case-names c author (i ∷ []) ns h = elim (Option-cases (case_title c.name i)) [
  | inl e ↦ absurd (ground arith)
  | inr (t, e) ↦
      (record { stay = rename c (ocp_name author t i) ∷ []; to_be_add = [] }, rw e, ground arith)
]
rename_case-names c author (i ∷ j ∷ is) ns h =
    elim (Option-cases (case_title c.name (last i (j ∷ is)))) [
      | inl e ↦ absurd (ground arith)
      | inr (t, e) ↦ (
        record { stay = []; to_be_add = map (λ k. rename c (ocp_name author t k)) (i ∷ j ∷ is) },
        rw e,
        ground (arith, map-rename c (ocp_name author t) (i ∷ j ∷ is)),
      )
    ]

generate_case-names :
    (c : Testcase)
    → (e : Effect) × (ns : List Text) × (generate_case c ≡ some e)
      × (get_names c.name ≡ some ns)
      × (names_in e.stay ++ names_in e.to_be_add ≡ ns)
unfolding generate_case get_names
generate_case-names c =
    let (ns, h, _) = get_names-total c.name in
    elim (Option-cases (get_author_name c.name)) [
      | inl e ↦ absurd (ground arith)
      | inr (author, e) ↦
          let (out, f, g) = rename_case-names c author (findall case_id c.name) ns (rw e at h) in
          (out, ns, rw e f, h, g)
    ]

-- The names that `getNames` gives to the cases, one case after the other.
unfoldable pub all_names : List Testcase → Option (List Text)
all_names [] = some []
all_names (c ∷ cs) = do ns ← get_names c.name; more ← all_names cs; some (ns ++ more)

names_in-append : (xs ys : List Testcase) → names_in (xs ++ ys) ≡ names_in xs ++ names_in ys
names_in-append [] ys = refl
names_in-append (x ∷ xs) ys = ap (◌∷◌ x.name) (names_in-append xs ys)

-- The parts of two lists, first the first parts and then the second ones.
regroup : (a b c d : List Text) → Perm ((a ++ b) ++ (c ++ d)) ((a ++ c) ++ (b ++ d))
regroup a b c d =
    let middle : Perm (b ++ c) (c ++ b) = perm_append_comm b c in
    let inner : Perm ((b ++ c) ++ d) ((c ++ b) ++ d) = Perm.append_right d middle in
    simp append_assoc (Perm.append_left a (simp append_assoc at inner))

generate_cases-names :
    (cs : List Testcase)
    → (e : Effect) × (ns : List Text) × (generate_cases cs ≡ some e)
      × (all_names cs ≡ some ns)
      × Perm (names_in e.stay ++ names_in e.to_be_add) ns
unfolding generate_cases all_names
generate_cases-names [] = (record { stay = []; to_be_add = [] }, [], refl, refl, Perm.nil)
generate_cases-names (c ∷ cs) =
    let (e, ns, f, g, h) = generate_case-names c in
    let (es, more, fs, gs, hs) = generate_cases-names cs in
    (
      record { stay = e.stay ++ es.stay; to_be_add = e.to_be_add ++ es.to_be_add },
      ns ++ more,
      rw (f, fs) refl,
      rw (g, gs) refl,
      rw (names_in-append, names_in-append, ← h)
          (Perm.trans (regroup (names_in e.stay) (names_in es.stay) (names_in e.to_be_add) _)
            (Perm.append_left (names_in e.stay ++ names_in e.to_be_add) hs)),
    )

generate_rp_unwritten :
    (opens : Text → Bool) (s : Testsuite) (output scenario : Text) (files : List FileEvent)
    {d : Testsuite}
    → generate_document s scenario ≡ some d
    → generate_rp opens s output scenario files
      ≡ (false, if opens output then files ++ (opened output ∷ []) else files)
unfolding generate_rp write_document
generate_rp_unwritten opens s output scenario files e = rw (generate_rp, e) refl

-- `generateRP` always builds its document, and the names of the cases of it are those that `getNames`
-- gives to the cases of the input, each as often: a case with several ids has become one for each. But
-- the document never reaches the file: `generateRP` raises on every input, after it has emptied the
-- output if that can be opened.
pub generate_rp-names :
    (opens : Text → Bool) (s : Testsuite) (output scenario : Text) (files : List FileEvent)
    → (out : Testsuite) × (ns : List Text) × (generate_document s scenario ≡ some out)
      × (all_names s.cases ≡ some ns)
      × Perm (names_in out.cases) ns
      × (out.name ≡ scenario)
      × (generate_rp opens s output scenario files
          ≡ (false, if opens output then files ++ (opened output ∷ []) else files))
unfolding generate_document
generate_rp-names opens s output scenario files =
    let (e, ns, f, g, h) = generate_cases-names s.cases in
    let out : Testsuite = record s { name = scenario; cases = e.stay ++ e.to_be_add } in
    let built : generate_document s scenario ≡ some out = rw f refl in
    (
      out,
      ns,
      built,
      g,
      rw names_in-append h,
      refl,
      generate_rp_unwritten opens s output scenario files built,
    )
