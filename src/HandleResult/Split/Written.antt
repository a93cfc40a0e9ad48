-- ===== src/HandleResult/Split/Written.antt =====
-- pipeline/handleresult.py: when `splitRP` writes all its documents.
use mathlib.Core.Option.{some-injective}
use yyou.Common.{
  ◌≡◌, refl, sym, ap, ◌∙◌, Bool, true, false, ◌&&◌, List, [], ◌∷◌, ◌++◌, none, some, arith, All,
  map, append_assoc, append-nil, if◌then◌else◌, Bool-cases, inl, inr,
}
use yyou.Text.{Text, codes, ◌==◌, contains}
use yyou.Text.Laws.{eq_sound}
use yyou.Dict.{Dict, lookup, insert}
use yyou.Junit.{Testcase, Testsuite}
use yyou.HandleResult.Files.{FileEvent, opened, written, write_document}
use yyou.HandleResult.Split.{
  CaseDesc, Mod, add_case, collect_mods, team_of, import_mod, import_path, split_documents,
  write_documents, split_rp,
}
use yyou.HandleResult.Split.Balance.{collect_mods_inv}
use yyou.HandleResult.Split.Partition.{collect_mods-total}

module _ (opens : Text → Bool) where
  -- Whether the file of the subteam of a case can be opened.
  unfoldable pub has_file : Testcase → Bool
  has_file c = elim (team_of c.name) [ none ↦ false | some team ↦ opens (import_path team) ]

  unfoldable pub have_files : List Testcase → Bool
  have_files [] = true
  have_files (c ∷ cs) = has_file c && have_files cs

  -- The same of the subteams that were collected.
  all_open : Dict Mod → Bool
  all_open [] = true
  all_open ((k, _) ∷ mods) = opens (import_path k) && all_open mods

  all_open-insert :
      (k : Text) (v : Mod) (mods : Dict Mod)
      → all_open (insert k v mods) ≡ (opens (import_path k) && all_open mods)
  unfolding all_open insert
  all_open-insert k v [] = refl
  all_open-insert k v ((j, w) ∷ mods) = elim (Bool-cases (j == k)) [
    | inl same ↦
        let one : opens (import_path j) ≡ opens (import_path k) =
          ap (λ i. opens (import_path i)) (eq_sound j k same) in
        rw same (ground arith)
    | inr other ↦ rw other (ground (arith, all_open-insert k v mods))
  ]

  collect_mods-all_open :
      (cs : List Testcase) (mods : Dict Mod) {out : Dict Mod}
      → collect_mods cs mods ≡ some out
      → all_open out ≡ (all_open mods && have_files cs)
  unfolding have_files collect_mods has_file
  collect_mods-all_open [] mods {out} e =
      ap all_open (sym (some-injective mods out e)) ∙ ground arith
  collect_mods-all_open (c ∷ cs) mods e =
      let (team, names, t, f, rest) = collect_mods_inv c cs mods e in
      let d : CaseDesc = record { case = c; names = names } in
      let v = add_case (lookup team mods) d in
      let mine : has_file c ≡ opens (import_path team) = rw (has_file, t) refl in
      ground (
        arith,
        collect_mods-all_open cs (insert team v mods) rest,
        all_open-insert team v mods,
        mine,
      )

  -- The events of writing some documents.
  abbrev pub all_written : List Testsuite → List FileEvent
  all_written [] = []
  all_written (d ∷ ds) =
      opened (import_path d.name) ∷ written (import_path d.name) d ∷ all_written ds

  -- The documents in front of the first whose file cannot be opened.
  unfoldable pub until_unopened : List Testsuite → List Testsuite
  until_unopened [] = []
  until_unopened (d ∷ ds) =
      let rest = until_unopened ds in if opens (import_path d.name) then d ∷ rest else []

  write_documents_lem :
      (time : Text) (mods : Dict Mod) (files : List FileEvent)
      → ((write_documents opens (map (λ (k, v). import_mod time k v) mods) files).0 ≡ all_open mods)
        × ((write_documents opens (map (λ (k, v). import_mod time k v) mods) files).1
            ≡ files ++ all_written (until_unopened (map (λ (k, v). import_mod time k v) mods)))
  unfolding write_documents write_document all_open import_mod until_unopened
  write_documents_lem time [] files = (refl, sym (append-nil files))
  write_documents_lem time ((k, v) ∷ mods) files = elim (Bool-cases (opens (import_path k))) [
    | inl good ↦
        let d = import_mod time k v in
        let path = import_path k in
        let (a, b) = write_documents_lem time mods (files ++ (opened path ∷ written path d ∷ [])) in
        (rw good a, rw good (b ∙ append_assoc files _ _))
    | inr bad ↦ (rw bad refl, rw bad (sym (append-nil files)))
  ]

  split_rp-write_documents :
      (s : Testsuite) (files : List FileEvent) {ds : List Testsuite}
      → split_documents s ≡ some ds
      → split_rp opens s files ≡ write_documents opens ds files
  unfolding split_rp
  split_rp-write_documents s files e = rw (split_rp, e) refl

  -- Where the name of every case holds a space, `splitRP` builds its documents, and it raises nothing
  -- exactly where the file of the subteam of every case can be opened. Each document in front of the first
  -- whose file cannot be opened is written to its file, in order, and nothing else.
  pub split_rp-have_files :
      (s : Testsuite) (files : List FileEvent)
      → All (λ c. contains (codes " ") c.name ≡ true) s.cases
      → (ds : List Testsuite) × (split_documents s ≡ some ds)
        × ((split_rp opens s files).0 ≡ have_files s.cases)
        × ((split_rp opens s files).1 ≡ files ++ all_written (until_unopened ds))
  unfolding split_documents have_files all_open
  split_rp-have_files s files h =
      let (mods, e) = collect_mods-total s.cases [] h in
      let same = collect_mods-all_open s.cases [] e in
      let (a, b) = write_documents_lem s.time mods files in
      let ds : List Testsuite = map (λ (k, v). import_mod s.time k v) mods in
      let built : split_documents s ≡ some ds = rw e refl in
      let run = split_rp-write_documents s files built in
      (ds, built, ap (λ r. r.0) run ∙ a ∙ same, ap (λ r. r.1) run ∙ b)
