-- ===== src/ReportPortal/Removal.antt =====
-- pipeline/reportportal.py: which launches `deleteLaunchByName` and `mergeResult` touch.
use yyou.Common.{◌≡◌, refl, ap, ◌∙◌, Bool, true, false, List, ◌++◌, Option, none, some, map}
use yyou.Text.{Text, codes}
use yyou.Session.{
  World, Event, sent, read_clock, ok, Action, pure, guard, attempt, when_some, ◌>>=◌, ◌>>◌, send,
  is_200, utcnow,
}
use yyou.Datetime.{strftime}
use yyou.HandleResult.Names.{init}
use yyou.Session.Trace.{
  Adds, Adds-bind, Adds-bind_returned, Adds-pure, Adds-send, Adds-attempt, Adds-utcnow, trace,
}
use yyou.ReportPortal.{Launch, Body, Request, get, post, remove, ids, merge, Args}
use yyou.ReportPortal.Launches.{get_launch_id_with_launch_name, delete_launch_by_name, merge_result}
use yyou.ReportPortal.Listing.{IsListed, get_launch_id-IsListed}

-- A read, a reading of the clock, or the removal or the merge of launches that were listed.
pub data IsGolangWork (args : Args) (w : World Request Body) : Event Request → Type 0 where
  reads : (url : Text) → IsGolangWork args w (sent (get url))
  clock : IsGolangWork args w read_clock
  removes :
      (ls : List Launch)
      → IsListed args w ls
      → IsGolangWork args w (sent (remove args.launch_url (ids (map (λ (l : Launch). l.id) ls))))
  merges :
      (ls : List Launch) (time : Text)
      → IsListed args w ls
      → IsGolangWork args w (
          sent (
            post
              (args.launch_url ++ codes "/merge")
              (merge (map (λ (l : Launch). l.id) ls) args.launchname time)))

module _ (args : Args) (w : World Request Body) where
  get_launch_id-reads :
      (launchname : Text) (attrfilter : Option (Text × Option Text))
      → Adds (IsGolangWork args w) (get_launch_id_with_launch_name args w launchname attrfilter)
  unfolding get_launch_id_with_launch_name
  get_launch_id-reads launchname attrfilter = search (trace, reads) depth 16

  abbrev Found : Option (List Launch) → Type 0
  Found o = (ls : List Launch) → o ≡ some ls → IsListed args w ls

  found_launches :
      (h : List (Event Request)) (o : Option (List Launch))
      → (get_launch_id_with_launch_name args w args.launchname none h).0 ≡ ok o
      → Found o
  found_launches h o e ls same = get_launch_id-IsListed args w h ls (e ∙ ap ok same)

  -- Whatever the service answers, `deleteLaunchByName` only reads and removes exactly the golang launches
  -- of an answer to the search for the name, and never asks to remove none.
  delete_launch_by_name-IsGolangWork : Adds (IsGolangWork args w) (delete_launch_by_name args w)
  unfolding delete_launch_by_name when_some
  delete_launch_by_name-IsGolangWork =
      Adds-bind_returned Found _ _ (get_launch_id-reads args.launchname none) found_launches
        λ o q. delete_found o q
    where
      delete_found :
          (o : Option (List Launch))
          → Found o
          → Adds (IsGolangWork args w) (
              when_some o (pure false) λ ls.
                attempt
                  (do
                    r ← send w (remove args.launch_url (ids (map (λ (l : Launch). l.id) ls)))
                    guard (is_200 r)
                    pure true)
                  false)
      delete_found none q = Adds-pure false
      delete_found (some ls) q =
          Adds-attempt false
            (Adds-bind (Adds-send w _ (removes ls (q ls refl))) λ r. search trace depth 12)

  -- Whatever the service answers, `mergeResult` only reads, reads the clock and merges exactly the golang
  -- launches of an answer to the search for the name, and never asks to merge none.
  merge_result-IsGolangWork : Adds (IsGolangWork args w) (merge_result args w)
  unfolding merge_result when_some
  merge_result-IsGolangWork =
      Adds-bind_returned Found _ _ (get_launch_id-reads args.launchname none) found_launches
        λ o q. merge_found o q
    where
      merge_at : List Launch → Text → Action Request Bool
      merge_at ls currenttime =
          attempt
            (do
              r ← send w (
                  post (args.launch_url ++ codes "/merge")
                    (merge (map (λ (l : Launch). l.id) ls) args.launchname currenttime))
              guard (is_200 r)
              pure true)
            false

      merge_found :
          (o : Option (List Launch))
          → Found o
          → Adds (IsGolangWork args w) (
              when_some o (pure false) λ ls.
                utcnow w >>= λ now. merge_at ls (init (init (init (strftime now))) ++ codes "Z"))
      merge_found none q = Adds-pure false
      merge_found (some ls) q = Adds-bind (Adds-utcnow w clock) λ now. Adds-attempt false (
          Adds-bind
            (Adds-send w _ (merges ls (init (init (init (strftime now))) ++ codes "Z") (q ls refl)))
            λ r. search trace depth 12)

  -- Whatever the service answers, `deleteLaunchByName` and `mergeResult` only read, read the clock, and
  -- remove or merge exactly the golang launches of an answer to the search for the name, and never none.
  pub delete_and_merge-IsGolangWork :
      Adds (IsGolangWork args w) (delete_launch_by_name args w)
      × Adds (IsGolangWork args w) (merge_result args w)
  delete_and_merge-IsGolangWork = (delete_launch_by_name-IsGolangWork, merge_result-IsGolangWork)
