-- ===== src/ReportPortal/Items.antt =====
-- pipeline/reportportal.py: the methods that start and finish a launch, a suite and the items in it, and
-- those that look up and delete the old items. A time is in milliseconds since 1970.
pub mod Finished
use yyou.Common.Maybe.{◌>>=◌ as ◌>>=?◌}
use yyou.Common.{
  ℕ, ◌+◌, ◌*◌, Bool, true, false, not, ◌&&◌, ◌||◌, List, [], ◌∷◌, ◌++◌, Option, none, some,
  if◌then◌else◌,
}
use yyou.Text.{Text, codes, show}
use yyou.Datetime.{from_ms, strftime}
use yyou.Junit.{Testcase, is_some_element}
use yyou.HandleResult.Names.{init}
use yyou.Session.{
  World, Action, Response, pure, guard, from_option, attempt, ◌>>=◌, ◌>>◌, send, is_200_or_201,
}
use yyou.ReportPortal.{
  Item, Body, Payload, nothing, start_item, finish_item, log, launch_started, launch_finished,
  Request, get, post, put, remove, Args,
}
use yyou.ReportPortal.Launches.{items_of, created_of}

-- `t.strftime('%Y-%m-%dT%H:%M:%S.%f')[:-3] + "Z"`
unfoldable pub iso : ℕ → Text
unfolding strftime from_ms init
iso ms = init (init (init (strftime (from_ms ms)))) ++ codes "Z"

-- `t + timedelta(0, seconds)`
abbrev pub later_by : ℕ → ℕ → ℕ
later_by t seconds = t + seconds * 1000

abbrev some_items : List Item → Option (List Item)
some_items [] = none
some_items (i ∷ is) = some (i ∷ is)

-- `elements[0].firstChild.nodeValue`: an element without text has no child.
unfoldable pub first_text : List Text → Option Text
first_text [] = none
first_text ([] ∷ es) = none
first_text ((c ∷ s) ∷ es) = some (c ∷ s)

-- A skipped case counts as skipped even if it has also failed.
abbrev pub child_status : List Text → List Text → Text
child_status failures skipped =
    if is_some_element skipped
    then codes "SKIPPED"
    else if is_some_element failures
    then codes "FAILED"
    else codes "PASSED"

module _ (args : Args) (w : World Request Body) where
  unfoldable pub delete_child : ℕ → Action Request Bool
  delete_child childid =
      attempt
        (do
          r ← send w (remove (args.item_url ++ codes "/" ++ show childid) nothing)
          guard (is_200_or_201 r)
          pure true)
        false

  unfoldable pub get_child : ℕ → Text → Action Request (Option (List Item))
  get_child launch_id childname =
      attempt
        (do
          r ← send w (
              get (
                args.item_url
                ++ codes "?filter.eq.launchId="
                ++ show launch_id
                ++ codes "&filter.eq.name="
                ++ childname
                ++ codes "&isLatest=false&launchesLimit=0"))
          guard (is_200_or_201 r)
          content ← from_option (items_of r.json)
          childs ← from_option (some_items content)
          pure (some childs))
        none

  -- Starts an item of a type by a POST to a URL. The answer has its id.
  unfoldable pub start_at : Text → Payload → Action Request (Option Text)
  start_at url itemdata =
      attempt
        (do
          r ← send w (post url itemdata)
          guard (is_200_or_201 r)
          id ← from_option (created_of r.json)
          pure (some id))
        none

  unfoldable pub start_child :
      (parentid childname existinguuid currenttime : Text) → Action Request (Option Text)
  start_child parentid childname existinguuid currenttime =
      start_at (args.item_url ++ codes "/" ++ parentid)
        (start_item childname currenttime (codes "STEP") existinguuid)

  -- Writes one log entry, or raises.
  unfoldable pub write_log : Payload → Action Request (Unit {0})
  write_log entry = do r ← send w (post args.log_url entry); guard (is_200_or_201 r)

  -- The logs of a case that failed or was skipped. The texts are read before anything is sent.
  unfoldable pub write_logs :
      (childid existinguuid starttime : Text) (failures systemouts : List Text)
      → Action Request (Unit {0})
  write_logs childid existinguuid starttime [] systemouts = do
    output ← from_option (first_text systemouts)
    write_log (log existinguuid childid starttime output (codes "INFO"))
  write_logs childid existinguuid starttime (f ∷ fs) systemouts = do
    message ← from_option (first_text (f ∷ fs))
    output ← from_option (first_text systemouts)
    write_log (log existinguuid childid starttime message (codes "ERROR"))
    write_log (log existinguuid childid starttime output (codes "INFO"))

  unfoldable pub finish_at : Text → Payload → Action Request Bool
  finish_at url itemdata =
      attempt (do r ← send w (put url itemdata); guard (is_200_or_201 r); pure true) false

  abbrev pub is_logged : List Text → List Text → Bool
  is_logged failures skipped = is_some_element failures || is_some_element skipped

  unfoldable pub finish_child :
      (childid existinguuid starttime finishtime : Text) (failures skipped systemouts : List Text)
      → Action Request Bool
  finish_child childid existinguuid starttime finishtime failures skipped systemouts =
      attempt
        (do
          if is_logged failures skipped
              then write_logs childid existinguuid starttime failures systemouts
              else pure tt
          r ← send w (
              put (args.item_url ++ codes "/" ++ childid) (
                finish_item finishtime existinguuid (some (child_status failures skipped))
                  (is_logged failures skipped)))
          guard (is_200_or_201 r)
          pure true)
        false

  unfoldable pub replace_child :
      (parentid childname existinguuid : Text) (currenttime : ℕ) → Action Request (Option Text)
  replace_child parentid childname existinguuid currenttime =
      start_child parentid childname existinguuid (iso (later_by currenttime 1))

  unfoldable pub finish_replace_child :
      (childid existinguuid : Text) (starttime finishtime : ℕ)
      (failures skipped systemouts : List Text)
      → Action Request Bool
  finish_replace_child childid existinguuid starttime finishtime failures skipped systemouts =
      finish_child childid existinguuid (show starttime) (show finishtime) failures skipped
        systemouts

  unfoldable pub create_child :
      (parentid childname existinguuid : Text) (currenttime : ℕ) → Action Request (Option Text)
  create_child parentid childname existinguuid currenttime =
      start_child parentid childname existinguuid (iso currenttime)

  unfoldable pub finish_create_child :
      (childid existinguuid : Text) (starttime finishtime : ℕ)
      (failures skipped systemouts : List Text)
      → Action Request Bool
  finish_create_child childid existinguuid starttime finishtime failures skipped systemouts =
      finish_child childid existinguuid (iso starttime) (iso finishtime) failures skipped systemouts

  unfoldable pub start_container :
      (parentid containername existinguuid : Text) (currenttime : ℕ) → Action Request (Option Text)
  start_container parentid containername existinguuid currenttime =
      start_at (args.item_url ++ codes "/" ++ parentid)
        (start_item containername (iso currenttime) (codes "TEST") existinguuid)

  unfoldable pub finish_container :
      (containerid existinguuid : Text) (starttime suiteduration : ℕ) → Action Request Bool
  finish_container containerid existinguuid starttime suiteduration =
      finish_at (args.item_url ++ codes "/" ++ containerid)
        (finish_item (iso (later_by starttime suiteduration)) existinguuid none false)

  unfoldable pub start_suite :
      (suitename existinguuid : Text) (currenttime : ℕ) → Action Request (Option Text)
  start_suite suitename existinguuid currenttime =
      start_at args.item_url (start_item suitename (iso currenttime) (codes "TEST") existinguuid)

  unfoldable pub finish_suite :
      (itemid existinguuid : Text) (starttime suiteduration : ℕ) → Action Request Bool
  finish_suite itemid existinguuid starttime suiteduration =
      finish_at (args.item_url ++ codes "/" ++ itemid)
        (finish_item (iso (later_by starttime suiteduration)) existinguuid none false)

  unfoldable pub start_launch :
      (launchname existinguuid : Text) (currenttime : ℕ) → Action Request Bool
  start_launch launchname existinguuid currenttime =
      attempt
        (do
          r ←
              send w
                (post args.launch_url (launch_started launchname existinguuid (iso currenttime)))
          guard (is_200_or_201 r)
          pure true)
        false

  unfoldable pub finish_launch :
      (suiteresult existinguuid : Text) (starttime suiteduration : ℕ) → Action Request Bool
  finish_launch suiteresult existinguuid starttime suiteduration =
      finish_at (args.launch_url ++ codes "/" ++ existinguuid ++ codes "/finish")
        (launch_finished (iso (later_by starttime suiteduration)) suiteresult)
