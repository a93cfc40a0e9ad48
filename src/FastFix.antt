-- ===== src/FastFix.antt =====
-- pipeline/fastfixmonitor.py, the class BugzillaClient: what it knows of a bug, the requests that it
-- makes, and the tests on a bug that need no request.
pub mod Notes
pub mod Reads
pub mod Noted
pub mod Delivery
pub mod Schedule
pub mod Requests
pub mod Check
pub mod Slack
mod Tests
use yyou.Common.{ℕ, Bool, true, false, List, [], ◌∷◌, ◌++◌, Option, none, some, if◌then◌else◌}
use yyou.Text.{Text, codes, contains, member, ◌==◌}

-- `bug["cf_verified"]`: `in` is asked of a text or of a list of texts.
pub data Verified : Type 0 where
  text : Text → Verified
  values : List Text → Verified

-- The fields of a bug that are read. An external bug is its `["type"]["type"]`, a contact its e-mail.
pub record Bug : Type 0 where
  pub cf_verified : Verified
  pub cf_qa_whiteboard : Text
  pub last_change_time : Text
  pub external_bugs : List Text
  pub keywords : List Text
  pub qa_contact : Text
  pub status : Text
  pub assigned_to : Text

pub record Comment : Type 0 where
  pub creator : Text
  pub creation_time : Text

-- The answers of Bugzilla and of Slack. In any other body the accesses of the script raise.
pub data Body : Type 0 where
  bugs : List Bug → Body
  ids : List ℕ → Body
  comments : List Comment → Body
  other : Body

pub data Request : Type 0 where
  get : (url : Text) → Request
  put : (url key value : Text) → Request
  post : (url notification : Text) → Request

pub record Args : Type 0 where
  pub endpoint : Text
  pub slack_url : Text
  pub status : Text
  pub keywords : Text

-- The dictionary that `checkBug` returns.
pub data Notify : Type 0 where
  slack contactdevforpr escalatetrack continoustrack : Notify

pub record Info : Type 0 where
  pub id : Text
  pub qa : Text
  pub notify : Notify
  pub assignee : Text

unfoldable pub pr_exists : List Text → Bool
unfolding member
pr_exists external_bugs = member (codes "GitHub") external_bugs

unfoldable pub is_pre_verified : Verified → Bool
unfolding contains member
is_pre_verified (text t) = contains (codes "Tested") t
is_pre_verified (values vs) = member (codes "Tested") vs

abbrev pub crlf : Text
crlf = 13 ∷ 10 ∷ []

-- The beginnings of the two notes that the script leaves on a whiteboard.
abbrev pub notify_note : Text → Text
notify_note id = codes "Already notify QA to pre-verify it " ++ id

abbrev pub query_note : Text → Text
query_note id = codes "Already notify QA to contact with Dev for PR of bug " ++ id

unfoldable pub is_already_notify : Text → Text → Bool
unfolding contains
is_already_notify cf_qa_whiteboard id = contains (notify_note id) cf_qa_whiteboard

unfoldable pub is_already_query_dev : Text → Text → Bool
unfolding contains
is_already_query_dev cf_qa_whiteboard id = contains (query_note id) cf_qa_whiteboard
