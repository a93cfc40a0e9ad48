-- ===== src/HandleResult/Files.antt =====
-- pipeline/handleresult.py: how a document is written, `with open(path, mode) as f` and a UTF-8
-- `StreamWriter` over `f`. Whether a path can be opened for writing is a parameter.
use yyou.Common.{Bool, true, false, List, [], ◌∷◌, ◌++◌, if◌then◌else◌}
use yyou.Text.{Text}
use yyou.Junit.{Testsuite}

-- What happens to the files, in order: one is opened, and so emptied, or it gets a document.
pub data FileEvent : Type 0 where
  opened : (path : Text) → FileEvent
  written : (path : Text) → Testsuite → FileEvent

-- "w+" is a text mode, "wb+" a binary one.
pub data Mode : Type 0 where
  text binary : Mode

-- `false` is an exception. The writer encodes to bytes, which a file in text mode refuses with a
-- `TypeError` at the first of them.
unfoldable pub write_document :
    (opens : Text → Bool) → Mode → Text → Testsuite → List FileEvent → Bool × List FileEvent
write_document opens text path d files =
    (false, if opens path then files ++ (opened path ∷ []) else files)
write_document opens binary path d files =
    if opens path then (true, files ++ (opened path ∷ written path d ∷ [])) else (false, files)
