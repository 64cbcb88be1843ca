-- ===== src/Common/Go.antt =====
-- What a Go function that may fail returns. `fmt.Errorf("…: %w", err)` keeps the cause, which is all
-- that a caller tests (`errors.Is`), so the text of a wrapping is left out.
use mathlib.Core.Path.{◌≡◌, refl}

pub data Error : Type 0 where
  -- port.ErrQueueEmpty
  queue_empty : Error
  -- the connection failed, or the context ended
  transport : Error
  -- a Lua error, `url not found` among them
  script : Error
  -- HGET found no record of the URL
  info_not_found : Error
  -- url.Parse refused a stored URL, or a URL is not absolute
  bad_url : Error
  -- port.ErrTransient, of Postgres
  transient : Error
  -- another error of Postgres
  fatal : Error
  -- port.ErrNotText
  not_text : Error
  -- the browser, the HTML parser or the text extraction failed
  content : Error
  -- the embedding service failed
  embedding : Error

pub data GoResult (A : Type 0) : Type 0 where
  ok : A → GoResult A
  err : Error → GoResult A
  panic : GoResult A

-- What follows a call that succeeded.
abbrev pub and_then : {S A B : Type 0} → GoResult A × S → (A → S → GoResult B × S) → GoResult B × S
and_then (ok a, s) k = k a s
and_then (err e, s) k = (err e, s)
and_then (panic, s) k = (panic, s)

pub and_then_ok :
    {S A B : Type 0} (x : GoResult A × S) (a : A) (k : A → S → GoResult B × S)
    → x.0 ≡ ok a
    → and_then x k ≡ k a x.1
and_then_ok (g, s) a k e = rw e refl
