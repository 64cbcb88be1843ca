-- ===== src/Port/Fetch.antt =====
-- internal/application/port/fetcher.go.
use oafse.Common.{ℕ, String, ◌||◌, Option, ◌==◌, if◌then◌else◌}
use oafse.Domain.Url.{Url}

pub data FetchStatus : Type 0 where
  fetch_impossible fetch_ok fetch_retry fetch_manual : FetchStatus

-- `FetchStatus.String`
unfoldable pub fetch_status_string : FetchStatus → String
fetch_status_string FetchStatus.fetch_impossible = "fetch impossible"
fetch_status_string FetchStatus.fetch_ok = "fetch ok"
fetch_status_string FetchStatus.fetch_retry = "fetch retry"
fetch_status_string FetchStatus.fetch_manual = "fetch manual"

-- A nil URL is `none`.
pub record FetchData : Type 0 where
  pub url : Option Url
  pub final_url : Option Url
  pub status : FetchStatus
  pub content_type : String
  pub raw : String

unfoldable pub classify_status : ℕ → FetchStatus
classify_status code =
    if code == 200
    then FetchStatus.fetch_ok
    else if code == 408 || code == 429 || code == 500 || code == 502 || code == 503 || code == 504
    then FetchStatus.fetch_retry
    else if code == 400 || code == 401 || code == 411
    then FetchStatus.fetch_manual
    else FetchStatus.fetch_impossible
