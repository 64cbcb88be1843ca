-- ===== src/Postgres/Examples.antt =====
-- The theorems about the tables at small inputs.
use oafse.Common.{refl, ℕ, ◌≡◌, some, none, [], ◌∷◌, arith, Bool, true, false}
use oafse.Common.Go.{ok}
use oafse.Storage.Model.{PageDb}
use oafse.Postgres.Errors.{db_up}
use oafse.Postgres.Notify.{Listener, waiting, inserted, fails, wakes, listen_steps}
use oafse.Postgres.Notify.Missed.{inserted_kept}
use oafse.Postgres.Pages.{Row, Tables}
use oafse.Postgres.PageDs.{insert_page, get_page, page_exists}
use oafse.Postgres.PageDs.Lookup.{stored_page, get_page-insert_page}
use oafse.Postgres.PageDs.Vectors.{HasUniqueUrls, backlog_of, url_rows, insert_page_backlog}

-- A page with a vector.
abbrev row : Row ℕ
row = record {
  id = 1;
  url = "https://a.org";
  title = "A";
  description = "";
  content = "old";
  crawled_at = none;
  vector = some (1 ∷ []);
  can_be_vectorized = true;
}

abbrev tables : Tables ℕ
tables = record { next_id = 2; pages = row ∷ []; links = [] }

tables-HasUniqueUrls : HasUniqueUrls tables.pages
tables-HasUniqueUrls u = ground arith

-- The same page, crawled again.
abbrev page : PageDb ℕ
page = record {
  url = "https://a.org";
  title = "A";
  description = "";
  content = "new";
  crawled_at = none;
  vector = none;
}

insert_page_backlog_example :
    (backlog_of "https://a.org" (insert_page (λ v. v) db_up page tables).1.pages ≡ 1)
    × (url_rows "https://a.org" (insert_page (λ v. v) db_up page tables).1.pages ≡ 1)
insert_page_backlog_example =
    insert_page_backlog (λ v. v) page tables "https://a.org" tables-HasUniqueUrls

get_page-insert_page_example :
    ((get_page db_up "https://a.org" (insert_page (λ v. v) db_up page tables).1).0
      ≡ ok (stored_page (λ v. v) page tables))
    × ((page_exists db_up "https://a.org" (insert_page (λ v. v) db_up page tables).1).0
        ≡ ok
            (elim (get_page db_up "https://a.org" (insert_page (λ v. v) db_up page tables).1).0
              as (λ _. Bool) [ ok p ↦ true | _ ↦ false ]))
get_page-insert_page_example = get_page-insert_page (λ v. v) page tables "https://a.org"

abbrev listener : Listener
listener = record { phase = waiting; has_work = false; has_err = false }

-- The connection is lost behind the insertion.
inserted_kept_example : (listen_steps listener (inserted ∷ fails ∷ wakes ∷ [])).has_work ≡ true
inserted_kept_example = inserted_kept listener (fails ∷ wakes ∷ []) refl tt
