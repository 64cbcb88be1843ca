-- ===== src/Postgres/PageDs.antt =====
-- page_ds.go: the data source of the pages.
pub mod Vectors
pub mod Lookup
use oafse.Common.{ℕ, String, Bool, true, false, Option, none, some, List, [], ◌∷◌, map}
use oafse.Common.Int.{ℤ}
use oafse.Common.Go.{GoResult, ok, err, Error, and_then}
use oafse.Storage.Model.{PageDb}
use oafse.Postgres.Errors.{DbLink, db_call}
use oafse.Postgres.Pages.{Row, Tables, find_row, upsert_at, unvectorized, add_link}

module _ {F : Type 0} where
  -- The two arguments of `InsertPage` that depend on the vector: nil, with elements, or empty.
  abbrev pub vector_args : Option (List F) → Option (List F) × Bool
  vector_args none = (none, true)
  vector_args (some []) = (none, false)
  vector_args (some (x ∷ xs)) = (some (x ∷ xs), true)

  -- The row of the VALUES and SET clauses; a new vector is normalized once, and once more where it
  -- replaces another.
  abbrev pub normalized : (List F → List F) → Option (List F) → Option (List F)
  normalized l2_normalize none = none
  normalized l2_normalize (some v) = some (l2_normalize v)

  abbrev pub excluded : (List F → List F) → PageDb F → Row F
  excluded l2_normalize page = record {
    id = 0;
    url = page.url;
    title = page.title;
    description = page.description;
    content = page.content;
    crawled_at = page.crawled_at;
    vector = normalized l2_normalize (vector_args page.vector).0;
    can_be_vectorized = (vector_args page.vector).1;
  }

  abbrev pub row_of_page : (List F → List F) → PageDb F → Option (Row F) → Row F
  row_of_page l2_normalize page none = excluded l2_normalize page
  row_of_page l2_normalize page (some old) =
      let new = excluded l2_normalize page in
      record new { vector = normalized l2_normalize new.vector }

  unfoldable pub insert_page :
      (List F → List F) → DbLink → PageDb F → Tables F → GoResult ℕ × Tables F
  insert_page l2_normalize link page t =
      db_call link
        (λ s.
          let old = find_row page.url s.pages in
          upsert_at old (record (row_of_page l2_normalize page old) { id = s.next_id }) s)
        t

  unfoldable pub insert_link : DbLink → String → ℕ → Tables F → GoResult (Unit {0}) × Tables F
  insert_link link parent_url child_page_id t =
      db_call link
        (λ s.
          (tt, record s { links = add_link (find_row parent_url s.pages) child_page_id s.links }))
        t

  -- The columns that the query selects; the vector stays nil.
  abbrev pub page_of_row : Row F → PageDb F
  page_of_row r = record {
    url = r.url;
    title = r.title;
    description = r.description;
    content = r.content;
    crawled_at = r.crawled_at;
    vector = none;
  }

  unfoldable pub get_unvectorized : DbLink → Tables F → GoResult (List (PageDb F)) × Tables F
  get_unvectorized link t = db_call link (λ s. (map page_of_row (unvectorized s.pages), s)) t

  -- All columns of a row; they are never NULL here but for the vector and the time.
  abbrev pub full_page : Row F → PageDb F
  full_page r = record {
    url = r.url;
    title = r.title;
    description = r.description;
    content = r.content;
    crawled_at = r.crawled_at;
    vector = r.vector;
  }

  -- `pgx.ErrNoRows` is no transient error.
  abbrev pub scanned : Option (Row F) → GoResult (PageDb F)
  scanned none = err Error.fatal
  scanned (some r) = ok (full_page r)

  unfoldable pub get_page : DbLink → String → Tables F → GoResult (PageDb F) × Tables F
  get_page link url t =
      and_then (db_call link (λ s. (find_row url s.pages, s)) t) λ o t'. (scanned o, t')

  abbrev pub is_found : Option (Row F) → Bool
  is_found none = false
  is_found (some r) = true

  unfoldable pub page_exists : DbLink → String → Tables F → GoResult Bool × Tables F
  page_exists link url t = db_call link (λ s. (is_found (find_row url s.pages), s)) t
