-- ===== src/Postgres/PageDs/Lookup.antt =====
-- A page that is looked up behind an insertion.
use oafse.Common.{
  ℕ, ◌≡◌, ◌∙◌, String, Bool, true, false, Option, none, some, List, [], ◌∷◌, ◌++◌, refl, arith, ap,
  sym, Bool-cases, inl, inr, str_eq, eq_iff, if◌then◌else◌,
}
use oafse.Common.Go.{GoResult, ok}
use oafse.Storage.Model.{PageDb}
use oafse.Postgres.Errors.{db_up}
use oafse.Postgres.Pages.{Row, Tables, find_row, overwrite, upsert_at}
use oafse.Postgres.PageDs.{
  row_of_page, insert_page, get_page, page_exists, scanned, is_found, full_page,
}

module _ {F : Type 0} where
  find_row-append :
      (u : String) (rs : List (Row F)) (new : Row F)
      → find_row new.url rs ≡ none
      → find_row u (rs ++ new ∷ []) ≡ (if str_eq new.url u then some new else find_row u rs)
  find_row-append u [] new h = refl
  find_row-append u (r ∷ rs) new h =
      ground
        (arith, find_row-append u rs new, eq_iff r.url u, eq_iff new.url u, eq_iff r.url new.url)

  find_row-overwrite_other :
      (u : String) (rs : List (Row F)) (new : Row F)
      → str_eq new.url u ≡ false
      → find_row u (overwrite new rs) ≡ find_row u rs
  find_row-overwrite_other u [] new h = refl
  find_row-overwrite_other u (r ∷ rs) new h = ground (
    arith,
    find_row-overwrite_other u rs new h,
    eq_iff r.url u,
    eq_iff new.url u,
    eq_iff r.url new.url,
  )

  -- The row that ON CONFLICT leaves, with its old id.
  find_row-overwrite_same :
      (rs : List (Row F)) (new old : Row F)
      → find_row new.url rs ≡ some old
      → find_row new.url (overwrite new rs) ≡ some (record new { id = old.id })
  find_row-overwrite_same [] new old h = absurd (cc)
  find_row-overwrite_same (r ∷ rs) new old h =
      ground
        (arith, find_row-overwrite_same rs new old, eq_iff r.url new.url, eq_iff new.url new.url)

  exists_scanned :
      (o : Option (Row F))
      → ◌≡◌ {A = GoResult Bool}
          (ok (is_found o))
          (ok (elim (scanned o) as (λ _. Bool) [ ok p ↦ true | _ ↦ false ]))
  exists_scanned none = refl
  exists_scanned (some r) = refl

  module _ (l2_normalize : List F → List F) (page : PageDb F) where
    -- What the table shows at any URL behind the insertion.
    upsert_scanned :
        (o : Option (Row F)) (n : ℕ) (t : Tables F) (u : String)
        → find_row page.url t.pages ≡ o
        → scanned (
            find_row u
              (upsert_at o (record (row_of_page l2_normalize page o) { id = n }) t).1.pages)
          ≡ (if str_eq page.url u
              then ok (full_page (row_of_page l2_normalize page o))
              else scanned (find_row u t.pages))
    upsert_scanned none n t u h =
        let new = record (row_of_page l2_normalize page none) { id = n } in
        ground (arith, find_row-append u t.pages new h)
    upsert_scanned (some old) n t u h =
        let new = record (row_of_page l2_normalize page (some old)) { id = n } in
        elim (Bool-cases (str_eq page.url u)) [
          | inl same ↦
              let is_page : page.url ≡ u = ground (arith, same, eq_iff page.url u) in
              rw same (
                ap (λ v. scanned (find_row v (overwrite new t.pages))) (sym is_page)
                ∙ ap scanned (find_row-overwrite_same t.pages new old h))
          | inr differs ↦ rw differs (ap scanned (find_row-overwrite_other u t.pages new differs))
        ]

    -- The vector that is kept: none for none and for an empty one.
    abbrev pub stored_vector : Bool → Option (List F) → Option (List F)
    stored_vector had_row none = none
    stored_vector had_row (some []) = none
    stored_vector false (some (x ∷ xs)) = some (l2_normalize (x ∷ xs))
    stored_vector true (some (x ∷ xs)) = some (l2_normalize (l2_normalize (x ∷ xs)))

    abbrev pub has_row : Option (Row F) → Bool
    has_row none = false
    has_row (some r) = true

    -- The page as `GetPage` shows it behind the insertion into a table.
    abbrev pub stored_page : Tables F → PageDb F
    stored_page t = record {
      url = page.url;
      title = page.title;
      description = page.description;
      content = page.content;
      crawled_at = page.crawled_at;
      vector = stored_vector (has_row (find_row page.url t.pages)) page.vector;
    }

    full_page-row_of_page :
        (o : Option (Row F))
        → full_page (row_of_page l2_normalize page o)
          ≡ record (full_page (row_of_page l2_normalize page o)) {
            url = page.url;
            title = page.title;
            description = page.description;
            content = page.content;
            crawled_at = page.crawled_at;
            vector = stored_vector (has_row o) page.vector;
          }
    full_page-row_of_page none = ground arith
    full_page-row_of_page (some r) = ground arith

    -- Behind an `InsertPage` that succeeds, `GetPage` of the page's URL returns the page with its
    -- URL, title, description, content and time as they were given, and its vector normalized, or
    -- normalized twice if the URL had a row before, where an empty vector is returned as none; at
    -- any other URL `GetPage` returns what it returned before; and `PageExists` tells for which URLs
    -- it returns a page. The time is taken as a value that the column can hold.
    pub get_page-insert_page :
        (t : Tables F) (u : String)
        → let after = (insert_page l2_normalize db_up page t).1 in
          ((get_page db_up u after).0
            ≡ (if str_eq page.url u then ok (stored_page t) else (get_page db_up u t).0))
          × ((page_exists db_up u after).0
              ≡ ok (elim (get_page db_up u after).0 as (λ _. Bool) [ ok p ↦ true | _ ↦ false ]))
    unfolding insert_page get_page page_exists
    get_page-insert_page t u = (
      upsert_scanned (find_row page.url t.pages) t.next_id t u refl
          ∙ ap (λ p. if str_eq page.url u then ok p else (get_page db_up u t).0)
              (full_page-row_of_page (find_row page.url t.pages)),
      exists_scanned (find_row u (insert_page l2_normalize db_up page t).1.pages),
    )
