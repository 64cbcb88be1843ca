-- ===== src/Postgres/PageDs/Vectors.antt =====
-- Which pages wait for the indexer after an insertion.
use oafse.Common.{
  ℕ, ◌+◌, ◌≤◌, ◌≡◌, String, Bool, true, false, Option, none, some, List, [], ◌∷◌, ◌++◌, refl, arith,
  if◌then◌else◌, str_eq, eq_iff, not, ◌&&◌, ◌||◌,
}
use oafse.Storage.Model.{PageDb}
use oafse.Postgres.Errors.{db_up}
use oafse.Postgres.Pages.{Row, Tables, find_row, overwrite, upsert_at, is_unvectorized}
use oafse.Postgres.PageDs.{row_of_page, insert_page}

module _ {F : Type 0} where
  -- How many rows have the URL, and how many of them wait for a vector.
  abbrev pub url_rows : String → List (Row F) → ℕ
  url_rows u [] = 0
  url_rows u (r ∷ rs) = (if str_eq r.url u then 1 else 0) + url_rows u rs

  abbrev pub backlog_of : String → List (Row F) → ℕ
  backlog_of u [] = 0
  backlog_of u (r ∷ rs) =
      (if str_eq r.url u && is_unvectorized r.vector r then 1 else 0) + backlog_of u rs

  -- UNIQUE of the column url.
  abbrev pub HasUniqueUrls : List (Row F) → Type 0
  HasUniqueUrls rs = (u : String) → url_rows u rs ≤ 1

  -- The page has no vector yet, and some text.
  abbrev pub is_waiting : PageDb F → Bool
  is_waiting p =
      elim p.vector [ none ↦ true | some v ↦ false ]
      && (not (str_eq p.title "") || not (str_eq p.description "") || not (str_eq p.content ""))

  url_rows-append :
      (u : String) (rs ss : List (Row F)) → url_rows u (rs ++ ss) ≡ url_rows u rs + url_rows u ss
  url_rows-append u [] ss = omega arith
  url_rows-append u (r ∷ rs) ss = omega (arith, url_rows-append u rs ss)

  backlog_of-append :
      (u : String) (rs ss : List (Row F))
      → backlog_of u (rs ++ ss) ≡ backlog_of u rs + backlog_of u ss
  backlog_of-append u [] ss = omega arith
  backlog_of-append u (r ∷ rs) ss = omega (arith, backlog_of-append u rs ss)

  url_rows-overwrite :
      (u : String) (new : Row F) (rs : List (Row F)) → url_rows u (overwrite new rs) ≡ url_rows u rs
  url_rows-overwrite u new [] = refl
  url_rows-overwrite u new (r ∷ rs) =
      ground (arith, url_rows-overwrite u new rs, eq_iff r.url new.url)

  backlog_of-overwrite :
      (u : String) (new : Row F) (rs : List (Row F))
      → backlog_of u (overwrite new rs) ≡ (
          if str_eq new.url u
          then if is_unvectorized new.vector new then url_rows u rs else 0
          else backlog_of u rs)
  backlog_of-overwrite u new [] = ground arith
  backlog_of-overwrite u new (r ∷ rs) =
      ground (
        arith,
        backlog_of-overwrite u new rs,
        eq_iff r.url new.url,
        eq_iff r.url u,
        eq_iff new.url u,
      )

  find_row-none :
      (u : String) (rs : List (Row F))
      → find_row u rs ≡ none
      → (url_rows u rs ≡ 0) × (backlog_of u rs ≡ 0)
  find_row-none u [] h = (refl, refl)
  find_row-none u (r ∷ rs) h = ground (arith, find_row-none u rs)

  find_row-some :
      (u : String) (rs : List (Row F)) (old : Row F) → find_row u rs ≡ some old → 1 ≤ url_rows u rs
  find_row-some u [] old h = absurd (cc)
  find_row-some u (r ∷ rs) old h = ground (arith, find_row-some u rs old)

  module _ (l2_normalize : List F → List F) (page : PageDb F) where
    waiting_row :
        (o : Option (Row F))
        → is_unvectorized (row_of_page l2_normalize page o).vector (row_of_page l2_normalize page o)
          ≡ is_waiting page
    waiting_row none = ground arith
    waiting_row (some old) = ground arith

    upsert_at_counts :
        (o : Option (Row F)) (n : ℕ) (t : Tables F) (u : String)
        → find_row page.url t.pages ≡ o
        → url_rows page.url t.pages ≤ 1
        → let after = (upsert_at o (record (row_of_page l2_normalize page o) { id = n }) t).1 in
          (backlog_of u after.pages ≡ (
            if str_eq page.url u then if is_waiting page then 1 else 0 else backlog_of u t.pages))
          × (url_rows u after.pages ≡ (if str_eq page.url u then 1 else url_rows u t.pages))
    upsert_at_counts none n t u h k =
        let new = record (row_of_page l2_normalize page none) { id = n } in
        (
          ground (
            arith,
            backlog_of-append u t.pages (new ∷ []),
            find_row-none page.url t.pages h,
            waiting_row none,
            eq_iff page.url u,
          ),
          ground (
            arith,
            url_rows-append u t.pages (new ∷ []),
            find_row-none page.url t.pages h,
            eq_iff page.url u,
          ),
        )
    upsert_at_counts (some old) n t u h k =
        let new = record (row_of_page l2_normalize page (some old)) { id = n } in
        (
          ground (
            arith,
            backlog_of-overwrite u new t.pages,
            find_row-some page.url t.pages old h,
            waiting_row (some old),
            eq_iff page.url u,
          ),
          ground (
            arith,
            url_rows-overwrite u new t.pages,
            find_row-some page.url t.pages old h,
            eq_iff page.url u,
          ),
        )

  -- Where no URL has two rows, an `InsertPage` that succeeds leaves the page waiting for the
  -- indexer exactly if it came with a nil vector and some text, whatever was stored before; a page
  -- with a vector, or with the empty vector of a text too large to embed, waits no more. Which
  -- other pages wait does not change, the page has one row, and no other URL has more rows or less.
  pub insert_page_backlog :
      (l2_normalize : List F → List F) (page : PageDb F) (t : Tables F) (u : String)
      → HasUniqueUrls t.pages
      → (backlog_of u (insert_page l2_normalize db_up page t).1.pages
          ≡ (if str_eq page.url u then if is_waiting page then 1 else 0 else backlog_of u t.pages))
        × (url_rows u (insert_page l2_normalize db_up page t).1.pages
            ≡ (if str_eq page.url u then 1 else url_rows u t.pages))
  unfolding insert_page
  insert_page_backlog l2_normalize page t u h =
      upsert_at_counts l2_normalize page (find_row page.url t.pages) t.next_id t u refl (h page.url)
