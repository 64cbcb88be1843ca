-- ===== src/UseCase/Index/Drain.antt =====
-- One run of the indexer over the page repository.
use oafse.Common.{
  ℕ, ◌+◌, ◌≤◌, ◌≡◌, String, Option, some, List, [], ◌∷◌, map, refl, arith, if◌then◌else◌, str_eq,
  eq_iff, ltb, ◌∙◌,
}
use oafse.Common.Go.{ok}
use oafse.Domain.Page.{Page, format_page_text}
use oafse.Storage.Mapper.{to_domain_page, to_storage_page}
use oafse.Postgres.Errors.{db_up}
use oafse.Postgres.Pages.{Row, Tables, unvectorized}
use oafse.Postgres.PageDs.{page_of_row, insert_page, get_unvectorized}
use oafse.Postgres.PageDs.Vectors.{HasUniqueUrls, backlog_of, url_rows, insert_page_backlog}
use oafse.Embedder.{Vector, max_batch_size}
use oafse.Embedder.Batch.{embed_batch_lem, vector_of, total}
use oafse.Repo.PageRepo.{save_page, repo_get_unvectorized, index_ports}
use oafse.UseCase.Index.{IndexPorts, save_each, process, embed_pages}

module _ {F : Type 0} where
  abbrev page_count : String → List (Page F) → ℕ
  page_count u [] = 0
  page_count u (p ∷ ps) = (if str_eq p.url u then 1 else 0) + page_count u ps

  -- The pages that the indexer reads are the backlog.
  page_count-unvectorized :
      (u : String) (rs : List (Row F))
      → page_count u (map to_domain_page (map page_of_row (unvectorized rs))) ≡ backlog_of u rs
  page_count-unvectorized u [] = refl
  page_count-unvectorized u (r ∷ rs) = ground (arith, page_count-unvectorized u rs)

  module _ (l2_normalize : List F → List F) (embed_rpc : ℕ → List String → Option (List (Vector F)))
      (f : String → List F) where
    abbrev ports : IndexPorts (Tables F) F
    ports = index_ports l2_normalize db_up db_up embed_rpc

    -- The vector of a text is never nil.
    saved_backlog :
        (page : Page F) (text : String) (t : Tables F) (u : String)
        → HasUniqueUrls t.pages
        → let after =
            (save_page l2_normalize db_up
              (record page { vector = vector_of (λ x. some (f x)) text })
              t).1 in
          (backlog_of u after.pages ≡ (if str_eq page.url u then 0 else backlog_of u t.pages))
          × (url_rows u after.pages ≡ (if str_eq page.url u then 1 else url_rows u t.pages))
    unfolding save_page
    saved_backlog page text t u h = ground (
      arith,
      insert_page_backlog l2_normalize
          (to_storage_page (record page { vector = vector_of (λ x. some (f x)) text })) t u h,
    )

    save_page_ok :
        (page : Page F) (text : String) (t : Tables F)
        → (id : ℕ) × ((save_page l2_normalize db_up
              (record page { vector = vector_of (λ x. some (f x)) text })
              t).0
            ≡ ok id)
    unfolding save_page insert_page
    save_page_ok page text t = (_, refl)

    save_each_backlog :
        (pages : List (Page F)) (t : Tables F) (u : String)
        → HasUniqueUrls t.pages
        → let run =
            save_each ports pages
              (map (vector_of (λ x. some (f x))) (map format_page_text pages))
              t in
          (run.0 ≡ ok tt)
          × (backlog_of u run.1.pages
              ≡ (if ltb 0 (page_count u pages) then 0 else backlog_of u t.pages))
    unfolding save_each
    save_each_backlog [] t u h = (refl, refl)
    save_each_backlog (p ∷ ps) t u h =
        let text = format_page_text p in
        let after =
          (save_page l2_normalize db_up (record p { vector = vector_of (λ x. some (f x)) text })
            t).1 in
        let unique : HasUniqueUrls after.pages =
          λ v. ground (arith, saved_backlog p text t v h, h v) in
        ground (
          arith,
          saved_backlog p text t u h,
          save_each_backlog ps after u unique,
          save_page_ok p text t,
          eq_iff p.url u,
        )

drains :
    {F : Type 0} (l2_normalize : List F → List F)
    (embed_rpc : ℕ → List String → Option (List (Vector F))) (f : String → List F)
    (pages : List (Page F)) (t : Tables F)
    → HasUniqueUrls t.pages
    → ((start : ℕ) (chunk : List String)
        → total chunk ≤ max_batch_size
        → embed_rpc start chunk ≡ some (map (λ x. some (f x)) chunk))
    → ((u : String) → page_count u pages ≡ backlog_of u t.pages)
    → let run = embed_pages (index_ports l2_normalize db_up db_up embed_rpc) pages t in
      (run.0 ≡ ok tt) × ((u : String) → backlog_of u run.1.pages ≡ 0)
drains l2_normalize embed_rpc f [] t h answers waiting = (refl, λ u. ground (arith, waiting u))
drains l2_normalize embed_rpc f (p ∷ ps) t h answers waiting =
    rw (embed_batch_lem embed_rpc (λ x. some (f x)) (map format_page_text (p ∷ ps)) answers) (
      (save_each_backlog l2_normalize embed_rpc f (p ∷ ps) t p.url h).0,
      λ u.
          (save_each_backlog l2_normalize embed_rpc f (p ∷ ps) t u h).1 ∙ ground (arith, waiting u),
    )

-- Let no URL have two rows, let the database answer, and let the service answer each chunk of at
-- most `max_batch_size` bytes with a vector for each of its texts, in order. Then `process` ends
-- without an error, and no page waits for a vector any more.
pub process_drains :
    {F : Type 0} (l2_normalize : List F → List F)
    (embed_rpc : ℕ → List String → Option (List (Vector F))) (f : String → List F) (t : Tables F)
    → HasUniqueUrls t.pages
    → ((start : ℕ) (chunk : List String)
        → total chunk ≤ max_batch_size
        → embed_rpc start chunk ≡ some (map (λ x. some (f x)) chunk))
    → let run = process (index_ports l2_normalize db_up db_up embed_rpc) t in
      (run.0 ≡ ok tt) × ((u : String) → backlog_of u run.1.pages ≡ 0)
unfolding process repo_get_unvectorized get_unvectorized
process_drains l2_normalize embed_rpc f t h answers =
    drains l2_normalize embed_rpc f (map to_domain_page (map page_of_row (unvectorized t.pages))) t
      h answers (λ u. page_count-unvectorized u t.pages)
