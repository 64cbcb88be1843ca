-- ===== src/Repo/PageRepo.antt =====
-- page_repo.go.
use oafse.Common.{ℕ, String, Option, List, map}
use oafse.Common.Go.{GoResult, ok, err, panic, and_then, embedding}
use oafse.Domain.Page.{Page}
use oafse.Storage.Mapper.{to_domain_page, to_storage_page}
use oafse.Postgres.Errors.{DbLink}
use oafse.Postgres.Pages.{Tables}
use oafse.Postgres.PageDs.{insert_page, insert_link, get_unvectorized}
use oafse.Postgres.Similar.{Distance, find_similar}
use oafse.Embedder.{Embedded, ok as embedded, chunk_error, out_of_fuel, embed_batch}
use oafse.UseCase.Index.{IndexPorts}

module _ {F : Type 0} where
  unfoldable pub save_page : (List F → List F) → DbLink → Page F → Tables F → GoResult ℕ × Tables F
  save_page l2_normalize link page t = insert_page l2_normalize link (to_storage_page page) t

  unfoldable pub save_link : DbLink → String → ℕ → Tables F → GoResult (Unit {0}) × Tables F
  save_link link parent_url child_page_id t = insert_link link parent_url child_page_id t

  unfoldable pub repo_get_unvectorized : DbLink → Tables F → GoResult (List (Page F)) × Tables F
  repo_get_unvectorized link t =
      and_then (get_unvectorized link t) λ pages t'. (ok (map to_domain_page pages), t')

  unfoldable pub repo_find_similar :
      Distance F → DbLink → List F → ℕ → Tables F → GoResult (List (Page F)) × Tables F
  repo_find_similar d link vector limit t =
      and_then (find_similar d vector link limit t) λ pages t'. (ok (map to_domain_page pages), t')

  abbrev pub embedded_result : Embedded F → GoResult (List (Option (List F)))
  embedded_result (embedded vectors) = ok vectors
  embedded_result (chunk_error start end) = err embedding
  embedded_result out_of_fuel = panic

  -- The indexer over the page repository and the embedding client.
  abbrev pub index_ports :
      (List F → List F)
      → DbLink
      → DbLink
      → (ℕ → List String → Option (List (Option (List F))))
      → IndexPorts (Tables F) F
  index_ports l2_normalize get_link save_link embed_rpc = record {
    get_unvectorized = repo_get_unvectorized get_link;
    save_page = save_page l2_normalize save_link;
    embed_batch = λ texts t. (embedded_result (embed_batch embed_rpc texts), t);
  }
