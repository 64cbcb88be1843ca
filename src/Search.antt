-- ===== src/Search.antt =====
-- internal/di/di.go: the search server, with the parts that it puts together, and `Embed` of
-- internal/infrastructure/embedder/embedder.go. The embedding service is a parameter.
mod Examples
use oafse.Common.{
  ℕ, ◌≡◌, ◌≢◌, String, Bool, false, Option, none, some, List, map, length, ltb, if◌then◌else◌, refl,
  arith, eq_iff, str_eq, subst,
}
use oafse.Common.Int.{ℤ}
use oafse.Common.Go.{GoResult, ok, err, Error}
use oafse.Storage.Model.{PageDb}
use oafse.Storage.Mapper.{to_domain_page}
use oafse.Postgres.Errors.{db_up, DbLink}
use oafse.Postgres.Pages.{Tables}
use oafse.Postgres.Similar.{Distance, OrderLaws, find_similar}
use oafse.Postgres.Similar.Top.{IsTop, find_similar-IsTop}
use oafse.Repo.PageRepo.{repo_find_similar}
use oafse.UseCase.Query.{QueryPorts, query}
use oafse.Http.{found, to_search_response, limit_of, serve_search}

module _ {F : Type 0} where
  abbrev pub embedded_vector : Option (List F) → GoResult (List F)
  embedded_vector none = err Error.embedding
  embedded_vector (some vector) = ok vector

  unfoldable pub embed : (String → Option (List F)) → String → GoResult (List F)
  embed embed_rpc text = embedded_vector (embed_rpc text)

  -- `NewQuery` with the page repository and the embedding client.
  abbrev pub query_ports :
      Distance F → (String → Option (List F)) → DbLink → QueryPorts (Tables F) F
  query_ports d embed_rpc link = record {
    embed = λ text t. (embed embed_rpc text, t);
    find_similar = repo_find_similar d link;
  }

  -- Where the query is not empty, the limit is one that the handler takes, the service embeds the
  -- query, Postgres answers and visits all rows for it (so that the index loses none), and being
  -- closer to the query is a strict weak order: the search handler over the repository answers 200,
  -- and changes no table. What it shows are the first of the rows that have a vector near the
  -- query's, each with the columns of its row, put in an order in which none is closer to the query
  -- than one in front of it: as many as there are, or as the limit where there are more.
  pub serve_search_near :
      (d : Distance F) (embed_rpc : String → Option (List F)) (atoi : String → Option ℤ)
      (text limit : String) (vector : List F) (n : ℕ) (t : Tables F)
      → OrderLaws d vector
      → d.visited vector t.pages ≡ t.pages
      → text ≢ ""
      → embed_rpc text ≡ some vector
      → limit_of (query (query_ports d embed_rpc db_up)) atoi limit ≡ some n
      → let answer = serve_search (query (query_ports d embed_rpc db_up)) atoi text limit t in
        (answer.1 ≡ t)
        × ((pages : List (PageDb F)) × (answer.0
              ≡ ok (found (to_search_response (map to_domain_page pages))))
            × IsTop d vector n t.pages pages)
  unfolding serve_search query embed repo_find_similar
  serve_search_near d embed_rpc atoi text limit vector n t laws exact full embedded limited =
      let nonempty : str_eq text "" ≡ false = ground (arith, full, eq_iff text "") in
      let (pages, returned, top) = find_similar-IsTop d vector n t laws in
      let same : find_similar d vector db_up n t ≡ (ok pages, t) =
        unfold find_similar in λ i. (returned i, t) in
      let shown : IsTop d vector n t.pages pages =
        subst (λ rows. IsTop d vector n rows pages) exact top in
      rw (nonempty, limited) (rw embedded (rw same (refl, (pages, refl, shown))))
