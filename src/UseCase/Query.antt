-- ===== src/UseCase/Query.antt =====
-- internal/application/usecase/query.go.
use oafse.Common.{ℕ, String, List}
use oafse.Common.Go.{GoResult, and_then}
use oafse.Domain.Page.{Page}

-- The embedding client and the page repository, over one state of the world.
pub record QueryPorts (S F : Type 0) : Type 0 where
  pub embed : String → S → GoResult (List F) × S
  pub find_similar : List F → ℕ → S → GoResult (List (Page F)) × S

unfoldable pub query :
    {S F : Type 0} → QueryPorts S F → String → ℕ → S → GoResult (List (Page F)) × S
query p text limit s = and_then (p.embed text s) λ vector s'. p.find_similar vector limit s'
