-- ===== src/Embedder/Examples.antt =====
-- The theorems about the embedding client at small inputs.
use oafse.Common.{ℕ, ◌≡◌, ◌≢◌, ◌≤◌, String, Option, some, List, [], ◌∷◌, map, refl}
use oafse.Embedder.{Vector, ok, out_of_fuel, embed_batch, max_batch_size}
use oafse.Embedder.Batch.{embed_batch_lem, vector_of, total}
use oafse.Embedder.Rounds.{embed_batch-ne}

-- A service that gives every text one number.
abbrev one : String → Vector ℕ
one t = some (1 ∷ [])

abbrev service : ℕ → List String → Option (List (Vector ℕ))
service start chunk = some (map one chunk)

service_answers :
    (start : ℕ) (chunk : List String)
    → total chunk ≤ max_batch_size
    → service start chunk ≡ some (map one chunk)
service_answers start chunk h = refl

embed_batch_lem_example :
    embed_batch service ("a" ∷ "bc" ∷ []) ≡ ok (map (vector_of one) ("a" ∷ "bc" ∷ []))
embed_batch_lem_example = embed_batch_lem service one ("a" ∷ "bc" ∷ []) service_answers

embed_batch-ne_example : embed_batch service ("a" ∷ "bc" ∷ []) ≢ out_of_fuel
embed_batch-ne_example = embed_batch-ne service ("a" ∷ "bc" ∷ [])
