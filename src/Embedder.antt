-- ===== src/Embedder.antt =====
-- internal/infrastructure/embedder/embedder.go: the client of the embedding service. The service
-- is a parameter: `embed_rpc start texts` is its answer to the chunk that begins at `start`.
pub mod Batch
pub mod Rounds
mod Examples
use Prim.Native.String.{len}
use oafse.Common.{
  ℕ, zero, suc, ◌+◌, ◌-◌, ◌*◌, ◌&&◌, String, Bool, true, false, Option, none, some, List, [], ◌∷◌,
  ◌++◌, length, take, drop, ltb, ◌==◌, if◌then◌else◌,
}

-- A slice of floats: nil, or its elements.
abbrev pub Vector : Type 0 → Type 0
Vector F = Option (List F)

abbrev pub max_batch_size : ℕ
max_batch_size = 3_500_000

-- The variables of the loop of `EmbedBatch`.
pub record Cursor (F : Type 0) : Type 0 where
  pub i : ℕ
  pub start : ℕ
  pub cur_batch_size : ℕ
  pub vectors : List (Vector F)

-- `ok` with the vectors, or the error of the chunk [start, end).
pub data Embedded (F : Type 0) : Type 0 where
  ok : List (Vector F) → Embedded F
  chunk_error : ℕ → ℕ → Embedded F
  out_of_fuel : Embedded F

-- `len(texts[i])`
abbrev pub text_size : List String → ℕ → ℕ
text_size [] i = 0
text_size (t ∷ ts) zero = len t
text_size (t ∷ ts) (suc i) = text_size ts i

-- `texts[a:b]`
abbrev pub slice : ℕ → ℕ → List String → List String
slice a b texts = take (b - a) (drop a texts)

module _ {F : Type 0} (embed_rpc : ℕ → List String → Option (List (Vector F))) where
  abbrev pub flushed : Cursor F → Option (List (Vector F)) → Option (Cursor F)
  flushed c none = none
  flushed c (some chunk) =
      some (record c { vectors = c.vectors ++ chunk; start = c.i; cur_batch_size = 0 })

  -- One round: skip a text that is too big for any batch, send the batch, or add the text to it.
  unfoldable pub embed_round : List String → Cursor F → Option (Cursor F)
  embed_round texts c =
      let size = text_size texts c.i in
      let too_big = ltb max_batch_size (c.cur_batch_size + size) in
      if too_big && (c.start == c.i)
      then some (record c { vectors = c.vectors ++ some [] ∷ []; i = c.i + 1; start = c.i + 1 })
      else if too_big
      then flushed c (embed_rpc c.start (slice c.start c.i texts))
      else some (record c { cur_batch_size = c.cur_batch_size + size; i = c.i + 1 })

  -- What follows the loop: the last chunk.
  abbrev pub appended : Cursor F → ℕ → Option (List (Vector F)) → Embedded F
  appended c size none = chunk_error c.start size
  appended c size (some chunk) = ok (c.vectors ++ chunk)

  unfoldable pub embed_last : List String → Cursor F → Embedded F
  embed_last texts c =
      if ltb c.start (length texts)
      then appended c (length texts) (embed_rpc c.start (drop c.start texts))
      else ok c.vectors

  abbrev pub embed_next : (Cursor F → Embedded F) → Cursor F → Option (Cursor F) → Embedded F
  embed_next again c none = chunk_error c.start c.i
  embed_next again c (some c') = again c'

  unfoldable pub embed_loop : ℕ → List String → Cursor F → Embedded F
  unfolding embed_round embed_last
  embed_loop zero texts c = out_of_fuel
  embed_loop (suc fuel) texts c =
      if ltb c.i (length texts)
      then embed_next (embed_loop fuel texts) c (embed_round texts c)
      else embed_last texts c

  -- An empty argument makes no request. A round adds a text or empties the batch, which the next
  -- round does not do again, so that two rounds a text are enough.
  unfoldable pub embed_batch : List String → Embedded F
  unfolding embed_loop
  embed_batch [] = ok []
  embed_batch (t ∷ ts) =
      embed_loop (2 * length (t ∷ ts) + 1) (t ∷ ts)
        (record { i = 0; start = 0; cur_batch_size = 0; vectors = [] })
