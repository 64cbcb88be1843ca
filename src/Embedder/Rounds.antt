-- ===== src/Embedder/Rounds.antt =====
-- The loop of `EmbedBatch` ends within its rounds, whatever the service answers.
use oafse.Common.{
  ℕ, zero, suc, ◌+◌, ◌-◌, ◌*◌, ◌≤◌, ◌<◌, ◌≡◌, ◌≢◌, String, Option, some, List, [], ◌∷◌, length, ltb,
  if◌then◌else◌, arith, Option-cases, Bool-cases, inl, inr, ltb→lt,
}
use oafse.Embedder.{
  Vector, Cursor, out_of_fuel, embed_round, embed_last, embed_loop, embed_batch, embed_next,
}

module _ {F : Type 0} (embed_rpc : ℕ → List String → Option (List (Vector F))) where
  -- What is left to do: two rounds for each text ahead, and one while a batch waits.
  abbrev left : ℕ → Cursor F → ℕ
  left size c = 2 * (size - c.i) + (if ltb c.start c.i then 1 else 0)

  left-embed_round :
      (texts : List String) (c c' : Cursor F)
      → c.i < length texts
      → c.start ≤ c.i
      → embed_round embed_rpc texts c ≡ some c'
      → (c'.start ≤ c'.i) × (left (length texts) c' < left (length texts) c)
  unfolding embed_round
  left-embed_round texts c c' h k e = ground arith

  embed_last-ne : (texts : List String) (c : Cursor F) → embed_last embed_rpc texts c ≢ out_of_fuel
  unfolding embed_last
  embed_last-ne texts c e = ground arith

  embed_loop-ne :
      (fuel : ℕ) (texts : List String) (c : Cursor F)
      → c.start ≤ c.i
      → left (length texts) c < fuel
      → embed_loop embed_rpc fuel texts c ≢ out_of_fuel
  unfolding embed_loop
  embed_loop-ne zero texts c k h = elim h [ ]
  embed_loop-ne (suc fuel) texts c k h = elim (Bool-cases (ltb c.i (length texts))) [
    | inl more ↦ elim (Option-cases (embed_round embed_rpc texts c)) [
      | inl failed ↦ rw (more, embed_loop) (rw (failed, embed_next) (λ e. cc))
      | inr (c', e) ↦
          let (k', less) = left-embed_round texts c c' (ltb→lt _ _ more) k e in
          rw (more, embed_loop)
            (rw (e, embed_next) (embed_loop-ne fuel texts c' k' (omega (arith, less))))
    ]
    | inr over ↦ rw (over, embed_loop) (embed_last-ne texts c)
  ]

-- `EmbedBatch` does not run out of rounds, whatever the service answers.
pub embed_batch-ne :
    {F : Type 0} (embed_rpc : ℕ → List String → Option (List (Vector F))) (texts : List String)
    → embed_batch embed_rpc texts ≢ out_of_fuel
unfolding embed_batch
embed_batch-ne embed_rpc [] = λ e. cc
embed_batch-ne embed_rpc (t ∷ ts) =
    embed_loop-ne embed_rpc (2 * length (t ∷ ts) + 1) (t ∷ ts)
      (record { i = 0; start = 0; cur_batch_size = 0; vectors = [] }) (omega arith) (ground arith)
