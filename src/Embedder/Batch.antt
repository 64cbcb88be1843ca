-- ===== src/Embedder/Batch.antt =====
-- `EmbedBatch` returns one vector for each text, in order.
use Prim.Native.String.{len}
use oafse.Common.{
  ℕ, zero, suc, ◌+◌, ◌-◌, ◌*◌, ◌≤◌, ◌<◌, ◌≡◌, String, true, false, Option, some, List, [], ◌∷◌,
  ◌++◌, map, length, take, drop, ltb, if◌then◌else◌, refl, arith, ap, ◌∙◌, length-append,
  Bool-cases, inl, inr, ◌⊎◌,
}
use mathlib.Core.List.{append_assoc, map-append, append-nil}
use oafse.Embedder.{
  Vector, max_batch_size, Cursor, ok, text_size, slice, embed_round, embed_last, embed_loop,
  embed_batch, embed_next,
}

abbrev pub total : List String → ℕ
total [] = 0
total (t ∷ ts) = len t + total ts

drop-append_length : (xs ys : List String) → drop (length xs) (xs ++ ys) ≡ ys
drop-append_length [] ys = refl
drop-append_length (x ∷ xs) ys = drop-append_length xs ys

take-append_length : (xs ys : List String) → take (length xs) (xs ++ ys) ≡ xs
take-append_length [] ys = refl
take-append_length (x ∷ xs) ys = ap (λ l. x ∷ l) (take-append_length xs ys)

text_size-append : (xs ys : List String) (t : String) → text_size (xs ++ t ∷ ys) (length xs) ≡ len t
text_size-append [] ys t = refl
text_size-append (x ∷ xs) ys t = text_size-append xs ys t

total-append : (xs ys : List String) → total (xs ++ ys) ≡ total xs + total ys
total-append [] ys = omega arith
total-append (x ∷ xs) ys = omega (arith, total-append xs ys)

-- What the service is to do with one text: a text above the limit has the empty vector.
abbrev pub vector_of : {F : Type 0} → (String → Vector F) → String → Vector F
vector_of f t = if ltb max_batch_size (len t) then some [] else f t

module _ {F : Type 0} (embed_rpc : ℕ → List String → Option (List (Vector F)))
    (f : String → Vector F)
    (answers : (start : ℕ) (chunk : List String)
      → total chunk ≤ max_batch_size
      → embed_rpc start chunk ≡ some (map f chunk)) where
  -- The cursor when `done` is embedded and `batch` waits.
  abbrev at : List String → List String → Cursor F
  at done batch = record {
    i = length done + length batch;
    start = length done;
    cur_batch_size = total batch;
    vectors = map (vector_of f) done;
  }

  -- No text of a batch is above the limit.
  map-vector_of :
      (batch : List String) → total batch ≤ max_batch_size → map (vector_of f) batch ≡ map f batch
  map-vector_of [] h = refl
  map-vector_of (t ∷ ts) h = ground (arith, map-vector_of ts)

  embed_last_batch :
      (done batch : List String)
      → total batch ≤ max_batch_size
      → embed_last embed_rpc (done ++ batch) (at done batch)
        ≡ ok (map (vector_of f) (done ++ batch))
  unfolding embed_last
  embed_last_batch done [] h = rw append-nil (ground arith)
  embed_last_batch done (t ∷ ts) h =
      rw (drop-append_length done (t ∷ ts), answers (length done) (t ∷ ts) h)
        (rw (map-append, map-vector_of (t ∷ ts) h) (ground (arith, length-append done (t ∷ ts))))

  text_size-at :
      (done batch rest : List String) (t : String)
      → text_size (done ++ (batch ++ t ∷ rest)) (length done + length batch) ≡ len t
  text_size-at done batch rest t =
      rw (← append_assoc done batch (t ∷ rest), ← length-append done batch)
        (text_size-append (done ++ batch) rest t)

  slice-at :
      (done batch rest : List String)
      → slice (length done) (length done + length batch) (done ++ (batch ++ rest)) ≡ batch
  slice-at done batch rest = rw (drop-append_length done (batch ++ rest)) (
      let e : length done + length batch - length done ≡ length batch = omega arith in
      rw e (take-append_length batch rest))

  -- The three branches of a round.
  round_adds :
      (done batch rest : List String) (t : String)
      → ltb max_batch_size (total batch + len t) ≡ false
      → embed_round embed_rpc (done ++ (batch ++ t ∷ rest)) (at done batch)
        ≡ some (at done (batch ++ t ∷ []))
  unfolding embed_round
  round_adds done batch rest t h =
      rw (text_size-at done batch rest t)
        (ground (arith, h, length-append batch (t ∷ []), total-append batch (t ∷ [])))

  round_skips :
      (done rest : List String) (t : String)
      → ltb max_batch_size (len t) ≡ true
      → embed_round embed_rpc (done ++ t ∷ rest) (at done []) ≡ some (at (done ++ t ∷ []) [])
  unfolding embed_round
  round_skips done rest t h =
      rw (text_size-at done [] rest t)
        (ground (arith, h, length-append done (t ∷ []), map-append (vector_of f) done (t ∷ [])))

  round_flushes :
      (done batch rest : List String) (b t : String)
      → total (b ∷ batch) ≤ max_batch_size
      → ltb max_batch_size (total (b ∷ batch) + len t) ≡ true
      → embed_round embed_rpc (done ++ (b ∷ batch ++ t ∷ rest)) (at done (b ∷ batch))
        ≡ some (at (done ++ b ∷ batch) [])
  unfolding embed_round
  round_flushes done batch rest b t small h =
      rw
        (
          text_size-at done (b ∷ batch) rest t,
          slice-at done (b ∷ batch) (t ∷ rest),
          answers (length done) (b ∷ batch) small,
        )
        (ground (
          arith,
          h,
          length-append done (b ∷ batch),
          map-append (vector_of f) done (b ∷ batch),
          map-vector_of (b ∷ batch) small,
        ))

  -- 1 while a batch waits: the round that empties it does not move on.
  abbrev waiting : List String → ℕ
  waiting [] = 0
  waiting (b ∷ bs) = 1

  embed_loop-step :
      (fuel : ℕ) (texts : List String) (c c' : Cursor F)
      → ltb c.i (length texts) ≡ true
      → embed_round embed_rpc texts c ≡ some c'
      → embed_loop embed_rpc (suc fuel) texts c ≡ embed_loop embed_rpc fuel texts c'
  embed_loop-step fuel texts c c' h e = unfold embed_loop in rw (h, embed_loop) (rw (e, embed_next))

  inside :
      (done batch rest : List String) (t : String)
      → ltb (length done + length batch) (length (done ++ (batch ++ t ∷ rest))) ≡ true
  inside done batch rest t =
      ground (arith, length-append done (batch ++ t ∷ rest), length-append batch (t ∷ rest))

  waiting-le : (batch : List String) → waiting batch ≤ 1
  waiting-le [] = omega arith
  waiting-le (b ∷ bs) = omega arith

  -- The loop ends with every vector, with this fuel and from any such cursor.
  abbrev LoopEnds : ℕ → Type 0
  LoopEnds fuel =
      (done batch rest : List String)
      → total batch ≤ max_batch_size
      → 2 * length rest + waiting batch < fuel
      → embed_loop embed_rpc fuel (done ++ (batch ++ rest)) (at done batch)
        ≡ ok (map (vector_of f) (done ++ (batch ++ rest)))

  embed_loop_more :
      (fuel : ℕ) (done batch rest : List String) (t : String)
      → LoopEnds fuel
      → total batch ≤ max_batch_size
      → 2 * length (t ∷ rest) + waiting batch < suc fuel
      → (ltb max_batch_size (total batch + len t) ≡ true)
        ⊎ (ltb max_batch_size (total batch + len t) ≡ false)
      → embed_loop embed_rpc (suc fuel) (done ++ (batch ++ t ∷ rest)) (at done batch)
        ≡ ok (map (vector_of f) (done ++ (batch ++ t ∷ rest)))
  embed_loop_more fuel done batch rest t again s l (inr fits) =
      embed_loop-step fuel (done ++ (batch ++ t ∷ rest)) (at done batch) (at done (batch ++ t ∷ []))
        (inside done batch rest t) (round_adds done batch rest t fits)
      ∙ rw (← append_assoc batch (t ∷ []) rest) (
          again done (batch ++ t ∷ []) rest (ground (arith, total-append batch (t ∷ [])))
            (omega (arith, waiting-le (batch ++ t ∷ []))))
  embed_loop_more fuel done [] rest t again s l (inl big) =
      embed_loop-step fuel (done ++ t ∷ rest) (at done []) (at (done ++ t ∷ []) [])
        (inside done [] rest t) (round_skips done rest t (ground (arith, big)))
      ∙ rw (← append_assoc done (t ∷ []) rest)
          (again (done ++ t ∷ []) [] rest (omega arith) (omega arith))
  embed_loop_more fuel done (b ∷ bs) rest t again s l (inl big) =
      embed_loop-step fuel (done ++ (b ∷ bs ++ t ∷ rest)) (at done (b ∷ bs))
        (at (done ++ b ∷ bs) []) (inside done (b ∷ bs) rest t)
        (round_flushes done bs rest b t s big)
      ∙ rw (← append_assoc done (b ∷ bs) (t ∷ rest))
          (again (done ++ b ∷ bs) [] (t ∷ rest) (omega arith) (omega arith))

  embed_loop_all : (fuel : ℕ) → LoopEnds fuel
  embed_loop_all zero done batch rest small h = elim h [ ]
  embed_loop_all (suc fuel) done batch [] small h = rw append-nil (
      let over : ltb (length done + length batch) (length (done ++ batch)) ≡ false =
        ground (arith, length-append done batch) in
      unfold embed_loop in rw (over, embed_loop) (embed_last_batch done batch small))
  embed_loop_all (suc fuel) done batch (t ∷ rest) small h =
      embed_loop_more fuel done batch rest t (embed_loop_all fuel) small h
        (Bool-cases (ltb max_batch_size (total batch + len t)))

-- Let the service answer each chunk of at most `max_batch_size` bytes with the vectors that `f`
-- gives its texts, in order, whatever it does with a larger chunk. Then `EmbedBatch` ends within its
-- rounds with one vector for each text, in the order of the texts: the empty vector for a text of
-- more than `max_batch_size` bytes, and that of `f` for any other.
pub embed_batch_lem :
    {F : Type 0} (embed_rpc : ℕ → List String → Option (List (Vector F))) (f : String → Vector F)
    (texts : List String)
    → ((start : ℕ) (chunk : List String)
        → total chunk ≤ max_batch_size
        → embed_rpc start chunk ≡ some (map f chunk))
    → embed_batch embed_rpc texts ≡ ok (map (vector_of f) texts)
unfolding embed_batch
embed_batch_lem embed_rpc f [] answers = refl
embed_batch_lem embed_rpc f (t ∷ ts) answers =
    embed_loop_all embed_rpc f answers (2 * length (t ∷ ts) + 1) [] [] (t ∷ ts) (omega arith)
      (omega arith)
