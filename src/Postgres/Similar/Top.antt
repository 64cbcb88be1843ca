-- ===== src/Postgres/Similar/Top.antt =====
-- What `FindSimilar` returns, told by the rows of the table.
use mathlib.Core.List.{Perm}
use mathlib.Core.List.Perm
use oafse.Common.{
  ℕ, zero, suc, ◌≡◌, ltb, true, false, Option, none, some, List, [], ◌∷◌, ◌++◌, length, take, drop,
  ◌∙◌, if◌then◌else◌, refl, ap, arith, Bool-cases, inl, inr,
}
use oafse.Common.Go.{ok}
use oafse.Storage.Model.{PageDb}
use oafse.Postgres.Errors.{db_up}
use oafse.Postgres.Pages.{Row, Tables}
use oafse.Postgres.Similar.{
  Distance, OrderLaws, vector_or_empty, if_near, near_pages, insert_by_distance, order_by_distance,
  IsOrdered, order-IsOrdered, find_similar,
}

module _ {F : Type 0} (d : Distance F) (query : List F) where
  -- The pages of the rows that have a vector near the query, each with the columns of its row.
  pub data NearRows : List (Row F) → List (PageDb F) → Type 0 where
    no_row : NearRows [] []
    without_vector :
        {r : Row F} {rs : List (Row F)} {ps : List (PageDb F)}
        → r.vector ≡ none
        → NearRows rs ps
        → NearRows (r ∷ rs) ps
    far :
        {r : Row F} {rs : List (Row F)} {ps : List (PageDb F)} (v : List F)
        → r.vector ≡ some v
        → d.is_near v query ≡ false
        → NearRows rs ps
        → NearRows (r ∷ rs) ps
    near :
        {r : Row F} {rs : List (Row F)} {ps : List (PageDb F)} (v : List F)
        → r.vector ≡ some v
        → d.is_near v query ≡ true
        → NearRows rs ps
        → NearRows (r ∷ rs) (
            record {
              url = r.url;
              title = r.title;
              description = r.description;
              content = r.content;
              crawled_at = r.crawled_at;
              vector = some v;
            }
            ∷ ps)

  -- The pages are the closest of the rows that are near: with `rest` they are all of those, in the
  -- order of their distance, and they are as many as there are, or as the limit if there are more.
  abbrev pub IsTop : ℕ → List (Row F) → List (PageDb F) → Type 0
  IsTop limit rows pages =
      (all rest : List (PageDb F)) × NearRows rows all
      × Perm (pages ++ rest) all
      × IsOrdered d query (pages ++ rest)
      × (length pages ≡ (if ltb limit (length all) then limit else length all))

  if_near-NearRows :
      (r : Row F) (o : Option (List F)) (rs : List (Row F)) (ps : List (PageDb F))
      → r.vector ≡ o
      → NearRows rs ps
      → NearRows (r ∷ rs) (if_near d query r o ps)
  if_near-NearRows r none rs ps e h = without_vector e h
  if_near-NearRows r (some v) rs ps e h = elim (Bool-cases (d.is_near v query)) [
    | inl close ↦ rw close (near v e close h)
    | inr away ↦ rw away (far v e away h)
  ]

  near_pages-NearRows : (rs : List (Row F)) → NearRows rs (near_pages d query rs)
  near_pages-NearRows [] = no_row
  near_pages-NearRows (r ∷ rs) =
      if_near-NearRows r r.vector rs (near_pages d query rs) refl (near_pages-NearRows rs)

  insert-perm :
      (p : PageDb F) (ps : List (PageDb F)) → Perm (insert_by_distance d query p ps) (p ∷ ps)
  insert-perm p [] = Perm.rfl
  insert-perm p (q ∷ qs) =
      elim (Bool-cases
        (d.is_closer query (vector_or_empty d query q.vector) (vector_or_empty d query p.vector))) [
          | inl behind ↦ rw behind (Perm.trans (Perm.cons q (insert-perm p qs)) (Perm.swap p q qs))
          | inr first ↦ rw first Perm.rfl
        ]

  order-perm : (ps : List (PageDb F)) → Perm (order_by_distance d query ps) ps
  order-perm [] = Perm.rfl
  order-perm (p ∷ ps) =
      Perm.trans (insert-perm p (order_by_distance d query ps)) (Perm.cons p (order-perm ps))

  take-drop : (n : ℕ) (ps : List (PageDb F)) → take n ps ++ drop n ps ≡ ps
  take-drop zero ps = refl
  take-drop (suc n) [] = refl
  take-drop (suc n) (p ∷ ps) = ap (◌∷◌ p) (take-drop n ps)

  length-take :
      (n : ℕ) (ps : List (PageDb F))
      → length (take n ps) ≡ (if ltb n (length ps) then n else length ps)
  length-take zero ps = ground arith
  length-take (suc n) [] = ground arith
  length-take (suc n) (p ∷ ps) = ground (arith, length-take n ps)

  length-insert :
      (p : PageDb F) (ps : List (PageDb F))
      → length (insert_by_distance d query p ps) ≡ suc (length ps)
  length-insert p [] = refl
  length-insert p (q ∷ qs) = ground (arith, length-insert p qs)

  length-order : (ps : List (PageDb F)) → length (order_by_distance d query ps) ≡ length ps
  length-order [] = refl
  length-order (p ∷ ps) = length-insert p (order_by_distance d query ps) ∙ ap suc (length-order ps)

  -- Where being closer to the query is a strict weak order, `FindSimilar` returns the closest of the
  -- visited rows that have a vector near the query.
  pub find_similar-IsTop :
      (limit : ℕ) (t : Tables F)
      → OrderLaws d query
      → (pages : List (PageDb F)) × ((find_similar d query db_up limit t).0 ≡ ok pages)
        × IsTop limit (d.visited query t.pages) pages
  unfolding find_similar
  find_similar-IsTop limit t laws =
      let all = near_pages d query (d.visited query t.pages) in
      let ordered = order_by_distance d query all in
      (
        take limit ordered,
        refl,
        (
          all,
          drop limit ordered,
          near_pages-NearRows (d.visited query t.pages),
          rw (take-drop limit ordered) (order-perm all),
          rw (take-drop limit ordered) (order-IsOrdered d query laws all),
          rw (← length-order all) (length-take limit ordered),
        ),
      )
