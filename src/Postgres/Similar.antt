-- ===== src/Postgres/Similar.antt =====
-- `FindSimilar` of page_ds.go. The distance of pgvector is a parameter.
pub mod Top
use oafse.Common.{
  ℕ, zero, suc, ◌≡◌, ◌∙◌, ap, ltb, Bool, true, false, Option, none, some, List, [], ◌∷◌, length,
  take, if◌then◌else◌, refl, arith, Bool-cases, inl, inr,
}
use oafse.Common.Go.{GoResult, ok}
use oafse.Storage.Model.{PageDb}
use oafse.Postgres.Errors.{DbLink, db_up, db_call}
use oafse.Postgres.Pages.{Row, Tables}

-- `vector <#> l2_normalize($1) < -0.3`, the order of two vectors by that distance, and the rows that
-- Postgres visits for a query vector: all of them, or what the HNSW index of the migrations yields,
-- which is approximate.
pub record Distance (F : Type 0) : Type 0 where
  pub is_near : List F → List F → Bool
  pub is_closer : List F → List F → List F → Bool
  pub visited : List F → List (Row F) → List (Row F)

-- Being closer to one query is a strict weak order of vectors: no two are closer than each other,
-- and being no closer is transitive.
pub record OrderLaws {F : Type 0} (d : Distance F) (query : List F) : Type 0 where
  pub asym : (a b : List F) → d.is_closer query a b ≡ true → d.is_closer query b a ≡ false
  pub trans :
      (a b c : List F)
      → d.is_closer query a b ≡ false
      → d.is_closer query b c ≡ false
      → d.is_closer query a c ≡ false

module _ {F : Type 0} (d : Distance F) (query : List F) where
  -- A row of the result, with its vector.
  abbrev pub page_with_vector : Row F → List F → PageDb F
  page_with_vector r v = record {
    url = r.url;
    title = r.title;
    description = r.description;
    content = r.content;
    crawled_at = r.crawled_at;
    vector = some v;
  }

  -- The vector of a row that has one; ORDER BY compares no other rows.
  abbrev pub vector_or_empty : Option (List F) → List F
  vector_or_empty none = []
  vector_or_empty (some v) = v

  abbrev pub if_near : Row F → Option (List F) → List (PageDb F) → List (PageDb F)
  if_near r none rest = rest
  if_near r (some v) rest = if d.is_near v query then page_with_vector r v ∷ rest else rest

  abbrev pub near_pages : List (Row F) → List (PageDb F)
  near_pages [] = []
  near_pages (r ∷ rs) = if_near r r.vector (near_pages rs)

  abbrev pub insert_by_distance : PageDb F → List (PageDb F) → List (PageDb F)
  insert_by_distance p [] = p ∷ []
  insert_by_distance p (q ∷ qs) =
      let rest = insert_by_distance p qs in
      if d.is_closer query (vector_or_empty q.vector) (vector_or_empty p.vector)
      then q ∷ rest
      else p ∷ q ∷ qs

  abbrev pub order_by_distance : List (PageDb F) → List (PageDb F)
  order_by_distance [] = []
  order_by_distance (p ∷ ps) = insert_by_distance p (order_by_distance ps)

  unfoldable pub find_similar : DbLink → ℕ → Tables F → GoResult (List (PageDb F)) × Tables F
  find_similar link limit t =
      db_call link (λ s. (take limit (order_by_distance (near_pages (d.visited query s.pages))), s))
        t

  -- No page of the list is closer than one in front of it.
  abbrev pub NoneCloser : PageDb F → List (PageDb F) → Type 0
  NoneCloser p [] = Unit
  NoneCloser p (q ∷ qs) =
      (d.is_closer query (vector_or_empty q.vector) (vector_or_empty p.vector) ≡ false)
      × NoneCloser p qs

  abbrev pub IsOrdered : List (PageDb F) → Type 0
  IsOrdered [] = Unit
  IsOrdered (p ∷ ps) = NoneCloser p ps × IsOrdered ps

  insert-NoneCloser :
      (q p : PageDb F) (ps : List (PageDb F))
      → d.is_closer query (vector_or_empty p.vector) (vector_or_empty q.vector) ≡ false
      → NoneCloser q ps
      → NoneCloser q (insert_by_distance p ps)
  insert-NoneCloser q p [] h k = (h, tt)
  insert-NoneCloser q p (x ∷ xs) h (k, ks) =
      elim (Bool-cases (d.is_closer query (vector_or_empty x.vector) (vector_or_empty p.vector))) [
        | inl behind ↦ rw behind (k, insert-NoneCloser q p xs h ks)
        | inr first ↦ rw first (h, (k, ks))
      ]

  module _ (laws : OrderLaws d query) where
    open laws use {asym, trans}

    behind-NoneCloser :
        (p x : PageDb F) (xs : List (PageDb F))
        → d.is_closer query (vector_or_empty x.vector) (vector_or_empty p.vector) ≡ false
        → NoneCloser x xs
        → NoneCloser p xs
    behind-NoneCloser p x [] h k = tt
    behind-NoneCloser p x (y ∷ ys) h (k, ks) = (
      trans (vector_or_empty y.vector) (vector_or_empty x.vector) (vector_or_empty p.vector) k h,
      behind-NoneCloser p x ys h ks,
    )

    insert-IsOrdered :
        (p : PageDb F) (ps : List (PageDb F)) → IsOrdered ps → IsOrdered (insert_by_distance p ps)
    insert-IsOrdered p [] h = (tt, tt)
    insert-IsOrdered p (x ∷ xs) (h, hs) =
        elim (Bool-cases
          (d.is_closer query (vector_or_empty x.vector) (vector_or_empty p.vector))) [
            | inl behind ↦ rw behind (
              insert-NoneCloser x p xs
                  (asym (vector_or_empty x.vector) (vector_or_empty p.vector) behind) h,
              insert-IsOrdered p xs hs,
            )
            | inr first ↦ rw first ((first, behind-NoneCloser p x xs first h), (h, hs))
          ]

    pub order-IsOrdered : (ps : List (PageDb F)) → IsOrdered (order_by_distance ps)
    order-IsOrdered [] = tt
    order-IsOrdered (p ∷ ps) = insert-IsOrdered p (order_by_distance ps) (order-IsOrdered ps)
