-- ===== src/Postgres/Pages.antt =====
-- The tables `pages` and `links` of migrations/, and what the statements of page_ds.go do to them.
-- `l2_normalize` is pgvector's, and `F` the type of its numbers.
use oafse.Common.{
  ℕ, suc, String, Bool, false, ◌&&◌, ◌||◌, not, Option, none, some, List, [], ◌∷◌, ◌++◌, str_eq,
  ◌==◌, if◌then◌else◌,
}
use oafse.Common.Int.{ℤ}

pub record Row (F : Type 0) : Type 0 where
  pub id : ℕ
  pub url : String
  pub title : String
  pub description : String
  pub content : String
  pub crawled_at : Option ℤ
  pub vector : Option (List F)
  pub can_be_vectorized : Bool

pub record LinkRow : Type 0 where
  pub src_page_id : ℕ
  pub dst_page_id : ℕ

-- `next_id` is the sequence of BIGSERIAL.
pub record Tables (F : Type 0) : Type 0 where
  pub next_id : ℕ
  pub pages : List (Row F)
  pub links : List LinkRow

abbrev pub has_link : ℕ → ℕ → List LinkRow → Bool
has_link a b [] = false
has_link a b (l ∷ ls) = (l.src_page_id == a && l.dst_page_id == b) || has_link a b ls

module _ {F : Type 0} where
  abbrev pub find_row : String → List (Row F) → Option (Row F)
  find_row url [] = none
  find_row url (r ∷ rs) = if str_eq r.url url then some r else find_row url rs

  -- ON CONFLICT (url) DO UPDATE: the new values at the old id.
  abbrev pub overwrite : Row F → List (Row F) → List (Row F)
  overwrite new [] = []
  overwrite new (r ∷ rs) =
      (if str_eq r.url new.url then record new { id = r.id } else r) ∷ overwrite new rs

  -- The row's place, and its id, by whether its URL has a row.
  abbrev pub upsert_at : Option (Row F) → Row F → Tables F → ℕ × Tables F
  upsert_at none new t = (new.id, record t { next_id = suc t.next_id; pages = t.pages ++ new ∷ [] })
  upsert_at (some old) new t =
      (old.id, record t { next_id = suc t.next_id; pages = overwrite new t.pages })

  -- WHERE vector IS NULL AND can_be_vectorized AND (title <> '' OR …)
  abbrev pub is_unvectorized : Option (List F) → Row F → Bool
  is_unvectorized (some v) r = false
  is_unvectorized none r =
      r.can_be_vectorized
      && (not (str_eq r.title "") || not (str_eq r.description "") || not (str_eq r.content ""))

  abbrev pub unvectorized : List (Row F) → List (Row F)
  unvectorized [] = []
  unvectorized (r ∷ rs) =
      let rest = unvectorized rs in if is_unvectorized r.vector r then r ∷ rest else rest

  -- INSERT … SELECT id, $2 FROM pages WHERE url = $1 ON CONFLICT DO NOTHING
  abbrev pub add_link : Option (Row F) → ℕ → List LinkRow → List LinkRow
  add_link none dst ls = ls
  add_link (some r) dst ls =
      if has_link r.id dst ls then ls else record { src_page_id = r.id; dst_page_id = dst } ∷ ls
