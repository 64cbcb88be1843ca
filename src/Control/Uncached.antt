-- ===== src/Control/Uncached.antt =====
-- `ResetCrawlCache` over the scans that Redis documents: the keys of the crawler are gone.
use mathlib.Core.Path.{fun_ext}
use oafse.Common.{
  ◌≡◌, ◌∙◌, ◌⊎◌, String, Bool, true, false, none, List, [], refl, arith, if◌then◌else◌, Bool-cases,
  inl, inr,
}
use oafse.Redis.Info.{Key, other}
use oafse.Redis.Db.{Db}
use oafse.Redis.Placement.{AllPlaced}
use oafse.Control.Cleared.{is_key_of, Clears}

-- A key that begins with "crawler:".
abbrev pub is_cache_key : Key → Bool
is_cache_key (other k) = false
is_cache_key _ = true

-- The database without those keys.
abbrev pub uncached : Db → Db
uncached db = record {
  lists = λ k. if is_cache_key k then [] else db.lists k;
  hashes = λ k u. if is_cache_key k then none else db.hashes k u;
  sets = λ k. if is_cache_key k then [] else db.sets k;
  zsets = λ k. if is_cache_key k then [] else db.zsets k;
}

abbrev pub IsMissing : Db → Key → Type 0
IsMissing db k =
    (db.lists k ≡ []) × ((u : String) → db.hashes k u ≡ none) × (db.sets k ≡ []) × (db.zsets k ≡ [])

-- What SCAN with the pattern "crawler:*" gives: keys that match, and each of them that exists.
pub record ShowsCache (ks : List Key) (db : Db) : Type 0 where
  pub matching : (k : Key) → is_key_of k ks ≡ true → is_cache_key k ≡ true
  pub complete : (k : Key) → is_key_of k ks ≡ false → is_cache_key k ≡ true → IsMissing db k

module _ (ks : List Key) (db db' : Db) (shows : ShowsCache ks db) (c : Clears ks db db') where
  open shows use {matching, complete}

  -- A key is deleted, or is not of the cache, or was missing.
  key_case :
      (k : Key)
      → ((is_key_of k ks ≡ true) × (is_cache_key k ≡ true))
        ⊎ ((is_key_of k ks ≡ false) × (is_cache_key k ≡ false))
        ⊎ ((is_key_of k ks ≡ false) × (is_cache_key k ≡ true) × IsMissing db k)
  key_case k = elim (Bool-cases (is_key_of k ks)) [
    | inl e ↦ inl (e, matching k e)
    | inr e ↦ elim (Bool-cases (is_cache_key k)) [
      | inl f ↦ inr (inr (e, f, complete k e f))
      | inr f ↦ inr (inl (e, f))
    ]
  ]

  uncached_lists : (k : Key) → db'.lists k ≡ (uncached db).lists k
  uncached_lists k = ground (arith, key_case k, c.lists k)

  uncached_sets : (k : Key) → db'.sets k ≡ (uncached db).sets k
  uncached_sets k = ground (arith, key_case k, c.sets k)

  uncached_zsets : (k : Key) → db'.zsets k ≡ (uncached db).zsets k
  uncached_zsets k = ground (arith, key_case k, c.zsets k)

  uncached_hashes : (k : Key) (u : String) → db'.hashes k u ≡ (uncached db).hashes k u
  uncached_hashes k u = elim (key_case k) [
    | inl (e, f) ↦ c.hashes k u ∙ rw (e, f) refl
    | inr (inl (e, f)) ↦ c.hashes k u ∙ rw (e, f) refl
    | inr (inr (e, f, m)) ↦ c.hashes k u ∙ rw (e, f) (m.1 u)
  ]

  pub Clears-uncached : db' ≡ uncached db
  Clears-uncached = λ i. record {
    lists = fun_ext (λ k. uncached_lists k) i;
    hashes = fun_ext (λ k. fun_ext (λ u. uncached_hashes k u)) i;
    sets = fun_ext (λ k. uncached_sets k) i;
    zsets = fun_ext (λ k. uncached_zsets k) i;
  }

pub uncached-AllPlaced : (db : Db) → AllPlaced (uncached db)
uncached-AllPlaced db u = omega arith
