-- ===== src/Control/Cleared.antt =====
-- What `ResetCrawlCache` leaves.
use oafse.Common.{
  ◌≡◌, String, Bool, false, ◌||◌, none, List, [], ◌∷◌, ◌++◌, refl, arith, if◌then◌else◌, subst,
}
use oafse.Common.Go.{ok}
use oafse.Redis.Info.{Key, key_eq}
use oafse.Redis.Db.{Db, del}
use oafse.Redis.Api.{Redis}
use oafse.Redis.Net.{up}
use oafse.Redis.UrlDs.{KeyScan, scan_failed, keys, del_all, reset_crawl_cache}

abbrev pub is_key_of : Key → List Key → Bool
is_key_of j [] = false
is_key_of j (k ∷ ks) = key_eq k j || is_key_of j ks

-- The keys of all replies.
abbrev pub scanned : List KeyScan → List Key
scanned [] = []
scanned (scan_failed ∷ scans) = scanned scans
scanned (keys ks link ∷ scans) = ks ++ scanned scans

-- Every scan and every deletion is answered.
abbrev pub AllScanned : List KeyScan → Type 0
AllScanned [] = Unit
AllScanned (scan_failed ∷ scans) = ⊥
AllScanned (keys ks link ∷ scans) = (link ≡ up) × AllScanned scans

-- The keys of the list are gone, and the others are as they were.
pub record Clears (ks : List Key) (db db' : Db) : Type 0 where
  pub lists : (k : Key) → db'.lists k ≡ (if is_key_of k ks then [] else db.lists k)
  pub hashes :
      (k : Key) (u : String) → db'.hashes k u ≡ (if is_key_of k ks then none else db.hashes k u)
  pub sets : (k : Key) → db'.sets k ≡ (if is_key_of k ks then [] else db.sets k)
  pub zsets : (k : Key) → db'.zsets k ≡ (if is_key_of k ks then [] else db.zsets k)

Clears-nil : (db : Db) → Clears [] db db
Clears-nil db = record {
  lists = λ k. refl;
  hashes = λ k u. refl;
  sets = λ k. refl;
  zsets = λ k. refl;
}

Clears-del :
    (k : Key) (ks : List Key) (db db' : Db) → Clears ks (del k db) db' → Clears (k ∷ ks) db db'
Clears-del k ks db db' c = record {
  lists = λ j. ground (arith, c.lists j);
  hashes = λ j u. ground (arith, c.hashes j u);
  sets = λ j. ground (arith, c.sets j);
  zsets = λ j. ground (arith, c.zsets j);
}

is_key_of-append :
    (j : Key) (ks bs : List Key) → is_key_of j (ks ++ bs) ≡ (is_key_of j ks || is_key_of j bs)
is_key_of-append j [] bs = refl
is_key_of-append j (k ∷ ks) bs = ground (arith, is_key_of-append j ks bs)

Clears-append :
    (ks bs : List Key) (a b c : Db) → Clears ks a b → Clears bs b c → Clears (ks ++ bs) a c
Clears-append ks bs a b c p q = record {
  lists = λ j. ground (arith, p.lists j, q.lists j, is_key_of-append j ks bs);
  hashes = λ j u. ground (arith, p.hashes j u, q.hashes j u, is_key_of-append j ks bs);
  sets = λ j. ground (arith, p.sets j, q.sets j, is_key_of-append j ks bs);
  zsets = λ j. ground (arith, p.zsets j, q.zsets j, is_key_of-append j ks bs);
}

module _ (r : Redis) where
  open r use {Store, contents, contents-del}

  del_all-Clears : (ks : List Key) (s : Store) → Clears ks (contents s) (contents (del_all r ks s))
  unfolding del_all
  del_all-Clears [] s = Clears-nil (contents s)
  del_all-Clears (k ∷ ks) s = Clears-del k ks (contents s) (contents (del_all r ks (r.del k s))) (
      subst (λ db. Clears ks db (contents (del_all r ks (r.del k s)))) (contents-del k s)
        (del_all-Clears ks (r.del k s)))

  -- `ResetCrawlCache` whose requests are all answered succeeds and deletes the keys that the scans
  -- have shown, and no others.
  pub reset_crawl_cache-Clears :
      (scans : List KeyScan) (s : Store)
      → AllScanned scans
      → ((reset_crawl_cache r scans s).0 ≡ ok tt)
        × Clears (scanned scans) (contents s) (contents (reset_crawl_cache r scans s).1)
  unfolding reset_crawl_cache
  reset_crawl_cache-Clears [] s h = (refl, Clears-nil (contents s))
  reset_crawl_cache-Clears (scan_failed ∷ scans) s h = absurd h
  reset_crawl_cache-Clears (keys [] link ∷ scans) s (e, h) = reset_crawl_cache-Clears scans s h
  reset_crawl_cache-Clears (keys (k ∷ ks) link ∷ scans) s (e, h) =
      let t = del_all r (k ∷ ks) s in
      let (done, rest) = reset_crawl_cache-Clears scans t h in
      rw e (
        done,
        Clears-append (k ∷ ks) (scanned scans) (contents s) (contents t)
            (contents (reset_crawl_cache r scans t).1) (del_all-Clears (k ∷ ks) s) rest,
      )
