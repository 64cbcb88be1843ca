-- ===== src/Redis/Counts.antt =====
-- How often a URL stands in a list or a sorted set after each change that a command makes to it.
use oafse.Common.{
  ℕ, ◌+◌, ◌-◌, ◌≡◌, String, Bool, false, some, List, [], ◌∷◌, if◌then◌else◌, arith, str_eq, eq_iff,
  count,
}
use oafse.Redis.Db.{
  Scored, remove_all, remove_first, contains, init, get_last?, zremove, zinsert, zmembers_upto,
  zremove_upto,
}

-- How often a member stands in a sorted set.
abbrev pub zcount : String → List Scored → ℕ
zcount u [] = 0
zcount u (e ∷ es) = (if str_eq e.member u then 1 else 0) + zcount u es

module _ (v u : String) where
  pub count-remove_all :
      (xs : List String) → count u (remove_all v xs) ≡ (if str_eq v u then 0 else count u xs)
  count-remove_all [] = ground arith
  count-remove_all (x ∷ xs) =
      ground (arith, count-remove_all xs, eq_iff x v, eq_iff x u, eq_iff v u)

  pub count-remove_first :
      (xs : List String) → count u (remove_first v xs) ≡ count u xs - (if str_eq v u then 1 else 0)
  count-remove_first [] = ground arith
  count-remove_first (x ∷ xs) =
      ground (arith, count-remove_first xs, eq_iff x v, eq_iff x u, eq_iff v u)

  pub zcount-zremove :
      (es : List Scored) → zcount u (zremove v es) ≡ (if str_eq v u then 0 else zcount u es)
  zcount-zremove [] = ground arith
  zcount-zremove (e ∷ es) =
      ground (arith, zcount-zremove es, eq_iff e.member v, eq_iff e.member u, eq_iff v u)

pub contains-count : (u : String) (xs : List String) → count u xs ≡ 0 → contains u xs ≡ false
contains-count u [] h = ground arith
contains-count u (x ∷ xs) h = ground (arith, contains-count u xs)

pub zcount-zinsert :
    (before : String → String → Bool) (u : String) (a : Scored) (es : List Scored)
    → zcount u (zinsert before a es) ≡ (if str_eq a.member u then 1 else 0) + zcount u es
zcount-zinsert before u a [] = ground arith
zcount-zinsert before u a (e ∷ es) = ground (arith, zcount-zinsert before u a es)

pub count-zmembers_upto :
    (u : String) (now : ℕ) (es : List Scored)
    → count u (zmembers_upto now es) + zcount u (zremove_upto now es) ≡ zcount u es
count-zmembers_upto u now [] = ground arith
count-zmembers_upto u now (e ∷ es) = ground (arith, count-zmembers_upto u now es)

-- The last element and the rest.
pub count-init :
    (u x : String) (xs : List String)
    → get_last? xs ≡ some x
    → count u xs ≡ count u (init xs) + (if str_eq x u then 1 else 0)
count-init u x [] h = ground arith
count-init u x (y ∷ []) h = ground arith
count-init u x (y ∷ z ∷ zs) h = ground (arith, count-init u x (z ∷ zs) h)
