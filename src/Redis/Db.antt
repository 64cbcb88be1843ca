-- ===== src/Redis/Db.antt =====
-- What the Redis commands that the crawler sends do to a database, as Redis documents them.
-- This is not code of the repository: `Redis.Api` states it of an abstract server. A value of the
-- status hash is the decoded JSON.
use oafse.Common.{
  ℕ, String, Bool, false, Option, none, some, List, [], ◌∷◌, ◌&&◌, ◌||◌, if◌then◌else◌, str_eq,
}
use oafse.Common.Int.{ℤ, pos, int_ltb, int_leb, int_eqb}
use oafse.Redis.Info.{Key, key_eq, UrlInfo}

-- Score and member of a sorted set.
pub record Scored : Type 0 where
  pub member : String
  pub score : ℤ

pub record Db : Type 0 where
  pub lists : Key → List String
  pub hashes : Key → String → Option UrlInfo
  pub sets : Key → List String
  pub zsets : Key → List Scored

abbrev pub update {ℓ} : {A : Type ℓ} → Key → A → (Key → A) → Key → A
update k v f j = if key_eq k j then v else f j

-- LREM with a count of 0.
abbrev pub remove_all : String → List String → List String
remove_all u [] = []
remove_all u (x ∷ xs) = let rest = remove_all u xs in if str_eq x u then rest else x ∷ rest

-- LREM with a positive count, here 1.
abbrev pub remove_first : String → List String → List String
remove_first u [] = []
remove_first u (x ∷ xs) = let rest = remove_first u xs in if str_eq x u then xs else x ∷ rest

abbrev pub contains : String → List String → Bool
contains u [] = false
contains u (x ∷ xs) = str_eq x u || contains u xs

-- The list without its last element.
abbrev pub init : List String → List String
init [] = []
init (x ∷ []) = []
init (x ∷ y ∷ ys) = x ∷ init (y ∷ ys)

abbrev pub get_last? : List String → Option String
get_last? [] = none
get_last? (x ∷ []) = some x
get_last? (x ∷ y ∷ ys) = get_last? (y ∷ ys)

abbrev pub zremove : String → List Scored → List Scored
zremove u [] = []
zremove u (e ∷ es) = let rest = zremove u es in if str_eq e.member u then rest else e ∷ rest

-- The order of a sorted set: by score, and `before` among members of one score.
abbrev pub precedes : (String → String → Bool) → Scored → Scored → Bool
precedes before a b =
    int_ltb a.score b.score || (int_eqb a.score b.score && before a.member b.member)

abbrev pub zinsert : (String → String → Bool) → Scored → List Scored → List Scored
zinsert before a [] = a ∷ []
zinsert before a (e ∷ es) =
    let rest = zinsert before a es in if precedes before e a then e ∷ rest else a ∷ e ∷ es

abbrev pub zmembers_upto : ℕ → List Scored → List String
zmembers_upto now [] = []
zmembers_upto now (e ∷ es) =
    let rest = zmembers_upto now es in if int_leb e.score (pos now) then e.member ∷ rest else rest

abbrev pub zremove_upto : ℕ → List Scored → List Scored
zremove_upto now [] = []
zremove_upto now (e ∷ es) =
    let rest = zremove_upto now es in if int_leb e.score (pos now) then rest else e ∷ rest

abbrev pub lpush : Key → String → Db → Db
lpush k x db = record db { lists = update k (x ∷ db.lists k) db.lists }

abbrev pub lrem_first : Key → String → Db → Db
lrem_first k x db = record db { lists = update k (remove_first x (db.lists k)) db.lists }

abbrev pub lrem_all : Key → String → Db → Db
lrem_all k x db = record db { lists = update k (remove_all x (db.lists k)) db.lists }

-- LMOVE src dst RIGHT LEFT: the reply is the value moved.
abbrev pub lmove_reply : Key → Db → Option String
lmove_reply src db = get_last? (db.lists src)

abbrev pub move_last : Key → Key → Option String → Db → Db
move_last src dst none db = db
move_last src dst (some x) db =
    lpush dst x (record db { lists = update src (init (db.lists src)) db.lists })

abbrev pub lmove : Key → Key → Db → Db
lmove src dst db = move_last src dst (get_last? (db.lists src)) db

abbrev pub hset : Key → String → UrlInfo → Db → Db
hset k f v db = record db {
  hashes = update k (λ g. if str_eq f g then some v else db.hashes k g) db.hashes;
}

abbrev pub sadd : Key → String → Db → Db
sadd k x db = record db {
  sets = update k (if contains x (db.sets k) then db.sets k else x ∷ db.sets k) db.sets;
}

abbrev pub srem : Key → String → Db → Db
srem k x db = record db { sets = update k (remove_all x (db.sets k)) db.sets }

abbrev pub zadd : (String → String → Bool) → Key → Scored → Db → Db
zadd before k e db = record db {
  zsets = update k (zinsert before e (zremove e.member (db.zsets k))) db.zsets;
}

abbrev pub zremrangebyscore : Key → ℕ → Db → Db
zremrangebyscore k now db = record db { zsets = update k (zremove_upto now (db.zsets k)) db.zsets }

abbrev pub del : Key → Db → Db
del k db = record {
  lists = update k [] db.lists;
  hashes = update k (λ _. none) db.hashes;
  sets = update k [] db.sets;
  zsets = update k [] db.zsets;
}
