-- ===== src/Redis/Api.antt =====
-- The Redis server as the crawler uses it (go-redis and the server are not code of the repository):
-- an abstract store, what its reading commands would show, and the commands that change it, each
-- with its documented effect. The reference server at the end meets the interface.
use oafse.Common.{ℕ, String, Bool, Option, ◌≡◌, refl}
use oafse.Redis.Db
use oafse.Redis.Db.{Db, Scored}
use oafse.Redis.Info.{Key, UrlInfo}

pub record Redis : Type 1 where
  pub Store : Type 0
  -- what LRANGE, HGETALL, SMEMBERS and ZRANGE would show
  pub contents : Store → Db
  -- the byte order of members with one score
  pub before : String → String → Bool
  pub lpush : Key → String → Store → Store
  pub lrem_first : Key → String → Store → Store
  pub lrem_all : Key → String → Store → Store
  pub lmove_reply : Key → Key → Store → Option String
  pub lmove : Key → Key → Store → Store
  pub hset : Key → String → UrlInfo → Store → Store
  pub sadd : Key → String → Store → Store
  pub srem : Key → String → Store → Store
  pub zadd : Key → Scored → Store → Store
  pub zremrangebyscore : Key → ℕ → Store → Store
  pub del : Key → Store → Store
  pub contents-lpush :
      (k : Key) (x : String) (s : Store) → contents (lpush k x s) ≡ Db.lpush k x (contents s)
  pub contents-lrem_first :
      (k : Key) (x : String) (s : Store)
      → contents (lrem_first k x s) ≡ Db.lrem_first k x (contents s)
  pub contents-lrem_all :
      (k : Key) (x : String) (s : Store) → contents (lrem_all k x s) ≡ Db.lrem_all k x (contents s)
  pub lmove_reply-eq : (a b : Key) (s : Store) → lmove_reply a b s ≡ Db.lmove_reply a (contents s)
  pub contents-lmove : (a b : Key) (s : Store) → contents (lmove a b s) ≡ Db.lmove a b (contents s)
  pub contents-hset :
      (k : Key) (f : String) (v : UrlInfo) (s : Store)
      → contents (hset k f v s) ≡ Db.hset k f v (contents s)
  pub contents-sadd :
      (k : Key) (x : String) (s : Store) → contents (sadd k x s) ≡ Db.sadd k x (contents s)
  pub contents-srem :
      (k : Key) (x : String) (s : Store) → contents (srem k x s) ≡ Db.srem k x (contents s)
  pub contents-zadd :
      (k : Key) (e : Scored) (s : Store) → contents (zadd k e s) ≡ Db.zadd before k e (contents s)
  pub contents-zremrangebyscore :
      (k : Key) (now : ℕ) (s : Store)
      → contents (zremrangebyscore k now s) ≡ Db.zremrangebyscore k now (contents s)
  pub contents-del : (k : Key) (s : Store) → contents (del k s) ≡ Db.del k (contents s)

-- A reply with what the store then shows.
abbrev pub observe : {A : Type 0} (r : Redis) → A × r.Store → A × Db
observe r (a, s) = (a, r.contents s)

-- A server that is its own contents.
abbrev pub reference : (String → String → Bool) → Redis
reference before = record {
  Store = Db;
  contents = λ db. db;
  before = before;
  lpush = Db.lpush;
  lrem_first = Db.lrem_first;
  lrem_all = Db.lrem_all;
  lmove_reply = λ a b db. Db.lmove_reply a db;
  lmove = Db.lmove;
  hset = Db.hset;
  sadd = Db.sadd;
  srem = Db.srem;
  zadd = Db.zadd before;
  zremrangebyscore = Db.zremrangebyscore;
  del = Db.del;
  contents-lpush = λ k x s. refl;
  contents-lrem_first = λ k x s. refl;
  contents-lrem_all = λ k x s. refl;
  lmove_reply-eq = λ a b s. refl;
  contents-lmove = λ a b s. refl;
  contents-hset = λ k f v s. refl;
  contents-sadd = λ k x s. refl;
  contents-srem = λ k x s. refl;
  contents-zadd = λ k e s. refl;
  contents-zremrangebyscore = λ k now s. refl;
  contents-del = λ k s. refl;
}
