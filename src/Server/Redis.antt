-- ===== src/Server/Redis.antt =====
-- Redis, as far as app/services/session_store.py uses it: hashes with a time to live, and what has been
-- published. One call of the client is one step of the server.
use doppelganger_web.Prelude.{
  ℕ, ◌+◌, String, List, [], ◌∷◌, ◌++◌, Option, none, some, ltb, if◌then◌else◌, str_eq,
}
use doppelganger_web.Exec.{raised, ok, throw, Exec}

abbrev pub Hash : Type 0
Hash = List (String × String)

-- HGET, on the hash
abbrev pub hget : String → Hash → Option String
hget k [] = none
hget k ((j, v) ∷ rest) = if str_eq j k then some v else hget k rest

abbrev pub put : String → String → Hash → Hash
put k v [] = (k, v) ∷ []
put k v ((j, w) ∷ rest) = if str_eq j k then (k, v) ∷ rest else (j, w) ∷ put k v rest

-- HSET, on the hash
abbrev pub put_all : Hash → Hash → Hash
put_all [] h = h
put_all ((k, v) ∷ more) h = put_all more (put k v h)

-- A key; one that EXPIRE has not been called on lives for good.
pub record Item : Type 0 where
  pub hash : Hash
  pub expires : Option ℕ

-- `now` is in seconds; `published` holds the channels and messages, the last one last.
pub record Redis : Type 0 where
  pub keys : String → Option Item
  pub now : ℕ
  pub published : List (String × String)

abbrev pub in_time : ℕ → Hash → Option ℕ → Option Hash
in_time now h none = some h
in_time now h (some t) = if ltb now t then some h else none

abbrev pub unexpired : ℕ → Option Item → Option Hash
unexpired now none = none
unexpired now (some e) = in_time now e.hash e.expires

-- HGETALL and EXISTS: a hash that is there has at least one field.
abbrev pub lookup : Redis → String → Option Hash
lookup r key = unexpired r.now (r.keys key)

abbrev pub update : (String → Option Item) → String → Option Item → String → Option Item
update keys key e k = if str_eq k key then e else keys k

abbrev pub time_left : Option Hash → Option Item → Option ℕ
time_left none e = none
time_left (some h) none = none
time_left (some h) (some e) = e.expires

abbrev pub or_new : Option Hash → Hash
or_new none = []
or_new (some h) = h

-- HSET keeps the time to live of a key that is there.
unfoldable pub hset : String → Hash → Redis → Redis
hset key fields r =
    let found = lookup r key in
    record r {
      keys = update r.keys key (
          some (record {
            hash = put_all fields (or_new found);
            expires = time_left found (r.keys key);
          }));
    }

abbrev expiring : Option Item → ℕ → Option Item
expiring none t = none
expiring (some e) t = some (record e { expires = some t })

unfoldable pub expire : String → ℕ → Redis → Redis
expire key ttl r = record r { keys = update r.keys key (expiring (r.keys key) (r.now + ttl)) }

unfoldable pub publish : String → String → Redis → Redis
publish channel message r = record r { published = r.published ++ (channel, message) ∷ [] }

unfoldable pub delete : String → Redis → Redis
delete key r = record r { keys = update r.keys key none }

-- How a call of the client goes: as it should, or it raises, with the command done or not.
pub data Link : Type 0 where
  up down cut : Link

unfoldable pub call : {A : Type 0} → Link → (Redis → A × Redis) → Exec Redis A
call up command r = let (a, s) = command r in (ok a, s)
call down command r = (throw (raised "RedisError"), r)
call cut command r = let (a, s) = command r in (throw (raised "RedisError"), s)
