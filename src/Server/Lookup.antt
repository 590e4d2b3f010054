-- ===== src/Server/Lookup.antt =====
-- app/services/session_store.py: which hash is found under a key after a command, and the names of keys
-- and channels.

use doppelganger_web.Prelude.{
  ℕ, ◌+◌, String, Bool, true, false, [], ◌∷◌, ◌≡◌, refl, sym, ap, Option, none, some, if◌then◌else◌,
  str_eq, eq_iff, eq_refl, Bool-cases, inl, inr, ltb, arith,
}
use text.Mathlib.TextLemmas.{append_cancel_left, append_cancel_right}
use doppelganger_web.Server.Redis.{
  Hash, hget, put, put_all, Item, Redis, in_time, time_left, unexpired, lookup, hset, expire,
  delete,
}
use doppelganger_web.Server.Store.{key_of, channel_of, create_session}

-- Two tests that are true together are equal.
pub same_test : (a b : Bool) → (a ≡ true → b ≡ true) → (b ≡ true → a ≡ true) → a ≡ b
same_test true b f g = sym (f refl)
same_test false true f g = g refl
same_test false false f g = refl

pub str_eq-path : {s t : String} → str_eq s t ≡ true → s ≡ t
str_eq-path {s} {t} h = (eq_iff s t).0 h

pub path-str_eq : {s t : String} → s ≡ t → str_eq s t ≡ true
path-str_eq {s} {t} h = (eq_iff s t).1 h

pub str_eq_comm : (a b : String) → str_eq a b ≡ str_eq b a
str_eq_comm a b =
    same_test _ _ (λ h. path-str_eq (sym (str_eq-path h))) (λ h. path-str_eq (sym (str_eq-path h)))

pub str_eq-key_of : (a b : String) → str_eq (key_of a) (key_of b) ≡ str_eq a b
str_eq-key_of a b =
    same_test _ _ (λ h. path-str_eq (append_cancel_left "session:" a b (str_eq-path h)))
      (λ h. path-str_eq (ap key_of (str_eq-path h)))

pub str_eq-channel_of : (a b : String) → str_eq (channel_of a) (channel_of b) ≡ str_eq a b
str_eq-channel_of a b =
    same_test _ _
      (λ h.
        path-str_eq
          (append_cancel_right a b ":events" (append_cancel_left "session:" _ _ (str_eq-path h))))
      (λ h. path-str_eq (ap channel_of (str_eq-path h)))

pub hget-put :
    (j k v : String) (h : Hash) → hget j (put k v h) ≡ (if str_eq k j then some v else hget j h)
hget-put j k v [] = refl
hget-put j k v ((i, w) ∷ rest) =
    ground (arith, hget-put j k v rest, eq_iff i k, eq_iff k j, eq_iff i j)

-- What is found is unexpired, and so is what stands in its place with the time that is left.
kept_in_time :
    (now : ℕ) (h g h2 : Hash) (t : Option ℕ) → in_time now h t ≡ some h2 → in_time now g t ≡ some g
kept_in_time now h g h2 none found = refl
kept_in_time now h g h2 (some t) found = ground arith

kept :
    (now : ℕ) (e : Option Item) (h g : Hash)
    → unexpired now e ≡ some h
    → in_time now g (time_left (some h) e) ≡ some g
kept now none h g found = refl
kept now (some e) h g found = kept_in_time now e.hash g h e.expires found

pub lookup-hset :
    (r : Redis) (key k : String) (u h : Hash)
    → lookup r key ≡ some h
    → lookup (hset key u r) k ≡ (if str_eq k key then some (put_all u h) else lookup r k)
unfolding hset
lookup-hset r key k u h found = elim (Bool-cases (str_eq k key)) [
  | inl same ↦ rw same (rw found (kept r.now (r.keys key) h (put_all u h) found))
  | inr other ↦ rw other refl
]

pub lookup-create :
    (r : Redis) (id : String) (session : Hash) (ttl : ℕ) (k : String)
    → lookup r (key_of id) ≡ none
    → lookup (create_session id session ttl r).1 k ≡ (
        if str_eq k (key_of id)
        then (if ltb r.now (r.now + ttl) then some (put_all session []) else none)
        else lookup r k)
unfolding create_session hset expire
lookup-create r id session ttl k found = elim (Bool-cases (str_eq k (key_of id))) [
  | inl same ↦ rw same (rw (eq_refl (key_of id)) (rw found refl))
  | inr other ↦ rw other refl
]

pub delete-less :
    (r : Redis) (key k : String) (h : Hash) → lookup (delete key r) k ≡ some h → lookup r k ≡ some h
unfolding delete
delete-less r key k h found = ground arith

kept_later :
    (now n : ℕ) (e : Option Item) (h : Hash)
    → unexpired (now + n) e ≡ some h
    → unexpired now e ≡ some h
kept_later now n none h found = found
kept_later now n (some e) h found = in_time_before now n e.hash h e.expires found
  where
    in_time_before :
        (now n : ℕ) (g h : Hash) (t : Option ℕ)
        → in_time (now + n) g t ≡ some h
        → in_time now g t ≡ some h
    in_time_before now n g h none found = found
    in_time_before now n g h (some t) found = ground arith

-- What is found later was there before.
pub lookup-later :
    (r : Redis) (n : ℕ) (k : String) (h : Hash)
    → lookup (record r { now = r.now + n }) k ≡ some h
    → lookup r k ≡ some h
lookup-later r n k h found = kept_later r.now n (r.keys k) h found
