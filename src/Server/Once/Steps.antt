-- ===== src/Server/Once/Steps.antt =====
-- app/routes/session.py and app/routes/verify.py: each step of the server keeps the sessions valid.
use doppelganger_web.Prelude.{
  ℕ, String, Bool, true, false, not, ◌||◌, ◌&&◌, List, [], ◌∷◌, ◌++◌, ◌≡◌, refl, ap, ◌∙◌, subst,
  none, some, str_eq, if◌then◌else◌, Bool-cases, inl, inr, arith, eq_refl,
}
use mathlib.Core.List.{append-nil}
use doppelganger_web.Exec.{Result, ok, throw}
use doppelganger_web.Exec.Fallible
use doppelganger_web.Server.{Python, Config, Reply}
use doppelganger_web.Server.Redis.{Hash, put_all, Redis, lookup, hset, publish}
use doppelganger_web.Server.Store
use doppelganger_web.Server.Store.{key_of, channel_of, new_session}
use doppelganger_web.Server.Scoring.{Pending, at_key, updates, event, won_reply}
use doppelganger_web.Server.Effects.{is_waiting, is_success, Told, decide}
use doppelganger_web.Server.Lookup.{
  str_eq_comm, str_eq-key_of, str_eq-channel_of, lookup-hset, lookup-create, hget-put,
}
use doppelganger_web.Server.Run.{World, is_new}
use doppelganger_web.Server.Once.{Tells, Quiet, messages, successes, Scored}

pub and_false : (a b : Bool) → b ≡ false → (a && b) ≡ false
and_false a b h = ground arith

pub neither : (a b : Bool) → not (a || b) ≡ true → (a ≡ false) × (not b ≡ true)
neither a b h = (ground arith, ground arith)

pub messages-append :
    (id : String) (xs : List (String × String)) (channel message : String)
    → messages id (xs ++ (channel, message) ∷ [])
      ≡ messages id xs ++ (if str_eq channel (channel_of id) then message ∷ [] else [])
messages-append id [] channel message = refl
messages-append id ((c, m) ∷ rest) channel message = elim (Bool-cases (str_eq c (channel_of id))) [
  | inl same ↦ rw same (ap (λ ms. m ∷ ms) (messages-append id rest channel message))
  | inr other ↦ rw other (messages-append id rest channel message)
]

-- A result that is no reply, or one with success that says the verdict.
abbrev Says : Python → Bool → String → Result Reply → Type 0
Says py passed score (ok reply) = (is_success reply ≡ true) × Tells py passed score reply
Says py passed score (throw e) = Unit

then-Says :
    (py : Python) (passed : Bool) (score : String) {A : Type 0} (res : Result A)
    (f : A → Result Reply)
    → ((a : A) → Says py passed score (f a))
    → Says py passed score (Fallible.◌>>=◌ res f)
then-Says py passed score (ok a) f h = h a
then-Says py passed score (throw e) f h = tt

won_reply-Says :
    (py : Python) (passed : Bool) (p : Pending) (score : String)
    → Says py passed score (won_reply py passed p score)
unfolding won_reply
won_reply-Says py true p score =
    then-Says py true score (at_key "alice_pubkey_jwk" p.session) _
      (λ text. then-Says py true score (py.loads text) _ (λ jwk. (refl, (refl, refl))))
won_reply-Says py false p score = (refl, (refl, refl))

pub won_reply-Tells :
    (py : Python) (passed : Bool) (p : Pending) (score : String) (reply : Reply)
    → won_reply py passed p score ≡ ok reply
    → (is_success reply ≡ true) × Tells py passed score reply
won_reply-Tells py passed p score reply h =
    subst (Says py passed score) h (won_reply-Says py passed p score)

pub decided-over :
    (py : Python) (passed : Bool) (p : Pending) (score : String) (h : Hash)
    → is_waiting (put_all (updates py passed p score) h) ≡ false
decided-over py true p score h = simp hget-put
decided-over py false p score h = simp hget-put

pub create-apart :
    (r : Redis) (id of : String) (session : Hash) (ttl : ℕ)
    → str_eq id of ≡ false
    → lookup r (key_of of) ≡ none
    → lookup (Store.create_session of session ttl r).1 (key_of id) ≡ lookup r (key_of id)
create-apart r id of session ttl other missing =
    lookup-create r of session ttl (key_of id) missing ∙ rw (str_eq-key_of id of) (rw other refl)

pub hset-apart :
    (r : Redis) (id of : String) (fields h : Hash)
    → str_eq of id ≡ false
    → lookup r (key_of of) ≡ some h
    → lookup (hset (key_of of) fields r) (key_of id) ≡ lookup r (key_of id)
hset-apart r id of fields h other found =
    lookup-hset r (key_of of) (key_of id) fields h found
    ∙ rw (str_eq-key_of id of) (rw (str_eq_comm id of) (rw other refl))

pub publish-apart :
    (r : Redis) (id of message : String)
    → str_eq of id ≡ false
    → messages id (publish (channel_of of) message r).published ≡ messages id r.published
unfolding publish
publish-apart r id of message other =
    messages-append id r.published (channel_of of) message
    ∙ rw (str_eq-channel_of of id) (rw other (append-nil _))

-- A session starts: it is there and waits, unless its time is over at once.
pub record Starts (id : String) (w v : World) : Type 0 where
  pub is_first : is_new id w ≡ true
  pub not_again : is_new id v ≡ false
  pub waits_first : (h : Hash) → lookup v.redis (key_of id) ≡ some h → is_waiting h ≡ true
  pub same_messages : messages id v.redis.published ≡ messages id w.redis.published
  pub same_successes : successes id v.replies ≡ successes id w.replies

module _ (py : Python) (config : Config) where
  -- A session gets its verdict.
  pub record Settles (id : String) (w v : World) : Type 0 where
    pub passed : Bool
    pub p : Pending
    pub score : String
    pub reply : Reply
    pub judged : Scored py config id passed p score
    pub found : (h : Hash) × (lookup w.redis (key_of id) ≡ some h) × (is_waiting h ≡ true)
    pub left : (h : Hash) × (lookup v.redis (key_of id) ≡ some h) × (is_waiting h ≡ false)
    pub announced :
        messages id v.redis.published
        ≡ messages id w.redis.published ++ py.dumps (event py passed p score) ∷ []
    pub told_reply : Told py config passed p score reply
    pub one_reply : successes id v.replies ≡ successes id ((id, reply) ∷ w.replies)
    pub not_new : is_new id v ≡ is_new id w

  -- What a step does to one session.
  pub data Change (id : String) (w v : World) : Type 0 where
    quiet : Quiet id w v → Change id w v
    starts : Starts id w v → Change id w v
    settles : Settles id w v → Change id w v

module _ (py : Python) (config : Config) (p : Pending) (passed : Bool) (score : String) where
  -- What is found of the session after the verdict on it.
  pub found_decided :
      (r : Redis) (h : Hash)
      → lookup r (key_of p.session_id) ≡ some h
      → lookup (decide py config passed p score r) (key_of p.session_id)
        ≡ some (put_all (updates py passed p score) h)
  unfolding publish
  found_decided r h found =
      lookup-hset r (key_of p.session_id) (key_of p.session_id) (updates py passed p score) h found
      ∙ rw (eq_refl (key_of p.session_id)) refl

  pub decide-apart :
      (r : Redis) (id : String) (h : Hash)
      → str_eq p.session_id id ≡ false
      → lookup r (key_of p.session_id) ≡ some h
      → lookup (decide py config passed p score r) (key_of id) ≡ lookup r (key_of id)
  unfolding publish
  decide-apart r id h other found =
      hset-apart r id p.session_id (updates py passed p score) h other found
