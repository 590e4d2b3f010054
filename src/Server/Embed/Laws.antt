-- ===== src/Server/Embed/Laws.antt =====
-- app/services/embedding_client.py: what the loop of `embed` comes to.
use doppelganger_web.Prelude.{
  ℕ, zero, suc, ◌+◌, ◌≤◌, Bool, true, false, ◌≡◌, refl, ◌||◌, Option, none, ◌==◌, if◌then◌else◌,
  Bool-cases, inl, inr, arith,
}
use native.Mathlib.Nat.{add_assoc}
use native.Mathlib.Numerals.{add-one}
use doppelganger_web.Value.{Value}
use doppelganger_web.Server.Embed.{
  Posted, connection_error, timed_out, other_error, response, Service, Client, vector_of, again,
  return, round, attempts, embed,
}

-- The answers after which it is worth asking again: no connection, or a gateway that is waking up.
abbrev pub is_transient : Posted → Bool
is_transient connection_error = true
is_transient (response status body) = status == 502 || status == 504
is_transient p = false

abbrev pub embedding_in : Posted → Option Value
embedding_in (response status body) = if status == 200 then vector_of body else none
embedding_in p = none

-- The same with no loop: `tried busy transient` is one request, and a second one if the first has failed for
-- a while.
abbrev pub tried : Bool → Bool → Service → Client → Option Value × Client
tried true transient service c = (none, c)
tried false true service c =
    (embedding_in (service 2), record c { posts = c.posts + 2; sleeps = c.sleeps + 1 })
tried false false service c = (embedding_in (service 1), record c { posts = c.posts + 1 })

abbrev pub embed_once_more : Service → Client → Option Value × Client
embed_once_more service c = tried (c.slots == 0) (is_transient (service 1)) service c

round-last : (p : Posted) → round 2 p ≡ return (embedding_in p)
unfolding round
round-last connection_error = refl
round-last timed_out = refl
round-last other_error = refl
round-last (response status body) = ground arith

round-first : (p : Posted) → round 1 p ≡ (if is_transient p then again else return (embedding_in p))
unfolding round
round-first connection_error = refl
round-first timed_out = refl
round-first other_error = refl
round-first (response status body) = ground arith

attempts-tried :
    (service : Service) (c : Client)
    → attempts 2 1 service c ≡ tried false (is_transient (service 1)) service c
unfolding attempts
attempts-tried service c = elim (Bool-cases (is_transient (service 1))) [
  | inl transient ↦
      rw (attempts, round-first (service 1))
        (rw transient (rw (round-last (service 2)) (rw (add_assoc c.posts 1 1) refl)))
  | inr final ↦ rw (attempts, round-first (service 1)) (rw final refl)
]

-- A slot is taken for the requests, and given back.
abbrev taken : Client → Option Value × Client → Option Value × Client
taken c (v, after) = (v, record after { slots = after.slots + 1 })

taken-tried :
    (free posts sleeps : ℕ) (transient : Bool) (service : Service)
    → taken
        (record { slots = free; posts = posts; sleeps = sleeps })
        (tried false transient service (record { slots = free; posts = posts; sleeps = sleeps }))
      ≡ tried false transient service (record { slots = suc free; posts = posts; sleeps = sleeps })
taken-tried free posts sleeps true service = rw (add-one free) refl
taken-tried free posts sleeps false service = rw (add-one free) refl

has_slot : (free : ℕ) → (suc free == 0) ≡ false
has_slot free = ground arith

embed_at :
    (service : Service) (slots posts sleeps : ℕ)
    → embed service (record { slots = slots; posts = posts; sleeps = sleeps })
      ≡ embed_once_more service (record { slots = slots; posts = posts; sleeps = sleeps })
unfolding embed
embed_at service zero posts sleeps = refl
embed_at service (suc free) posts sleeps =
    rw
      (
        attempts-tried service (record { slots = free; posts = posts; sleeps = sleeps }),
        has_slot free,
      )
      (taken-tried free posts sleeps (is_transient (service 1)) service)

-- The loop with its retry gives what one request gives, or the second one where the first has failed for a
-- while; without a free slot it gives nothing and asks nothing. The slot is free again at the end.
pub embed-embed_once_more :
    (service : Service) (c : Client) → embed service c ≡ embed_once_more service c
embed-embed_once_more service c = embed_at service c.slots c.posts c.sleeps

-- Whatever the service answers, `embed` ends after at most two requests, and the worker has as many free slots
-- as before.
pub embed-IsBounded :
    (service : Service) (c : Client)
    → ((embed service c).1.posts ≤ c.posts + 2) × ((embed service c).1.slots ≡ c.slots)
embed-IsBounded service c =
    rw (embed-embed_once_more service c) (within (c.slots == 0) (is_transient (service 1)))
  where
    within :
        (busy transient : Bool)
        → ((tried busy transient service c).1.posts ≤ c.posts + 2)
          × ((tried busy transient service c).1.slots ≡ c.slots)
    within true transient = (omega arith, refl)
    within false true = (omega arith, refl)
    within false false = (omega arith, refl)
