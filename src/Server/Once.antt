-- ===== src/Server/Once.antt =====
-- app/services/session_store.py and app/routes/verify.py: the verdict on a session, as it is announced to Alice
-- and told to Bob.
pub mod Steps
pub mod Changes
pub mod Always
use doppelganger_web.Prelude.{
  ℕ, ◌+◌, String, Bool, true, false, not, ◌||◌, ◌&&◌, List, [], ◌∷◌, ◌++◌, ◌≡◌, refl, sym, ap, ◌∙◌,
  Option, none, some, any, str_eq, if◌then◌else◌, Bool-cases, inl, inr, arith, eq_iff,
}
use doppelganger_web.Exec.{ok}
use doppelganger_web.Value.{Value, find, str, num}
use doppelganger_web.Server.{Python, Config, Reply}
use doppelganger_web.Server.Redis.{Hash, Redis, lookup}
use doppelganger_web.Server.Store.{key_of, channel_of}
use doppelganger_web.Server.Scoring.{Pending, score_of}
use doppelganger_web.Server.Effects.{is_waiting, is_success, announcement}
use doppelganger_web.Server.Run.{World, is_new}

-- What has been published on the channel of a session.
abbrev pub messages : String → List (String × String) → List String
messages id [] = []
messages id ((channel, message) ∷ rest) =
    if str_eq channel (channel_of id) then message ∷ messages id rest else messages id rest

-- The replies with success to the requests to verify a session.
abbrev pub successes : String → List (String × Reply) → List Reply
successes id [] = []
successes id ((of, reply) ∷ rest) =
    if str_eq of id && is_success reply then reply ∷ successes id rest else successes id rest

-- The reply says the verdict and the percentage of the score.
abbrev pub Tells : Python → Bool → String → Reply → Type 0
Tells py passed score reply =
    (find "result" reply.body ≡ str (if passed then "PASS" else "FAIL"))
    × (find "score" reply.body ≡ num (py.percent score))

module _ (py : Python) (config : Config) where
  -- `p` has got its score, and the score the verdict `passed`.
  pub record Scored (id : String) (passed : Bool) (p : Pending) (score : String) : Type 0 where
    pub about : p.session_id ≡ id
    pub embedding : Value
    pub scored : score_of py p embedding ≡ ok score
    pub judged : py.at_least score config.threshold ≡ passed

  -- What is published about a session, beside what the route has replied with success. The event is spelled
  -- out in `announcement`.
  pub data Verdict (id : String) : List String → List Reply → Type 0 where
    not_yet : Verdict id [] []
    unheard :
        (passed : Bool) (p : Pending) (score : String)
        → Scored id passed p score
        → Verdict id (py.dumps (announcement passed p (py.percent score)) ∷ []) []
    heard :
        (passed : Bool) (p : Pending) (score : String) (reply : Reply)
        → Scored id passed p score
        → Tells py passed score reply
        → Verdict id (py.dumps (announcement passed p (py.percent score)) ∷ []) (reply ∷ [])

  pub silent :
      (id : String) (ms : List String) (rs : List Reply) → Verdict id ms rs → ms ≡ [] → rs ≡ []
  silent id ms rs not_yet h = refl
  silent id ms rs (unheard passed p score s) h = refl
  silent id ms rs (heard passed p score reply s told) h = ground arith

  -- The state of one session in a world.
  pub record IsValid (id : String) (w : World) : Type 0 where
    pub new :
        is_new id w ≡ true
        → (lookup w.redis (key_of id) ≡ none) × (messages id w.redis.published ≡ [])
    pub undecided :
        (h : Hash)
        → lookup w.redis (key_of id) ≡ some h
        → is_waiting h ≡ true
        → messages id w.redis.published ≡ []
    pub verdict : Verdict id (messages id w.redis.published) (successes id w.replies)

-- A step that is about other sessions, or at most ends this one.
pub record Quiet (id : String) (w v : World) : Type 0 where
  pub no_more :
      (h : Hash) → lookup v.redis (key_of id) ≡ some h → lookup w.redis (key_of id) ≡ some h
  pub same_messages : messages id v.redis.published ≡ messages id w.redis.published
  pub same_successes : successes id v.replies ≡ successes id w.replies
  pub was_new : is_new id v ≡ true → is_new id w ≡ true

still_none : (a b : Option Hash) → ((h : Hash) → b ≡ some h → a ≡ some h) → a ≡ none → b ≡ none
still_none a none f h = refl
still_none a (some g) f h = sym (f g refl) ∙ h

module _ (py : Python) (config : Config) (id : String) where
  pub Quiet-IsValid : (w v : World) → Quiet id w v → IsValid py config id w → IsValid py config id v
  Quiet-IsValid w v q h = record {
    new = λ is. (
      still_none _ _ q.no_more (h.new (q.was_new is)).0,
      q.same_messages ∙ (h.new (q.was_new is)).1,
    );
    undecided = λ g found waits. q.same_messages ∙ h.undecided g (q.no_more g found) waits;
    verdict = rw q.same_messages (rw q.same_successes h.verdict);
  }
