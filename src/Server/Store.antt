-- ===== src/Server/Store.antt =====
-- app/services/session_store.py: the sessions, each a hash of Redis with a time to live.
use Prim.Native.String
use doppelganger_web.Prelude.{
  ℕ, String, Bool, false, [], ◌∷◌, Option, none, some, if◌then◌else◌, str_eq,
}
use doppelganger_web.Exec.{Exec, lift, ◌>>=◌}
use doppelganger_web.Value.{Value}
use doppelganger_web.Server.{Python}
use doppelganger_web.Server.Event.{event_of}
use doppelganger_web.Server.Redis.{
  Hash, hget, Redis, lookup, hset, expire, publish, delete, Link, call,
}

abbrev pub key_of : String → String
key_of session_id = String.◌++◌ "session:" session_id

abbrev pub channel_of : String → String
channel_of session_id = String.◌++◌ "session:" (String.◌++◌ session_id ":events")

-- The hash of a new session; `created_at` is the text of the time.
abbrev pub new_session : Python → String → String → Value → Value → String → Hash
new_session py alice_name memory_question embedding jwk created_at =
    ("phase", "WAITING_FOR_BOB")
    ∷ ("alice_name", alice_name)
    ∷ ("memory_question", memory_question)
    ∷ ("answer_embedding", py.dumps embedding)
    ∷ ("alice_pubkey_jwk", py.dumps jwk)
    ∷ ("bob_name", "")
    ∷ ("bob_pubkey_jwk", "")
    ∷ ("similarity_score", "")
    ∷ ("created_at", created_at)
    ∷ []

-- The pipeline of `create`, one transaction.
unfoldable pub create_session : String → Hash → ℕ → Redis → Unit {0} × Redis
unfolding hset expire
create_session session_id session ttl r =
    (tt, expire (key_of session_id) ttl (hset (key_of session_id) session r))

unfoldable pub create : Link → String → Hash → ℕ → Exec Redis Unit
unfolding call create_session
create link session_id session ttl = call link (create_session session_id session ttl)

unfoldable pub get : Link → String → Exec Redis (Option Hash)
unfolding call
get link session_id = call link (λ r. (lookup r (key_of session_id), r))

abbrev pub field_of : String → Option Hash → Option String
field_of k none = none
field_of k (some h) = hget k h

unfoldable pub get_phase : Link → String → Exec Redis (Option String)
unfolding call
get_phase link session_id = call link (λ r. (field_of "phase" (lookup r (key_of session_id)), r))

-- The results -1, 0 and 1 of the script.
pub data Outcome : Type 0 where
  gone completed won : Outcome

abbrev pub has_phase : String → Option String → Bool
has_phase phase none = false
has_phase phase (some s) = str_eq s phase

unfoldable pub finalize_found :
    String → String → String → Hash → Option Hash → Redis → Outcome × Redis
unfolding hset publish
finalize_found key channel message updates none r = (gone, r)
finalize_found key channel message updates (some h) r =
    if has_phase "WAITING_FOR_BOB" (hget "phase" h)
    then (won, publish channel message (hset key updates r))
    else (completed, r)

-- _FINALIZE_LUA
unfoldable pub finalize_script : String → String → String → Hash → Redis → Outcome × Redis
unfolding finalize_found
finalize_script key channel message updates r =
    finalize_found key channel message updates (lookup r key) r

unfoldable pub finalize : Python → Link → String → Hash → Value → Exec Redis Outcome
unfolding call finalize_script
finalize py link session_id updates event =
    call link (finalize_script (key_of session_id) (channel_of session_id) (py.dumps event) updates)

unfoldable pub terminal_event : Python → Link → String → Exec Redis (Option Value)
unfolding call event_of
terminal_event py link session_id = do
  found ← call link (λ r. (lookup r (key_of session_id), r))
  lift (event_of py found)

unfoldable pub delete_session : Link → String → Exec Redis Unit
unfolding call delete
delete_session link session_id = call link (λ r. (tt, delete (key_of session_id) r))
