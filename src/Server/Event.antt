-- ===== src/Server/Event.antt =====
-- app/services/session_store.py and app/routes/verify.py: the events that end a session, as they are
-- published and as `terminal_event` makes them again from the hash.
use doppelganger_web.Prelude.{String, [], ◌∷◌, Option, none, some, if◌then◌else◌, str_eq}
use doppelganger_web.Exec.{raised, Result, ok, throw}
use doppelganger_web.Exec.Fallible.{◌>>=◌}
use doppelganger_web.Value.{Value, null, str, num, obj, object}
use doppelganger_web.Server.{Python, percent_of}
use doppelganger_web.Server.Redis.{Hash, hget}

-- A value of HMGET, as JSON and as the argument of a function on strings.
abbrev pub or_null : Option String → Value
or_null none = null
or_null (some s) = str s

abbrev pub or_raise : Option String → Result String
or_raise none = throw (raised "TypeError")
or_raise (some s) = ok s

abbrev pub verified_event : Value → Value → String → Value
verified_event bob_name jwk score = obj (
    object (
      ("event", str "VERIFIED")
      ∷ ("bob_name", bob_name)
      ∷ ("bob_pubkey_jwk", jwk)
      ∷ ("score", num score)
      ∷ []))

abbrev pub failed_event : String → Value
failed_event score = obj (object (("event", str "FAILED") ∷ ("score", num score) ∷ []))

abbrev pub expired_event : Value
expired_event = obj (object (("event", str "EXPIRED") ∷ []))

module _ (py : Python) where
  -- round(float(score) * 100)
  unfoldable pub read_percent : Option String → Result String
  read_percent score = do text ← or_raise score; f ← py.float text; percent_of py f

  unfoldable pub verified_again : Hash → Result Value
  unfolding read_percent
  verified_again h = do
    text ← or_raise (hget "bob_pubkey_jwk" h)
    jwk ← py.loads text
    score ← read_percent (hget "similarity_score" h)
    ok (verified_event (or_null (hget "bob_name" h)) jwk score)

  unfoldable pub failed_again : Hash → Result Value
  unfolding read_percent
  failed_again h = do score ← read_percent (hget "similarity_score" h); ok (failed_event score)

  abbrev pub some_event : Result Value → Result (Option Value)
  some_event (ok v) = ok (some v)
  some_event (throw e) = throw e

  -- The event for what `hmget` has read of the key.
  unfoldable pub event_of : Option Hash → Result (Option Value)
  unfolding verified_again failed_again
  event_of none = ok (some expired_event)
  event_of (some h) = elim (hget "phase" h) [
    | none ↦ ok (some expired_event)
    | some phase ↦
        if str_eq phase "VERIFIED"
        then some_event (verified_again h)
        else if str_eq phase "FAILED"
        then some_event (failed_again h)
        else ok none
  ]
