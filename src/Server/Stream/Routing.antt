-- ===== src/Server/Stream/Routing.antt =====
-- app/services/event_hub.py: a message that is published for a session reaches the queues of that session.
use Prim.Native.String
use doppelganger_web.Prelude.{
  ◌+◌, ◌-◌, String, ◌≡◌, refl, ap, ◌∙◌, ◌&&◌, if◌then◌else◌, str_eq, arith,
}
use text.Mathlib.TextLemmas.{nil-append, cons-append}
use doppelganger_web.Server.Store.{channel_of}
use doppelganger_web.Server.Validate.{len}
use doppelganger_web.Server.Stream.{Stream, drop, take, session_of, deliver, put_nowait}

len-append : (s t : String) → len (String.◌++◌ s t) ≡ len s + len t
unfolding len
len-append String.[] t = rw (nil-append t) (omega arith)
len-append (String.◌∷◌ c s) t = rw (cons-append c s t) (omega (arith, len-append s t))

drop-append : (s t : String) → drop (len s) (String.◌++◌ s t) ≡ t
unfolding len
drop-append String.[] t = nil-append t
drop-append (String.◌∷◌ c s) t = rw (cons-append c s t) (drop-append s t)

take-append : (s t : String) → take (len s) (String.◌++◌ s t) ≡ s
unfolding len
take-append String.[] t = refl
take-append (String.◌∷◌ c s) t = rw (cons-append c s t) (rw (take-append s t) refl)

len-channel_of : (id : String) → len (channel_of id) - 7 - 8 ≡ len id
unfolding len
len-channel_of id =
    omega (arith, len-append "session:" (String.◌++◌ id ":events"), len-append id ":events")

-- The slice takes the session out of the name of its channel.
pub session_of-channel_of : (id : String) → session_of (channel_of id) ≡ id
unfolding len
session_of-channel_of id =
    rw (drop-append "session:" (String.◌++◌ id ":events"))
      (ap (λ n. take n (String.◌++◌ id ":events")) (len-channel_of id) ∙ take-append id ":events")

-- A message that is published for a session reaches the queues of that session, and no other.
pub deliver-channel_of :
    (id message : String) (s : Stream)
    → deliver (channel_of id) message s ≡ (
        if s.subscribed && str_eq s.session_id id
        then record s { queue = put_nowait message s.queue }
        else s)
unfolding deliver
deliver-channel_of id message s = rw (session_of-channel_of id) refl
