-- ===== src/Server/Stream.antt =====
-- app/routes/stream.py and app/services/event_hub.py: the stream of a session's events. A stream is the generator
-- that serves it, with the queue that the hub has for it: `subscribed` says whether the hub knows the queue.
-- Flask resumes the generator whenever the last piece has been written; the clock is that of the loop's test.
pub mod Last
pub mod Ends
pub mod Routing
mod Tests
use Prim.Native.String
use doppelganger_web.Prelude.{
  ℕ, suc, zero, ◌+◌, ◌-◌, String, Bool, true, false, List, [], ◌∷◌, ◌++◌, map, ◌||◌, ◌&&◌, Option,
  none, some, ltb, if◌then◌else◌, str_eq,
}
use doppelganger_web.Text.{concat}
use doppelganger_web.Exec.{Result, ok, throw, Exec, lift, pure, ◌>>=◌}
use doppelganger_web.Exec.Fallible
use doppelganger_web.Value.{Value, str, Fields, obj, object, find, is_text}
use doppelganger_web.Server.{Python, fields_of}
use doppelganger_web.Server.Event.{expired_event}
use doppelganger_web.Server.Redis.{Redis, Link}
use doppelganger_web.Server.Store.{get_phase, terminal_event}
use doppelganger_web.Server.Validate.{len}

-- What the generator has yielded last: nothing, the retry line, CONNECTED, a keepalive, a message of the queue,
-- or the last event. Then it has ended.
pub data Point : Type 0 where
  fresh retry_sent connected looping : Point
  sent : String → Point
  final_sent ended : Point

pub record Stream : Type 0 where
  pub session_id : String
  pub phase : String
  pub point : Point
  pub deadline : ℕ
  pub queue : List String
  pub subscribed : Bool

-- _sse, for a text and for an event
abbrev pub sse : String → String
sse message = concat ("data: " ∷ message ∷ "\n\n" ∷ [])

abbrev pub count : List String → ℕ
count [] = 0
count (d ∷ ds) = suc (count ds)

-- put_nowait, where a full queue drops the message
unfoldable pub put_nowait : String → List String → List String
put_nowait message queue = if ltb (count queue) 10 then queue ++ message ∷ [] else queue

abbrev pub drop : ℕ → String → String
drop zero s = s
drop (suc n) String.[] = ""
drop (suc n) (String.◌∷◌ c s) = drop n s

abbrev pub take : ℕ → String → String
take zero s = ""
take (suc n) String.[] = ""
take (suc n) (String.◌∷◌ c s) = let rest = take n s in String.◌∷◌ c rest

-- channel[len(_PREFIX):-len(_SUFFIX)]
abbrev pub session_of : String → String
session_of channel = take (len channel - 7 - 8) (drop 8 channel)

-- The hub hands a message of a channel to the queues of its session.
unfoldable pub deliver : String → String → Stream → Stream
unfolding put_nowait
deliver channel message s =
    if s.subscribed && str_eq s.session_id (session_of channel)
    then record s { queue = put_nowait message s.queue }
    else s

-- unsubscribe, in the `finally` of the generator
abbrev pub unsubscribe : Stream → Option String × Stream
unsubscribe s = (none, record s { point = ended; subscribed = false; queue = [] })

-- json.loads(data).get("event") in TERMINAL_EVENTS
unfoldable pub ends_stream : Python → String → Result Bool
ends_stream py message = Fallible.◌>>=◌ (py.loads message) (λ v. Fallible.◌>>=◌ (fields_of v) (λ fs.
    let name = find "event" fs in
    ok (is_text "VERIFIED" name || (is_text "FAILED" name || is_text "EXPIRED" name))))

-- `final = store.terminal_event(...)`, and what follows where it is None
abbrev pub unless_final :
    Python → Stream → Result (Option Value) → Option String × Stream → Option String × Stream
unless_final py s (throw e) rest = unsubscribe s
unless_final py s (ok (some event)) rest =
    (some (sse (py.dumps event)), record s { point = final_sent })
unless_final py s (ok none) rest = rest

module _ (py : Python) (link : Link) (r : Redis) (clock : ℕ) where
  -- `q.get`: a message of the queue, or none after fifteen seconds
  abbrev pub received : Stream → List String → Option String × Stream
  received s (message ∷ rest) =
      (some (sse message), record s { point = sent message; queue = rest })
  received s [] =
      unless_final py s (terminal_event py link s.session_id r).0
        (some ": keepalive\n\n", record s { point = looping })

  unfoldable pub loop : Stream → Option String × Stream
  unfolding terminal_event
  loop s =
      if ltb clock s.deadline
      then received s s.queue
      else (some (sse (py.dumps expired_event)), record s { point = final_sent })

  abbrev pub after_message : Stream → Result Bool → Option String × Stream
  after_message s (throw e) = unsubscribe s
  after_message s (ok true) = unsubscribe s
  after_message s (ok false) = loop s

  abbrev pub resume_at : Point → Stream → Option String × Stream
  resume_at fresh s =
      (some "retry: 5000\n\n", record s { point = retry_sent; queue = []; subscribed = true })
  resume_at retry_sent s = (
    some (sse (py.dumps (obj (object (("event", str "CONNECTED") ∷ ("phase", str s.phase) ∷ []))))),
    record s { point = connected },
  )
  resume_at connected s =
      unless_final py s (terminal_event py link s.session_id r).0
        (loop (record s { deadline = clock + 900 }))
  resume_at looping s = loop s
  resume_at (sent message) s = after_message s (ends_stream py message)
  resume_at final_sent s = unsubscribe s
  resume_at ended s = (none, s)

  -- next(generator)
  unfoldable pub resume : Stream → Option String × Stream
  unfolding loop ends_stream terminal_event
  resume s = resume_at s.point s

-- GET /api/session/<session_id>/stream: the generator, or a 404.
abbrev pub stream_of : String → Option String → Option Stream
stream_of session_id none = none
stream_of session_id (some phase) = some (record {
  session_id = session_id;
  phase = phase;
  point = fresh;
  deadline = 0;
  queue = [];
  subscribed = false;
})

unfoldable pub event_stream : Link → String → Exec Redis (Option Stream)
unfolding get_phase
event_stream link session_id = do
  phase ← get_phase link session_id
  pure (stream_of session_id phase)
