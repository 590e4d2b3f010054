-- ===== src/Server/Stream/Last.antt =====
-- app/routes/stream.py: what the last piece of a stream tells of how its session has ended.
use mathlib.Core.List.{Memᴰ}
use doppelganger_web.Prelude.{
  ℕ, suc, ◌+◌, ◌≤◌, ◌<◌, String, true, false, List, [], ◌∷◌, ◌++◌, ◌≡◌, ap, Option, none, some, ltb,
  arith, All,
}
use doppelganger_web.Exec.{ok}
use doppelganger_web.Value.{Value, str, obj, object}
use doppelganger_web.Server.{Python}
use doppelganger_web.Server.Redis.{Redis, Link}
use doppelganger_web.Server.Store.{terminal_event}
use doppelganger_web.Server.Stream.{
  Point, fresh, retry_sent, connected, looping, sent, final_sent, ended, Stream, sse, ends_stream,
}

-- What the generator meets when it is resumed.
pub record Turn : Type 0 where
  pub clock : ℕ
  pub link : Link
  pub redis : Redis

pub is_early : (t : Turn) (deadline : ℕ) → ltb t.clock deadline ≡ true → t.clock < deadline
is_early t deadline h = ground arith

pub is_late : (t : Turn) (deadline : ℕ) → ltb t.clock deadline ≡ false → deadline ≤ t.clock
is_late t deadline h = ground arith

abbrev pub waiting_in : List String → ℕ
waiting_in [] = 0
waiting_in (m ∷ ms) = suc (waiting_in ms)

-- The points at which no last piece has been given, and the turns that are left then.
abbrev pub IsOpen : Point → Type 0
IsOpen (sent m) = ⊥
IsOpen final_sent = ⊥
IsOpen ended = ⊥
IsOpen p = Unit

abbrev pub turns_left : Point → List String → ℕ
turns_left fresh queue = 4
turns_left retry_sent queue = 3
turns_left connected queue = 2
turns_left p queue = waiting_in queue + 2

-- A stream that is in its loop has a deadline and the messages of its queue; before that it has neither.
abbrev pub deadline_of : Point → Stream → Option ℕ
deadline_of looping s = some s.deadline
deadline_of p s = none

abbrev pub queue_of : Point → Stream → List String
queue_of looping s = s.queue
queue_of p s = []

abbrev pub IsEarly : Option ℕ → Turn → Type 0
IsEarly none t = Unit
IsEarly (some deadline) t = t.clock < deadline

abbrev pub IsLate : Option ℕ → Turn → Type 0
IsLate none t = ⊥
IsLate (some deadline) t = deadline ≤ t.clock

pub record Tells (Last : String → Type 0) (run_end : List String × Stream) : Type 0 where
  pub has_ended : run_end.1.point ≡ ended
  pub is_unsubscribed : run_end.1.subscribed ≡ false
  pub before : List String
  pub piece : String
  pub is_all : run_end.0 ≡ before ++ piece ∷ []
  pub is_last : Last piece

pub Tells-later :
    (Last More : String → Type 0) (piece : String) (u : List String × Stream)
    → ((q : String) → Last q → More q)
    → Tells Last u
    → Tells More (piece ∷ u.0, u.1)
Tells-later Last More piece u f h = record {
  has_ended = h.has_ended;
  is_unsubscribed = h.is_unsubscribed;
  before = piece ∷ h.before;
  piece = h.piece;
  is_all = ap (λ ps. piece ∷ ps) h.is_all;
  is_last = f h.piece h.is_last;
}

module _ (py : Python) where
  -- The session is over: there is a last event to rebuild, and Redis gives what is asked.
  abbrev pub IsOver : String → Turn → Type 0
  IsOver id t = (event : Value) × ((terminal_event py t.link id t.redis).0 ≡ ok (some event))

  -- The last piece and what it tells: the event that is rebuilt at one of the turns, not past the deadline and
  -- with no message in the queue that ends the stream; an EXPIRED at a turn past the deadline; or a message
  -- of the queue that ends the stream.
  pub data IsLast (id : String) (deadline : Option ℕ) (turns : List Turn) (queue : List String)
      : String → Type 0 where
    rebuilt :
        (t : Turn) (event : Value)
        → Memᴰ t turns
        → IsEarly deadline t
        → All (λ m. ends_stream py m ≡ ok false) queue
        → (terminal_event py t.link id t.redis).0 ≡ ok (some event)
        → IsLast id deadline turns queue (sse (py.dumps event))
    out_of_time :
        (t : Turn)
        → Memᴰ t turns
        → IsLate deadline t
        → IsLast id deadline turns queue
            (sse (py.dumps (obj (object (("event", str "EXPIRED") ∷ [])))))
    delivered :
        (message : String)
        → Memᴰ message queue
        → ends_stream py message ≡ ok true
        → IsLast id deadline turns queue (sse message)

  -- One turn more, and one message more that does not end the stream.
  pub IsLast-turn :
      (id : String) (deadline : Option ℕ) (t : Turn) (turns : List Turn) (queue : List String)
      (piece : String)
      → IsLast id deadline turns queue piece
      → IsLast id deadline (t ∷ turns) queue piece
  IsLast-turn id deadline t turns queue _ (rebuilt u event among early none_ends gives) =
      rebuilt u event (Memᴰ.tail among) early none_ends gives
  IsLast-turn id deadline t turns queue _ (out_of_time u among late) =
      out_of_time u (Memᴰ.tail among) late
  IsLast-turn id deadline t turns queue _ (delivered message among ends) =
      delivered message among ends

  pub IsLast-message :
      (id : String) (deadline : Option ℕ) (turns : List Turn) (m : String) (queue : List String)
      (piece : String)
      → ends_stream py m ≡ ok false
      → IsLast id deadline turns queue piece
      → IsLast id deadline turns (m ∷ queue) piece
  IsLast-message id deadline turns m queue _ reads (rebuilt u event among early none_ends gives) =
      rebuilt u event among early (reads, none_ends) gives
  IsLast-message id deadline turns m queue _ reads (out_of_time u among late) =
      out_of_time u among late
  IsLast-message id deadline turns m queue _ reads (delivered message among ends) =
      delivered message (Memᴰ.tail among) ends
