-- ===== src/Server/Stream/Tests.antt =====
-- A stream that has a message in its queue when Bob has failed.
use doppelganger_web.Prelude.{ℕ, arith, true, [], ◌∷◌, ◌≡◌, refl, none, some}
use doppelganger_web.Exec.{ok, ◌>>=◌}
use doppelganger_web.Value.{str, obj, object}
use doppelganger_web.Server.{Python}
use doppelganger_web.Server.Event.{failed_event, event_of, failed_again, read_percent}
use doppelganger_web.Server.Redis.{Redis, up}
use doppelganger_web.Server.Store.{channel_of, terminal_event}
use doppelganger_web.Server.Tests.{plain_python}
use doppelganger_web.Server.Validate.{len}
use doppelganger_web.Server.Stream.{Stream, looping, deliver, ends_stream}
use doppelganger_web.Server.Stream.Last.{Turn, Tells, IsLast, IsOver}
use doppelganger_web.Server.Stream.Ends.{run, run-Tells}

abbrev python : Python
python = record plain_python {
  dumps = λ v. "{\"event\": \"FAILED\"}";
  loads = λ s. ok (obj (object (("event", str "FAILED") ∷ [])));
}

abbrev failed : Redis
failed = record {
  keys = λ k.
      some
        (record { hash = ("phase", "FAILED") ∷ ("similarity_score", "0.4") ∷ []; expires = none });
  now = 100;
  published = [];
}

abbrev open_stream : Stream
open_stream = record {
  session_id = "id";
  phase = "WAITING_FOR_BOB";
  point = looping;
  deadline = 900;
  queue = "{}" ∷ [];
  subscribed = true;
}

abbrev turn : ℕ → Turn
turn clock = record { clock = clock; link = up; redis = failed }

turn-IsOver : (clock : ℕ) → IsOver python "id" (turn clock)
unfolding terminal_event event_of failed_again read_percent ◌>>=◌
turn-IsOver clock = (failed_event "40", refl)

run-Tells_example :
    Tells
      (IsLast python "id" (some 900) (turn 10 ∷ turn 20 ∷ turn 30 ∷ []) ("{}" ∷ []))
      (run python (turn 10 ∷ turn 20 ∷ turn 30 ∷ []) open_stream)
unfolding ends_stream
run-Tells_example =
    run-Tells python open_stream (turn 10 ∷ turn 20 ∷ turn 30 ∷ []) tt ((true, refl), tt)
      (turn-IsOver 10, (turn-IsOver 20, (turn-IsOver 30, tt))) (omega arith)

-- The hub finds the session of a channel, and no other gets the message.
delivered_here :
    (deliver (channel_of "id") "{}" (record open_stream { queue = [] })).queue ≡ "{}" ∷ []
unfolding deliver len
delivered_here = refl

kept_away : (deliver (channel_of "other") "{}" (record open_stream { queue = [] })).queue ≡ []
unfolding deliver len
kept_away = refl
