-- ===== src/Server/Stream/Ends.antt =====
-- app/routes/stream.py: a stream whose session is over comes to an end, and its last piece says how.
use mathlib.Core.List.{Memᴰ}
use doppelganger_web.Prelude.{
  ℕ, suc, ◌+◌, ◌≤◌, String, Bool, true, false, List, [], ◌∷◌, ◌≡◌, refl, Option, none, some, ltb,
  Bool-cases, inl, inr, arith, All,
}
use doppelganger_web.Exec.{ok}
use doppelganger_web.Server.{Python}
use doppelganger_web.Server.Stream.{
  Point, fresh, retry_sent, connected, looping, sent, final_sent, ended, Stream, sse, ends_stream,
  loop, resume,
}
use doppelganger_web.Server.Stream.Last.{
  Turn, waiting_in, is_early, is_late, IsOpen, turns_left, IsOver, deadline_of, queue_of, IsLast,
  rebuilt, out_of_time, delivered, IsLast-turn, IsLast-message, Tells, Tells-later,
}

abbrev add : Option String → List String → List String
add none pieces = pieces
add (some piece) pieces = piece ∷ pieces

abbrev pub size : List Turn → ℕ
size [] = 0
size (t ∷ ts) = suc (size ts)

module _ (py : Python) where
  abbrev pub next : Turn → Stream → Option String × Stream
  next t s = resume py t.link t.redis t.clock s

  -- The pieces that a stream gives in some turns.
  unfoldable pub run : List Turn → Stream → List String × Stream
  run [] s = ([], s)
  run (t ∷ ts) s = let (piece, u) = next t s in let (pieces, v) = run ts u in (add piece pieces, v)

  run-ended :
      (ts : List Turn) (s : Stream)
      → run ts (record s { point = ended }) ≡ ([], record s { point = ended })
  unfolding run resume
  run-ended [] s = refl
  run-ended (t ∷ ts) s = rw (run-ended ts s) refl

  abbrev then_run : Option String × Stream → List Turn → List String × Stream
  then_run (piece, u) ts = let (pieces, v) = run ts u in (add piece pieces, v)

  final-Tells :
      (Last : String → Type 0) (piece : String) (s : Stream) (t : Turn) (ts : List Turn)
      → Last piece
      → Tells Last (then_run (some piece, record s { point = final_sent }) (t ∷ ts))
  unfolding run resume
  final-Tells Last piece s t ts last =
      rw (run-ended ts (record s { subscribed = false; queue = [] })) (record {
        has_ended = refl;
        is_unsubscribed = refl;
        before = [];
        piece = piece;
        is_all = refl;
        is_last = last;
      })

  -- Once a message has been passed on.
  sent-Tells :
      (Last More : String → Type 0) (m : String) (s : Stream) (t : Turn) (ts : List Turn) (b : Bool)
      → ends_stream py m ≡ ok b
      → (ends_stream py m ≡ ok true → More (sse m))
      → (ends_stream py m ≡ ok false → (q : String) → Last q → More q)
      → Tells Last (then_run (loop py t.link t.redis t.clock (record s { point = sent m })) ts)
      → Tells More (then_run (some (sse m), record s { point = sent m }) (t ∷ ts))
  unfolding run resume
  sent-Tells Last More m s t ts true reads ends goes_on rest = rw reads (
      rw (run-ended ts (record s { subscribed = false; queue = [] })) (record {
        has_ended = refl;
        is_unsubscribed = refl;
        before = [];
        piece = sse m;
        is_all = refl;
        is_last = ends reads;
      }))
  sent-Tells Last More m s t ts false reads ends goes_on rest =
      rw reads (Tells-later Last More (sse m) _ (goes_on reads) rest)

  loop-Tells :
      (queue : List String) (s : Stream) (t : Turn) (ts : List Turn)
      → All (λ m. (b : Bool) × (ends_stream py m ≡ ok b)) queue
      → All (IsOver py s.session_id) (t ∷ ts)
      → suc (waiting_in queue) ≤ size ts
      → Tells
          (IsLast py s.session_id (some s.deadline) (t ∷ ts) queue)
          (then_run (loop py t.link t.redis t.clock (record s { queue = queue })) ts)
  unfolding loop
  loop-Tells [] s t [] readable over enough = absurd (omega arith)
  loop-Tells (m ∷ ms) s t [] readable over enough = absurd (omega arith)
  loop-Tells [] s t (t2 ∷ ts) readable over enough = elim (Bool-cases (ltb t.clock s.deadline)) [
    | inl early ↦
        let (event, gives) = over.0 in
        rw early (
          rw gives (
            final-Tells _ _ (record s { queue = [] }) t2 ts
              (rebuilt t event (Memᴰ.head refl) (is_early t s.deadline early) tt gives)))
    | inr late ↦ rw late (
        final-Tells _ _ (record s { queue = [] }) t2 ts
          (out_of_time t (Memᴰ.head refl) (is_late t s.deadline late)))
  ]
  loop-Tells (m ∷ ms) s t (t2 ∷ ts) readable over enough =
      elim (Bool-cases (ltb t.clock s.deadline)) [
        | inl early ↦
            let (b, reads) = readable.0 in
            rw early (
              sent-Tells _ _ m (record s { queue = ms }) t2 ts b reads
                (delivered m (Memᴰ.head refl))
                (λ reads q last.
                  IsLast-turn py s.session_id _ t (t2 ∷ ts) (m ∷ ms) q
                    (IsLast-message py s.session_id _ (t2 ∷ ts) m ms q reads last))
                (loop-Tells ms (record s { point = sent m; queue = ms }) t2 ts readable.1 over.1
                  (omega arith)))
        | inr late ↦ rw late (
            final-Tells _ _ (record s { queue = m ∷ ms }) t2 ts
              (out_of_time t (Memᴰ.head refl) (is_late t s.deadline late)))
      ]

  connected-Tells :
      (s : Stream) (t t2 : Turn) (ts : List Turn)
      → IsOver py s.session_id t
      → Tells
          (IsLast py s.session_id none (t ∷ t2 ∷ ts) [])
          (run (t ∷ t2 ∷ ts) (record s { point = connected }))
  unfolding run resume
  connected-Tells s t t2 ts (event, gives) =
      rw gives (final-Tells _ _ s t2 ts (rebuilt t event (Memᴰ.head refl) tt tt gives))

  looping_at :
      (s : Stream) (turns : List Turn)
      → All (λ m. (b : Bool) × (ends_stream py m ≡ ok b)) s.queue
      → All (IsOver py s.session_id) turns
      → waiting_in s.queue + 2 ≤ size turns
      → Tells
          (IsLast py s.session_id (some s.deadline) turns s.queue)
          (run turns (record s { point = looping }))
  unfolding run resume
  looping_at s [] readable over enough = absurd (omega arith)
  looping_at s (t ∷ ts) readable over enough =
      loop-Tells s.queue (record s { point = looping }) t ts readable over (omega arith)

  connected_at :
      (s : Stream) (turns : List Turn)
      → All (IsOver py s.session_id) turns
      → 2 ≤ size turns
      → Tells (IsLast py s.session_id none turns []) (run turns (record s { point = connected }))
  connected_at s [] over enough = absurd (omega arith)
  connected_at s (t ∷ []) over enough = absurd (omega arith)
  connected_at s (t ∷ t2 ∷ ts) over enough = connected-Tells s t t2 ts over.0

  retry_at :
      (s : Stream) (turns : List Turn)
      → All (IsOver py s.session_id) turns
      → 3 ≤ size turns
      → Tells (IsLast py s.session_id none turns []) (run turns (record s { point = retry_sent }))
  unfolding run resume
  retry_at s [] over enough = absurd (omega arith)
  retry_at s (t ∷ ts) over enough =
      Tells-later _ _ _ _ (IsLast-turn py s.session_id none t ts [])
        (connected_at s ts over.1 (omega arith))

  fresh_at :
      (s : Stream) (turns : List Turn)
      → All (IsOver py s.session_id) turns
      → 4 ≤ size turns
      → Tells (IsLast py s.session_id none turns []) (run turns (record s { point = fresh }))
  unfolding run resume
  fresh_at s [] over enough = absurd (omega arith)
  fresh_at s (t ∷ ts) over enough =
      Tells-later _ _ _ _ (IsLast-turn py s.session_id none t ts [])
        (retry_at (record s { queue = []; subscribed = true }) ts over.1 (omega arith))

  -- Let a stream not have given its last piece, the messages in its queue be JSON objects, and from now on Redis
  -- answer and the session be over, settled or gone. Then after as many turns as there are messages in
  -- the queue and two more, or four where it has just been opened, whatever the clock says, the stream has
  -- ended, the hub no longer knows its queue, and the last piece, after all others, is one of three: the
  -- event that `terminal_event` gives at one of the turns, which is before the deadline of a stream in its
  -- loop, and then no message of its queue ends the stream; an EXPIRED, only of a stream in its loop and at
  -- a turn past its deadline; or a message of the queue of a stream in its loop that ends the stream.
  pub run-Tells :
      (s : Stream) (turns : List Turn)
      → IsOpen s.point
      → All (λ m. (b : Bool) × (ends_stream py m ≡ ok b)) s.queue
      → All (IsOver py s.session_id) turns
      → turns_left s.point s.queue ≤ size turns
      → Tells
          (IsLast py s.session_id (deadline_of s.point s) turns (queue_of s.point s))
          (run turns s)
  run-Tells s turns = at_point s.point
    where
      at_point :
          (p : Point)
          → IsOpen p
          → All (λ m. (b : Bool) × (ends_stream py m ≡ ok b)) s.queue
          → All (IsOver py s.session_id) turns
          → turns_left p s.queue ≤ size turns
          → Tells
              (IsLast py s.session_id (deadline_of p s) turns (queue_of p s))
              (run turns (record s { point = p }))
      at_point fresh is_open readable over enough = fresh_at s turns over enough
      at_point retry_sent is_open readable over enough = retry_at s turns over enough
      at_point connected is_open readable over enough = connected_at s turns over enough
      at_point looping is_open readable over enough = looping_at s turns readable over enough
      at_point (sent m) is_open readable over enough = absurd is_open
      at_point final_sent is_open readable over enough = absurd is_open
      at_point ended is_open readable over enough = absurd is_open
