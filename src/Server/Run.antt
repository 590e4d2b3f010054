-- ===== src/Server/Run.antt =====
-- The server under app/ as it runs: which requests it can serve, in any order, and the worlds that can come
-- about. One call of Redis is one step; other steps come between the two halves of the verify route.
use doppelganger_web.Prelude.{
  ℕ, ◌+◌, String, Bool, true, not, List, [], ◌∷◌, ◌++◌, ◌≡◌, Option, none, any, str_eq,
}
use doppelganger_web.Exec.{Result, ok, throw}
use doppelganger_web.Value.{Value}
use doppelganger_web.Server.{Python, Config, Reply, error_reply}
use doppelganger_web.Server.Redis.{Hash, Redis, lookup, Link}
use doppelganger_web.Server.Store.{key_of, terminal_event}
use doppelganger_web.Server.Scoring.{Pending, Begun, replied, waits}
use doppelganger_web.Server.Session.{serve, create_session, get_session, delete_route}
use doppelganger_web.Server.Verify.{begin, finish}

-- A request to create a session, with the id that is drawn for it and what the embedding service gives for it.
pub record Request : Type 0 where
  pub session_id : String
  pub body : Value
  pub embedding : Option Value

-- `waiting` holds the verify requests that wait for the embedding of an answer. What the code does not keep
-- is recorded too: the replies of the verify route with the session they are about, the requests to create
-- a session, and what was found of each session right after it was created.
pub record World : Type 0 where
  pub redis : Redis
  pub waiting : List Pending
  pub replies : List (String × Reply)
  pub requests : List Request
  pub created : List (String × Option Hash)

abbrev pub start : World
start = record {
  redis = record { keys = λ k. none; now = 0; published = [] };
  waiting = [];
  replies = [];
  requests = [];
  created = [];
}

-- app/utils/session_id.py draws an id at random; two sessions never get the same.
abbrev pub is_new : String → World → Bool
is_new id w = not (any (λ s. str_eq id s.0) w.created)

abbrev pub begun : String → Result Begun → World → World
begun id (ok (replied reply)) w = record w { replies = (id, reply) ∷ w.replies }
begun id (ok (waits p)) w = record w { waiting = p ∷ w.waiting }
begun id (throw e) w = record w { replies = (id, error_reply e) ∷ w.replies }

unfoldable pub after_begin : Link → String → Value → World → World
unfolding begin
after_begin link id body w =
    let (result, r) = begin link id body w.redis in begun id result (record w { redis = r })

unfoldable pub after_read : Link → String → World → World
unfolding get_session serve
after_read link id w = record w { redis = (serve (get_session link id) w.redis).1 }

unfoldable pub after_delete : Link → String → World → World
unfolding delete_route serve
after_delete link id w = record w { redis = (serve (delete_route link id) w.redis).1 }

abbrev pub later : ℕ → World → World
later n w = record w { redis = record w.redis { now = w.redis.now + n } }

module _ (py : Python) (config : Config) where
  unfoldable pub after_create : Link → String → String → Option Value → Value → World → World
  unfolding create_session serve
  after_create link id created_at embedding body w =
      let r = (serve (create_session py config link id created_at embedding body) w.redis).1 in
      record w {
        redis = r;
        requests = record { session_id = id; body = body; embedding = embedding } ∷ w.requests;
        created = (id, lookup r (key_of id)) ∷ w.created;
      }

  -- `p` is one of those that wait, between the lists `before` and `after`.
  unfoldable pub after_finish :
      Link → List Pending → Pending → List Pending → Option Value → World → World
  unfolding finish serve
  after_finish link before p after embedding w =
      let (reply, r) = serve (finish py config link p embedding) w.redis in
      record w { redis = r; waiting = before ++ after; replies = (p.session_id, reply) ∷ w.replies }

  -- The stream of a session rebuilds its last event.
  unfoldable pub after_check : Link → String → World → World
  unfolding terminal_event
  after_check link id w = record w { redis = (terminal_event py link id w.redis).1 }

  pub data Step : World → World → Type 0 where
    creates :
        (w : World) (link : Link) (id created_at : String) (embedding : Option Value) (body : Value)
        → is_new id w ≡ true
        → Step w (after_create link id created_at embedding body w)
    begins :
        (w : World) (link : Link) (id : String) (body : Value) → Step w (after_begin link id body w)
    finishes :
        (w : World) (link : Link) (before : List Pending) (p : Pending) (after : List Pending)
        (embedding : Option Value)
        → w.waiting ≡ before ++ p ∷ after
        → Step w (after_finish link before p after embedding w)
    reads : (w : World) (link : Link) (id : String) → Step w (after_read link id w)
    deletes : (w : World) (link : Link) (id : String) → Step w (after_delete link id w)
    checks : (w : World) (link : Link) (id : String) → Step w (after_check link id w)
    passes : (w : World) (n : ℕ) → Step w (later n w)

  pub data Reach : World → Type 0 where
    started : Reach start
    stepped : (w v : World) → Reach w → Step w v → Reach v
