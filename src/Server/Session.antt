-- ===== src/Server/Session.antt =====
-- app/routes/session.py: the routes that create, read and delete a session. `embedding` is what
-- `EmbeddingClient.embed` has given for the text.
use doppelganger_web.Prelude.{ℕ, String, true, [], ◌∷◌, Option, none, some}
use doppelganger_web.Text.{concat, decimal}
use doppelganger_web.Exec.{Result, ok, throw, Exec, lift, pure, ◌>>=◌, ◌>>◌}
use doppelganger_web.Value.{Value, bool, num, str, arr, Items, Fields, find, object}
use doppelganger_web.Server.{Python, Config, Reply, refusal, fields_of, error_reply}
use doppelganger_web.Server.Redis.{Hash, Redis, Link}
use doppelganger_web.Server.Scoring.{preview_of, dimensions_of, visible_body}
use doppelganger_web.Server.Store.{new_session, create, get, delete_session}
use doppelganger_web.Server.Validate.{text_at, validate_session_create}

-- A route, with the error handlers around it.
abbrev pub answered : Result Reply → Reply
answered (ok reply) = reply
answered (throw e) = error_reply e

unfoldable pub serve : Exec Redis Reply → Redis → Reply × Redis
unfolding error_reply
serve route r = let (a, s) = route r in (answered a, s)

module _ (py : Python) where
  abbrev pub link_of : Config → String → String
  link_of config session_id = concat (config.base_url ∷ "/verify/s/" ∷ session_id ∷ [])

  abbrev pub created_body : String → String → String → Items → ℕ → Fields
  created_body session_id link qr_code preview dimensions = object (
      ("session_id", str session_id)
      ∷ ("link", str link)
      ∷ ("qr_code", str qr_code)
      ∷ ("vector_preview", arr preview)
      ∷ ("vector_dimensions", num (decimal dimensions))
      ∷ [])

  -- Once the body is valid and the embedding is there.
  unfoldable pub store_session : Config → Link → String → String → Value → Fields → Exec Redis Reply
  unfolding preview_of dimensions_of text_at create
  store_session config link session_id created_at embedding fs = do
    alice_name ← lift (text_at "alice_name" fs)
    memory_question ← lift (text_at "memory_question" fs)
    create link session_id
        (new_session py alice_name memory_question embedding (find "alice_pubkey_jwk" fs)
          created_at)
        config.ttl
    qr_code ← lift (py.qr_code (link_of config session_id))
    preview ← lift (preview_of py embedding)
    pure (record {
      status = 201;
      body =
          created_body session_id (link_of config session_id) qr_code preview
            (dimensions_of embedding);
    })

  abbrev pub create_valid :
      Config → Link → String → String → Option Value → Fields → Exec Redis Reply
  create_valid config link session_id created_at none fs =
      pure (refusal "Embedding service unavailable" 503)
  create_valid config link session_id created_at (some embedding) fs =
      store_session config link session_id created_at embedding fs

  abbrev pub create_checked :
      Config → Link → String → String → Option Value → Value → Option String → Exec Redis Reply
  create_checked config link session_id created_at embedding body (some error) =
      pure (refusal error 400)
  create_checked config link session_id created_at embedding body none = do
    fs ← lift (fields_of body)
    create_valid config link session_id created_at embedding fs

  -- POST /api/session
  unfoldable pub create_session :
      Config → Link → String → String → Option Value → Value → Exec Redis Reply
  unfolding store_session validate_session_create
  create_session config link session_id created_at embedding body = do
    error ← lift (validate_session_create body)
    create_checked config link session_id created_at embedding body error

abbrev pub read_reply : Option Hash → Result Reply
read_reply none = ok (refusal "Session not found or expired" 404)
read_reply (some h) = elim (visible_body h) [
  | ok body ↦ ok (record { status = 200; body = body })
  | throw e ↦ throw e
]

-- GET /api/session/<session_id>
unfoldable pub get_session : Link → String → Exec Redis Reply
unfolding get visible_body
get_session link session_id = do found ← get link session_id; lift (read_reply found)

-- DELETE /api/session/<session_id>
unfoldable pub delete_route : Link → String → Exec Redis Reply
unfolding delete_session
delete_route link session_id = do
  delete_session link session_id
  pure (record { status = 200; body = object (("deleted", bool true) ∷ []) })
