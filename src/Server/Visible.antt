-- ===== src/Server/Visible.antt =====
-- app/routes/session.py: what Bob sees of a session that Alice has created.
use doppelganger_web.Prelude.{
  ℕ, ◌+◌, String, true, [], ◌∷◌, ◌≡◌, refl, sym, ap, ◌∙◌, subst, Option, none, some, ltb, eq_refl,
  arith,
}
use mathlib.Core.Bool.{false≢true}
use doppelganger_web.Exec.{Result, ok, throw, lift, ◌>>=◌, and_then}
use doppelganger_web.Value.{Value, str, Fields, end, obj, object}
use doppelganger_web.Server.{Python, Config, Reply, fields_of}
use doppelganger_web.Server.Redis.{Hash, Redis, lookup, put_all, Link, up, call}
use doppelganger_web.Server.Store.{key_of, get, new_session}
use doppelganger_web.Server.Store
use doppelganger_web.Server.Scoring.{visible_body, at_key}
use doppelganger_web.Server.Session.{serve, create_session, get_session}
use doppelganger_web.Server.Validate.{text_at}
use doppelganger_web.Server.Starts.{
  is_created, IsPosted, Created, rejected, stored, create_session-Created,
}
use doppelganger_web.Server.Lookup.{lookup-create}

-- What `GET /api/session/<id>` answers for a session that was posted with the body `fs`.
pub record Shows (fs : Fields) (reply : Reply) : Type 0 where
  pub alice_name : String
  pub memory_question : String
  pub is_name : text_at "alice_name" fs ≡ ok alice_name
  pub is_question : text_at "memory_question" fs ≡ ok memory_question
  pub is_reply : reply ≡ record {
    status = 200;
    body = object (
        ("alice_name", str alice_name)
        ∷ ("memory_question", str memory_question)
        ∷ ("phase", str "WAITING_FOR_BOB")
        ∷ []);
  }

abbrev fields_in : Result Fields → Fields
fields_in (ok fs) = fs
fields_in (throw e) = end

pub same_fields : {fs gs : Fields} → fields_of (obj fs) ≡ ok gs → gs ≡ fs
same_fields h = ap fields_in (sym h)

module _ (py : Python) (config : Config) (id created_at : String) (embedding : Option Value)
    (fs : Fields) (lives : ltb 0 config.ttl ≡ true) where
  in_future : (now : ℕ) → ltb now (now + config.ttl) ≡ true
  in_future now = ground arith

  pub found_stored :
      (r : Redis) (session : Hash)
      → lookup r (key_of id) ≡ none
      → lookup (Store.create_session id session config.ttl r).1 (key_of id)
        ≡ some (put_all session [])
  found_stored r session missing =
      lookup-create r id session config.ttl (key_of id) missing
      ∙ rw (eq_refl (key_of id)) (rw (in_future r.now) refl)

  reply_stored :
      (session : Hash)
      → IsPosted py created_at embedding (obj fs) session
      → (r : Redis) → lookup r (key_of id) ≡ some (put_all session [])
      → Shows fs (serve (get_session up id) r).0
  unfolding serve get_session get call ◌>>=◌ and_then lift visible_body at_key
  reply_stored session posted r found = record {
    alice_name = posted.alice_name;
    memory_question = posted.memory_question;
    is_name =
        subst (λ gs. text_at "alice_name" gs ≡ ok posted.alice_name) (same_fields posted.is_body)
          posted.is_name;
    is_question =
        subst (λ gs. text_at "memory_question" gs ≡ ok posted.memory_question)
          (same_fields posted.is_body) posted.is_question;
    is_reply = rw found (rw posted.is_session refl);
  }

  -- Let no session be found under the id and sessions live for at least a second. If the request to create one
  -- gets 201, then a request to read it right after, with Redis up, gets 200 with the name and the question
  -- that were posted and the phase WAITING_FOR_BOB, and with nothing else.
  pub read-created :
      (link : Link) (r : Redis)
      → lookup r (key_of id) ≡ none
      → is_created (serve (create_session py config link id created_at embedding (obj fs)) r).0
        ≡ true
      → Shows fs
          (serve
            (get_session up id)
            (serve (create_session py config link id created_at embedding (obj fs)) r).1).0
  read-created link r missing success =
      shown_after r missing _ _
        (create_session-Created py config id created_at embedding (obj fs) r link) success
    where
      shown_after :
          (r : Redis)
          → lookup r (key_of id) ≡ none
          → (reply : Reply) (s : Redis)
          → Created py config id created_at embedding (obj fs) r reply s
          → is_created reply ≡ true
          → Shows fs (serve (get_session up id) s).0
      shown_after r missing _ _ (rejected reply refusing) success =
          absurd (false≢true (sym refusing ∙ success))
      shown_after r missing _ _ (stored reply session posted) success =
          reply_stored session posted _ (found_stored r session missing)
