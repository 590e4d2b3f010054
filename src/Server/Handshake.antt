-- ===== src/Server/Handshake.antt =====
-- The exchange from end to end: Alice's request to create a session, Bob's request to verify it, the reply that
-- Bob gets and the event that Alice gets (app/routes/session.py, app/routes/verify.py), and the keys that their
-- tabs take in (static/js/crypto.js).
mod Tests
use mathlib.Core.Bool.{false≢true}
use mathlib.Core.List.{Memᴰ}
use mathlib.Core.Option.{some_inj}
use doppelganger_web.Prelude.{
  String, Bool, true, false, List, [], ◌∷◌, ◌++◌, ◌≡◌, refl, sym, ap, ◌∙◌, subst, Option, none,
  some, ltb, str_eq,
}
use doppelganger_web.Exec.{Result, ok, throw}
use doppelganger_web.Value.{Value, null, str, num, obj, Fields, find, object}
use doppelganger_web.Crypto.{Key, KeyPair, import_public_key, derive_shared_key}
use doppelganger_web.Agreement.{KeyExchange, answer, imported, shared}
use doppelganger_web.Server.{Python, Config, Reply}
use doppelganger_web.Server.Redis.{Hash, hget, put_all, Redis, lookup, Link}
use doppelganger_web.Server.Store
use doppelganger_web.Server.Store.{key_of}
use doppelganger_web.Server.Event.{verified_event}
use doppelganger_web.Server.Scoring.{Pending}
use doppelganger_web.Server.Session.{serve, create_session}
use doppelganger_web.Server.Verify.{finish}
use doppelganger_web.Server.Effects.{is_success, announcement}
use doppelganger_web.Server.Starts.{
  is_created, IsPosted, Created, rejected, stored, create_session-Created,
}
use doppelganger_web.Server.Visible.{found_stored, same_fields}
use doppelganger_web.Server.Run.{World, is_new, Reach, Step, creates, stepped, after_create}
use doppelganger_web.Server.Once.{messages}
use doppelganger_web.Server.Once.Always.{reach-IsValid}
use doppelganger_web.Server.Origin.Fair.{IsFair, Reveals, passes, fails, finish-IsFair}
use doppelganger_web.Server.Unique.{IsUnique, reach-IsUnique, Steps, Steps-Reach, Steps-Mem}

-- The hash of a session that was posted holds the key of the body.
pub record HoldsKey (py : Python) (fs : Fields) (h : Hash) : Type 0 where
  pub holds : hget "alice_pubkey_jwk" h ≡ some (py.dumps (find "alice_pubkey_jwk" fs))

module _ (py : Python) (config : Config) (id created_at : String) (embedding : Option Value)
    (fs : Fields) (lives : ltb 0 config.ttl ≡ true) where
  posted-HoldsKey :
      (session : Hash)
      → IsPosted py created_at embedding (obj fs) session
      → HoldsKey py fs (put_all session [])
  posted-HoldsKey session posted = record {
    holds =
        rw posted.is_session
          (ap (λ gs. some (py.dumps (find "alice_pubkey_jwk" gs))) (same_fields posted.is_body));
  }

  created-HoldsKey :
      (r : Redis) (reply : Reply) (s : Redis)
      → lookup r (key_of id) ≡ none
      → Created py config id created_at embedding (obj fs) r reply s
      → is_created reply ≡ true
      → (h : Hash) × (lookup s (key_of id) ≡ some h) × HoldsKey py fs h
  created-HoldsKey r _ _ missing (rejected reply refusing) success =
      absurd (false≢true (sym refusing ∙ success))
  created-HoldsKey r _ _ missing (stored reply session posted) success = (
    put_all session [],
    found_stored py config id created_at embedding fs lives r session missing,
    posted-HoldsKey session posted,
  )

-- What Bob's tab reads of the reply, and what Alice's tab reads of the event.
abbrev pub alice_key_in : Reply → Value
alice_key_in reply = find "alice_pubkey_jwk" reply.body

abbrev value_of : Result Value → Value
value_of (ok v) = v
value_of (throw e) = null

value_in : {v u : Value} → ok v ≡ ok u → v ≡ u
value_in h = ap value_of h

module _ (py : Python) (config : Config) (x : KeyExchange) (a b : KeyPair)
    (is_a : x.is_pair a ≡ true) (is_b : x.is_pair b ≡ true)
    (reads_back : py.loads (py.dumps (x.export_jwk a.public_key))
      ≡ ok (x.export_jwk a.public_key)) where
  -- The verdict of a pass, with both keys where the other side takes them in.
  pub record Exchanged (id : String) (p : Pending) (reply : Reply) (s : Redis) : Type 0 where
    pub percent : String
    pub bob_takes : answer x (import_public_key (alice_key_in reply)) ≡ ok a.public_key
    pub alice_gets :
        messages id s.published
        ≡ py.dumps (verified_event p.bob_name (x.export_jwk b.public_key) percent) ∷ []
    pub alice_takes : answer x (import_public_key (x.export_jwk b.public_key)) ≡ ok b.public_key
    pub shared_key : Key
    pub alice_derives : answer x (derive_shared_key a.private_key b.public_key) ≡ ok shared_key
    pub bob_derives : answer x (derive_shared_key b.private_key a.public_key) ≡ ok shared_key

  module _ (fs : Fields) (is_posted : find "alice_pubkey_jwk" fs ≡ x.export_jwk a.public_key)
      (p : Pending) (is_bob : p.bob_jwk ≡ x.export_jwk b.public_key) where
    -- The key of the reply is the one that was posted.
    released :
        (first : Hash) (text : String) (jwk : Value)
        → HoldsKey py fs first
        → hget "alice_pubkey_jwk" first ≡ some text
        → py.loads text ≡ ok jwk
        → jwk ≡ x.export_jwk a.public_key
    released first text jwk holding stored_as read_as = value_in (
        sym read_as
        ∙ ap py.loads (some_inj.0 (sym stored_as ∙ holding.holds) ∙ ap py.dumps is_posted)
        ∙ reads_back)

    Reveals-Exchanged :
        (first : Hash) (text score : String) (reply : Reply) (s : Redis)
        → HoldsKey py fs first
        → hget "alice_pubkey_jwk" first ≡ some text
        → Reveals py config text score reply
        → find "result" reply.body ≡ str "PASS"
        → messages p.session_id s.published
          ≡ py.dumps (announcement (py.at_least score config.threshold) p (py.percent score)) ∷ []
        → Exchanged p.session_id p reply s
    Reveals-Exchanged first text score _ s holding stored_as (passes jwk passed read_as) pass
          announced =
        let (k, by_alice, by_bob) = shared x a b is_a is_b in
        record {
          percent = py.percent score;
          bob_takes =
              rw (released first text jwk holding stored_as read_as) (imported x b a is_b is_a);
          alice_gets = announced ∙ rw passed (rw is_bob refl);
          alice_takes = imported x a b is_a is_b;
          shared_key = k;
          alice_derives = by_alice;
          bob_derives = by_bob;
        }
    Reveals-Exchanged first text score _ s holding stored_as (fails passed) pass announced =
        absurd (subst IsFail pass tt)
      where
        IsFail : Value → Type 0
        IsFail (str s) = elim (str_eq s "FAIL") [ true ↦ Unit | false ↦ ⊥ ]
        IsFail v = ⊥

  -- Let `a` and `b` be key pairs of a browser that keeps the laws of the key exchange, and let json read Alice's
  -- exported key back. Let Alice's request with that key create a session, in any world of the server and
  -- under a new id, and let any steps follow. If a request to verify that session with Bob's exported key
  -- then ends with a PASS, Bob's tab takes in Alice's public key from the reply, the one message on the
  -- channel of the session is a VERIFIED event with Bob's key, which Alice's tab takes in, and both
  -- derive the same key.
  pub finish-Exchanged :
      (w v : World) (created_at : String) (given embedding : Option Value) (fs : Fields)
      (create_link link : Link) (before after : List Pending) (p : Pending)
      → ltb 0 config.ttl ≡ true
      → find "alice_pubkey_jwk" fs ≡ x.export_jwk a.public_key
      → p.bob_jwk ≡ x.export_jwk b.public_key
      → Reach py config w
      → is_new p.session_id w ≡ true
      → is_created
          (serve
            (create_session py config create_link p.session_id created_at given (obj fs))
            w.redis).0
        ≡ true
      → Steps py config
          (after_create py config create_link p.session_id created_at given (obj fs) w)
          v
      → v.waiting ≡ before ++ p ∷ after
      → let end = serve (finish py config link p embedding) v.redis in
        is_success end.0 ≡ true
        → find "result" end.0.body ≡ str "PASS"
        → Exchanged p.session_id p end.0 end.1
  unfolding after_create
  finish-Exchanged w v created_at given embedding fs create_link link before after p lives is_posted
        is_bob reach new created steps there success pass =
      let first_step : Step py config w
          (after_create py config create_link p.session_id created_at given (obj fs) w) =
        creates w create_link p.session_id created_at given (obj fs) new in
      let reach_v = Steps-Reach py config _ v (stepped w _ reach first_step) steps in
      let fair = finish-IsFair py config v before after p link embedding reach_v there success in
      let (first, found, holding) =
        created-HoldsKey py config p.session_id created_at given fs lives w.redis _ _
          ((reach-IsValid py config w reach p.session_id).new new).0
          (create_session-Created py config p.session_id created_at given (obj fs) w.redis
            create_link)
          created in
      let same : some fair.created_as ≡ some first =
        reach-IsUnique py config v reach_v p.session_id _ _ fair.is_created (
          Steps-Mem py config _ v (p.session_id, some first) steps
            (Memᴰ.head (λ i. (p.session_id, sym found i)))) in
      Reveals-Exchanged fs is_posted p is_bob fair.created_as _ fair.score _ _
        (subst (HoldsKey py fs) (sym (some_inj.0 same)) holding) fair.posted.keeps_key fair.reveals
        pass fair.announced
