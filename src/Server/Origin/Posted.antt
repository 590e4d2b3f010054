-- ===== src/Server/Origin/Posted.antt =====
-- app/routes/session.py: in every world of the server, a session was created as its request asked for.
use mathlib.Core.List.{Memᴰ}
use doppelganger_web.Prelude.{
  String, true, false, List, [], ◌∷◌, ◌≡◌, refl, sym, ap, subst, Option, none, some, All, ltb,
  if◌then◌else◌, eq_refl, ◌+◌, Bool,
}
use doppelganger_web.Exec.{Result, ok, throw}
use doppelganger_web.Value.{Value, undefined, null, bool, num, str, arr, obj, Fields, find}
use doppelganger_web.Server.{Python, Config, Reply, fields_of}
use doppelganger_web.Server.Redis.{Hash, hget, put_all, Redis, lookup}
use doppelganger_web.Server.Store.{key_of}
use doppelganger_web.Server.Scoring.{Begun, replied, waits}
use doppelganger_web.Server.Verify.{begin}
use doppelganger_web.Server.Starts.{IsPosted, Created, rejected, stored, create_session-Created}
use doppelganger_web.Server.Visible.{same_fields}
use doppelganger_web.Server.Lookup.{lookup-create}
use doppelganger_web.Server.Once.{IsValid}
use doppelganger_web.Server.Once.Always.{reach-IsValid}
use doppelganger_web.Server.Run.{
  World, Request, begun, Step, creates, begins, finishes, reads, deletes, checks, passes, Reach,
  started, stepped, after_create, after_begin, after_finish, after_read, after_delete, after_check,
}

is_object : (body : Value) (fs : Fields) → fields_of body ≡ ok fs → body ≡ obj fs
is_object (obj gs) fs h = ap obj (sym (same_fields h))
is_object undefined fs h = cc
is_object null fs h = cc
is_object (bool b) fs h = cc
is_object (num n) fs h = cc
is_object (str t) fs h = cc
is_object (arr xs) fs h = cc

module _ (py : Python) where
  -- A request to create the session is among `requests`, and the hash keeps the embedding of its answer and the
  -- key of its body.
  pub record ComesFrom (requests : List Request) (id : String) (h : Hash) : Type 0 where
    pub body : Fields
    pub vector : Value
    pub is_request :
        Memᴰ (record { session_id = id; body = obj body; embedding = some vector }) requests
    pub keeps_embedding : hget "answer_embedding" h ≡ some (py.dumps vector)
    pub keeps_key : hget "alice_pubkey_jwk" h ≡ some (py.dumps (find "alice_pubkey_jwk" body))

  abbrev Comes : List Request → String × Option Hash → Type 0
  Comes requests (id, none) = Unit
  Comes requests (id, some h) = ComesFrom requests id h

  grown :
      (requests : List Request) (q : Request) (created : List (String × Option Hash))
      → All (Comes requests) created
      → All (Comes (q ∷ requests)) created
  grown requests q [] h = tt
  grown requests q ((id, none) ∷ rest) h = (tt, grown requests q rest h.1)
  grown requests q ((id, some g) ∷ rest) h = (
    record {
      body = h.0.body;
      vector = h.0.vector;
      is_request = Memᴰ.tail h.0.is_request;
      keeps_embedding = h.0.keeps_embedding;
      keeps_key = h.0.keeps_key;
    },
    grown requests q rest h.1,
  )

  posted-ComesFrom :
      (id created_at : String) (embedding : Option Value) (body : Value) (session : Hash)
      (requests : List Request)
      → IsPosted py created_at embedding body session
      → ComesFrom
          (record { session_id = id; body = body; embedding = embedding } ∷ requests)
          id
          (put_all session [])
  posted-ComesFrom id created_at embedding body session requests posted = record {
    body = posted.fields;
    vector = posted.vector;
    is_request =
        rw (is_object body posted.fields posted.is_body) (rw posted.is_embedding (Memᴰ.head refl));
    keeps_embedding = rw posted.is_session refl;
    keeps_key = rw posted.is_session refl;
  }

  if-Comes :
      (requests : List Request) (id : String) (b : Bool) (h : Hash)
      → ComesFrom requests id h
      → Comes requests (id, if b then some h else none)
  if-Comes requests id true h comes = comes
  if-Comes requests id false h comes = tt

  created-Comes :
      (config : Config) (w : World) (id created_at : String) (embedding : Option Value)
      (body : Value)
      → lookup w.redis (key_of id) ≡ none
      → (reply : Reply) (s : Redis) → Created py config id created_at embedding body w.redis reply s
      → Comes
          (record { session_id = id; body = body; embedding = embedding } ∷ w.requests)
          (id, lookup s (key_of id))
  created-Comes config w id created_at embedding body missing _ _ (rejected reply refusing) =
      rw missing tt
  created-Comes config w id created_at embedding body missing _ _ (stored reply session posted) =
      rw (lookup-create w.redis id session config.ttl (key_of id) missing, eq_refl (key_of id))
        (if-Comes _ id (ltb w.redis.now (w.redis.now + config.ttl)) (put_all session [])
          (posted-ComesFrom id created_at embedding body session w.requests posted))

  abbrev AllCome : World → Type 0
  AllCome w = All (Comes w.requests) w.created

  begun-AllCome :
      (id : String) (result : Result Begun) (w : World) → AllCome w → AllCome (begun id result w)
  begun-AllCome id (ok (replied reply)) w h = h
  begun-AllCome id (ok (waits p)) w h = h
  begun-AllCome id (throw e) w h = h

module _ (py : Python) (config : Config) where
  step-AllCome :
      (w v : World)
      → Step py config w v
      → ((id : String) → IsValid py config id w)
      → AllCome py w
      → AllCome py v
  unfolding after_create after_begin after_finish after_read after_delete after_check
  step-AllCome _ _ (creates w link id created_at embedding body new) valid h = (
    created-Comes py config w id created_at embedding body ((valid id).new new).0 _ _
        (create_session-Created py config id created_at embedding body w.redis link),
    grown py w.requests _ w.created h,
  )
  step-AllCome _ _ (begins w link id body) valid h =
      begun-AllCome py id (begin link id body w.redis).0 _ h
  step-AllCome _ _ (finishes w link before p after embedding there) valid h = h
  step-AllCome _ _ (reads w link id) valid h = h
  step-AllCome _ _ (deletes w link id) valid h = h
  step-AllCome _ _ (checks w link id) valid h = h
  step-AllCome _ _ (passes w n) valid h = h

  reach-AllCome : (w : World) → Reach py config w → AllCome py w
  reach-AllCome _ started = tt
  reach-AllCome _ (stepped w v before step) =
      step-AllCome w v step (reach-IsValid py config w before) (reach-AllCome w before)

  member-Comes :
      (requests : List Request) (created : List (String × Option Hash)) (id : String) (h : Hash)
      → All (Comes py requests) created
      → Memᴰ (id, some h) created
      → ComesFrom py requests id h
  member-Comes requests [] id h all m = elim m [ ]
  member-Comes requests (c ∷ rest) id h all (Memᴰ.head e) = subst (Comes py requests) (sym e) all.0
  member-Comes requests (c ∷ rest) id h all (Memᴰ.tail m) = member-Comes requests rest id h all.1 m

  -- A session that was found right after it was created comes from a request to create it.
  pub reach-ComesFrom :
      (w : World) (id : String) (h : Hash)
      → Reach py config w
      → Memᴰ (id, some h) w.created
      → ComesFrom py w.requests id h
  reach-ComesFrom w id h reach = member-Comes w.requests w.created id h (reach-AllCome w reach)
