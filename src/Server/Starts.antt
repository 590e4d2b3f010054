-- ===== src/Server/Starts.antt =====
-- app/routes/session.py and app/routes/verify.py: how a session starts, and how a request to verify does.
use doppelganger_web.Prelude.{
  String, Bool, true, false, ◌≡◌, refl, Option, none, some, ◌==◌, Bool-cases, inl, inr, not, str_eq,
  if◌then◌else◌,
}
use doppelganger_web.Exec.{
  Error, raised, type_error, syntax_error, Result, ok, throw, lift, ◌>>=◌, ◌>>◌, and_then, pure,
  Exec,
}
use doppelganger_web.Exec.Fallible
use doppelganger_web.Value.{Value, Fields, find}
use doppelganger_web.Server.{Python, Config, Reply, error_reply, fields_of}
use doppelganger_web.Server.Redis.{Hash, Redis, lookup, Link, up, down, cut, call}
use doppelganger_web.Server.Store.{key_of, new_session, create, get}
use doppelganger_web.Server.Store
use doppelganger_web.Server.Scoring.{
  Pending, Begun, replied, waits, begin_found, begin_looked, at_key,
}
use doppelganger_web.Server.Session.{
  serve, store_session, create_valid, create_checked, create_session,
}
use doppelganger_web.Server.Validate.{text_at, validate_session_create}
use doppelganger_web.Server.Verify.{begin, begin_checked}
use doppelganger_web.Server.Effects.{is_success}

abbrev pub is_created : Reply → Bool
is_created reply = reply.status == 201

pub is_created-error_reply : (e : Error) → is_created (error_reply e) ≡ false
unfolding error_reply
is_created-error_reply (type_error k) = refl
is_created-error_reply syntax_error = refl
is_created-error_reply (raised s) = elim (Bool-cases (str_eq s "RedisError")) [
  | inl same ↦ rw same refl
  | inr other ↦ rw other refl
]

-- `session` is the hash of a new session that a valid body asks for, with the embedding of its answer.
pub record IsPosted (py : Python) (created_at : String) (embedding : Option Value) (body : Value)
    (session : Hash) : Type 0 where
  pub fields : Fields
  pub vector : Value
  pub alice_name : String
  pub memory_question : String
  pub is_valid : validate_session_create body ≡ ok none
  pub is_body : fields_of body ≡ ok fields
  pub is_embedding : embedding ≡ some vector
  pub is_name : text_at "alice_name" fields ≡ ok alice_name
  pub is_question : text_at "memory_question" fields ≡ ok memory_question
  pub is_session :
      session
      ≡ new_session py alice_name memory_question vector (find "alice_pubkey_jwk" fields) created_at

module _ (py : Python) (config : Config) (id created_at : String) (embedding : Option Value)
    (body : Value) (r : Redis) where
  -- The ways in which the creation of a session ends: nothing is stored, or the session that was asked for.
  pub data Created : Reply → Redis → Type 0 where
    rejected : (reply : Reply) → is_created reply ≡ false → Created reply r
    stored :
        (reply : Reply) (session : Hash)
        → IsPosted py created_at embedding body session
        → Created reply (Store.create_session id session config.ttl r).1

  abbrev Ends : Exec Redis Reply → Type 0
  Ends route = Created (serve route r).0 (serve route r).1

  -- A part that may throw, before anything is stored.
  before :
      {A : Type 0} (res : Result A) (f : A → Exec Redis Reply)
      → ((a : A) → res ≡ ok a → Ends (f a))
      → Ends (lift res >>= f)
  unfolding serve lift ◌>>=◌ and_then
  before (ok a) f h = h a refl
  before (throw e) f h = rejected _ (is_created-error_reply e)

  -- The call of Redis, and the two parts after it that may throw.
  stores :
      {A B : Type 0} (link : Link) (session : Hash)
      → IsPosted py created_at embedding body session
      → (a : Result A) (b : Result B) (f : A → B → Reply)
      → Ends (create link id session config.ttl >> (lift a >>= λ x. lift b >>= λ y. pure (f x y)))
  unfolding serve lift ◌>>=◌ and_then create call pure error_reply
  stores down session posted a b f = rejected _ refl
  stores cut session posted a b f = stored _ session posted
  stores up session posted (throw e) b f = stored _ session posted
  stores up session posted (ok x) (throw e) f = stored _ session posted
  stores up session posted (ok x) (ok y) f = stored _ session posted

  replies : (reply : Reply) → is_created reply ≡ false → Ends (pure reply)
  unfolding serve pure
  replies reply h = rejected reply h

  module _ (link : Link) (is_valid : validate_session_create body ≡ ok none) (fs : Fields)
      (is_body : fields_of body ≡ ok fs) where
    store_session-Created :
        (vector : Value)
        → embedding ≡ some vector
        → Ends (store_session py config link id created_at vector fs)
    unfolding store_session
    store_session-Created vector is_embedding = before _ _ (λ name is_name.
        before _ _ (λ question is_question.
          stores link (new_session py name question vector (find "alice_pubkey_jwk" fs) created_at)
            (record {
              fields = fs;
              vector = vector;
              alice_name = name;
              memory_question = question;
              is_valid = is_valid;
              is_body = is_body;
              is_embedding = is_embedding;
              is_name = is_name;
              is_question = is_question;
              is_session = refl;
            })
            _ _ _))

    create_valid-Created :
        (given : Option Value)
        → embedding ≡ given
        → Ends (create_valid py config link id created_at given fs)
    create_valid-Created none same = replies _ refl
    create_valid-Created (some vector) same = store_session-Created vector same

  create_checked-Created :
      (link : Link) (error : Option String)
      → validate_session_create body ≡ ok error
      → Ends (create_checked py config link id created_at embedding body error)
  create_checked-Created link (some error) checked = replies _ refl
  create_checked-Created link none checked =
      before _ _ (λ fs is_body. create_valid-Created link checked fs is_body embedding refl)

  pub create_session-Created :
      (link : Link) → Ends (create_session py config link id created_at embedding body)
  unfolding create_session
  create_session-Created link =
      before _ _ (λ error checked. create_checked-Created link error checked)

module _ (id : String) (r : Redis) where
  -- The ways in which a request to verify starts, all of which leave the sessions as they are: it is answered,
  -- not with success, or it waits for the embedding, with the session that was found.
  pub data Began : Result Begun → Type 0 where
    failed : (e : Error) → Began (throw e)
    answered : (reply : Reply) → is_success reply ≡ false → Began (ok (replied reply))
    waiting :
        (p : Pending)
        → p.session_id ≡ id
        → lookup r (key_of id) ≡ some p.session
        → Began (ok (waits p))

  abbrev Begins : Exec Redis Begun → Type 0
  Begins route = Began (route r).0 × ((route r).1 ≡ r)

  first :
      {A : Type 0} (res : Result A) (f : A → Exec Redis Begun)
      → ((a : A) → Begins (f a))
      → Begins (lift res >>= f)
  unfolding lift ◌>>=◌ and_then
  first (ok a) f h = h a
  first (throw e) f h = (failed e, refl)

  past :
      {A : Type 0} (res : Result A) (f : A → Result Begun)
      → ((a : A) → Began (f a))
      → Began (Fallible.◌>>=◌ res f)
  past (ok a) f h = h a
  past (throw e) f h = failed e

  either : (b : Bool) (x y : Result Begun) → Began x → Began y → Began (if b then x else y)
  either true x y h k = h
  either false x y h k = k

  begin_found-Began :
      (fs : Fields) (session : Hash)
      → lookup r (key_of id) ≡ some session
      → Began (begin_found id fs session)
  unfolding begin_found
  begin_found-Began fs session found = past (at_key "phase" session) _ (λ phase.
      either (not (str_eq phase "WAITING_FOR_BOB")) _ _ (answered _ refl) (
        past (text_at "answer" fs) _ (λ answer.
          waiting
            (record {
              session_id = id;
              bob_name = find "bob_name" fs;
              answer = answer;
              bob_jwk = find "bob_pubkey_jwk" fs;
              session = session;
            })
            refl found)))

  begin_looked-Began :
      (fs : Fields) (session : Option Hash)
      → lookup r (key_of id) ≡ session
      → Began (begin_looked id fs session)
  begin_looked-Began fs none found = answered _ refl
  begin_looked-Began fs (some session) found = begin_found-Began fs session found

  get-Began : (link : Link) (body : Value) → Begins (begin_checked link id body none)
  unfolding get call ◌>>=◌ and_then lift
  get-Began up body = looked (fields_of body)
    where
      looked :
          (res : Result Fields)
          → Begins (get up id >>= λ session. lift res >>= λ fs. lift (begin_looked id fs session))
      looked (ok fs) = (begin_looked-Began fs _ refl, refl)
      looked (throw e) = (failed e, refl)
  get-Began down body = (failed _, refl)
  get-Began cut body = (failed _, refl)

  begin_checked-Began :
      (link : Link) (body : Value) (error : Option String)
      → Begins (begin_checked link id body error)
  unfolding pure
  begin_checked-Began link body none = get-Began link body
  begin_checked-Began link body (some error) = (answered _ refl, refl)

  pub begin-Began : (link : Link) (body : Value) → Begins (begin link id body)
  unfolding begin
  begin-Began link body = first _ _ (λ error. begin_checked-Began link body error)
