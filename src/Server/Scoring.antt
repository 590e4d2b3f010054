-- ===== src/Server/Scoring.antt =====
-- app/routes/session.py and app/routes/verify.py: what the routes compute from the hash of a session, with
-- no call of Redis in between.
use doppelganger_web.Prelude.{
  ℕ, String, Bool, true, false, not, [], ◌∷◌, Option, none, some, if◌then◌else◌, str_eq,
}
use doppelganger_web.Exec.{raised, Result, ok, throw}
use doppelganger_web.Exec.Fallible.{◌>>=◌}
use doppelganger_web.Value.{
  Value, num, str, arr, Items, nil, cons, Fields, find, object, take_items, count_items,
}
use doppelganger_web.Server.{Python, Reply, refusal}
use doppelganger_web.Server.Event.{verified_event, failed_event}
use doppelganger_web.Server.Redis.{Hash, hget}
use doppelganger_web.Server.Validate.{text_at}
use doppelganger_web.Server.Embed.{cosine_similarity}

-- session[k]
unfoldable pub at_key : String → Hash → Result String
at_key k h = elim (hget k h) [ none ↦ throw (raised "KeyError") | some s ↦ ok s ]

-- What Bob is allowed to see of a session.
unfoldable pub visible_body : Hash → Result Fields
unfolding at_key
visible_body h = do
  alice_name ← at_key "alice_name" h
  memory_question ← at_key "memory_question" h
  phase ← at_key "phase" h
  ok (
      object (
        ("alice_name", str alice_name)
        ∷ ("memory_question", str memory_question)
        ∷ ("phase", str phase)
        ∷ []))

-- The local variables of a request that waits for the embedding of its answer.
pub record Pending : Type 0 where
  pub session_id : String
  pub bob_name : Value
  pub answer : String
  pub bob_jwk : Value
  pub session : Hash

pub data Begun : Type 0 where
  replied : Reply → Begun
  waits : Pending → Begun

-- Once the session is there.
unfoldable pub begin_found : String → Fields → Hash → Result Begun
unfolding at_key text_at
begin_found session_id fs session = do
  phase ← at_key "phase" session
  if not (str_eq phase "WAITING_FOR_BOB")
      then ok (replied (refusal "Session already completed" 409))
      else (do
        answer ← text_at "answer" fs
        ok (
            waits (record {
              session_id = session_id;
              bob_name = find "bob_name" fs;
              answer = answer;
              bob_jwk = find "bob_pubkey_jwk" fs;
              session = session;
            })))

abbrev pub begin_looked : String → Fields → Option Hash → Result Begun
begin_looked session_id fs none = ok (replied (refusal "Session not found or expired" 404))
begin_looked session_id fs (some session) = begin_found session_id fs session

-- A name that has passed the validators is a text.
abbrev pub name_text : Value → String
name_text (str s) = s
name_text v = ""

-- len(embedding), read where `embedding[:40]` has not raised
unfoldable pub dimensions_of : Value → ℕ
dimensions_of (arr xs) = count_items xs
dimensions_of v = 0

module _ (py : Python) where
  -- [round(v, 6) for v in …]
  unfoldable pub rounded : Items → Result Items
  rounded nil = ok nil
  rounded (cons v rest) =
      let others = rounded rest in do w ← py.round_to_6 v; ws ← others; ok (cons w ws)

  unfoldable pub preview_of : Value → Result Items
  unfolding rounded
  preview_of (arr xs) = rounded (take_items 40 xs)
  preview_of v = throw (raised "TypeError")

  -- score
  unfoldable pub score_of : Pending → Value → Result String
  unfolding at_key cosine_similarity
  score_of p bob_embedding = do
    text ← at_key "answer_embedding" p.session
    answer_embedding ← py.loads text
    cosine_similarity py answer_embedding bob_embedding

  -- The fields that `finalize` sets, and the event that it publishes.
  abbrev pub updates : Bool → Pending → String → Hash
  updates true p score =
      ("phase", "VERIFIED")
      ∷ ("bob_name", name_text p.bob_name)
      ∷ ("bob_pubkey_jwk", py.dumps p.bob_jwk)
      ∷ ("similarity_score", py.round_to_4 score)
      ∷ []
  updates false p score = ("phase", "FAILED") ∷ ("similarity_score", py.round_to_4 score) ∷ []

  abbrev pub event : Bool → Pending → String → Value
  event true p score = verified_event p.bob_name p.bob_jwk (py.percent score)
  event false p score = failed_event (py.percent score)

  abbrev pub pass_body : String → Value → Fields
  pass_body score alice_jwk =
      object (("result", str "PASS") ∷ ("score", num score) ∷ ("alice_pubkey_jwk", alice_jwk) ∷ [])

  abbrev pub fail_body : String → Fields
  fail_body score = object (("result", str "FAIL") ∷ ("score", num score) ∷ [])

  -- The reply to the request that has ended the session.
  unfoldable pub won_reply : Bool → Pending → String → Result Reply
  unfolding at_key
  won_reply true p score = do
    text ← at_key "alice_pubkey_jwk" p.session
    alice_jwk ← py.loads text
    ok (record { status = 200; body = pass_body (py.percent score) alice_jwk })
  won_reply false p score = ok (record { status = 200; body = fail_body (py.percent score) })
