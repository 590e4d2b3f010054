-- ===== src/Server/Origin/Fair.antt =====
-- app/routes/verify.py: a reply with success goes by the session as Alice created it.
use mathlib.Core.List.{Memᴰ}
use mathlib.Core.Option.{none-ne-some, some_inj}
use mathlib.Core.Bool.{false≢true}
use doppelganger_web.Prelude.{
  eq_refl, refl, String, Bool, true, false, List, [], ◌∷◌, ◌++◌, ◌≡◌, sym, ap, ◌∙◌, subst, Option,
  none, some, All, All-middle,
}
use doppelganger_web.Exec.{Result, ok, throw, raised}
use doppelganger_web.Exec.Fallible.{bind-ok}
use doppelganger_web.Value.{Value, num, str, object, find}
use doppelganger_web.Server.{Python, Config, Reply, error_reply}
use doppelganger_web.Server.Redis.{Hash, hget, Redis, Link, hset, publish}
use doppelganger_web.Server.Scoring.{updates, Pending, at_key, score_of, won_reply}
use doppelganger_web.Server.Session.{serve}
use doppelganger_web.Server.Verify.{finish}
use doppelganger_web.Server.Effects.{
  announcement, event-announcement, is_success, Finished, refused, decided, told, lost,
  finish-Finished,
}
use doppelganger_web.Server.Run.{World, Reach}
use doppelganger_web.Server.Embed.{cosine_similarity}
use doppelganger_web.Server.Store.{key_of, channel_of}
use doppelganger_web.Server.Once.{messages, IsValid}
use doppelganger_web.Server.Once.Steps.{messages-append}
use doppelganger_web.Server.Once.Always.{reach-IsValid}
use doppelganger_web.Server.Origin.{Keeps, Stems}
use doppelganger_web.Server.Origin.Always.{reach-AllStem}
use doppelganger_web.Server.Origin.Posted.{ComesFrom, reach-ComesFrom}

abbrev reply_of : Result Reply → Reply
reply_of (ok reply) = reply
reply_of (throw e) = error_reply e

reply_in : {x y : Reply} → ok x ≡ ok y → x ≡ y
reply_in h = ap reply_of h

abbrev read_text : Result String → Option String
read_text (ok s) = some s
read_text (throw e) = none

module _ (py : Python) (config : Config) where
  -- The answer's score against the embedding that is stored as the text `stored`: it is read and compared with
  -- the one that the service has given.
  pub record IsScore (stored : String) (embedding : Value) (score : String) : Type 0 where
    pub answer_embedding : Value
    pub read_as : py.loads stored ≡ ok answer_embedding
    pub is_similarity : cosine_similarity py answer_embedding embedding ≡ ok score

  -- The two replies with success to a score. Only the one for a pass has Alice's key, which is stored as the text
  -- `stored`.
  pub data Reveals (stored score : String) : Reply → Type 0 where
    passes :
        (jwk : Value)
        → py.at_least score config.threshold ≡ true
        → py.loads stored ≡ ok jwk
        → Reveals stored score (record {
          status = 200;
          body = object (
              ("result", str "PASS")
              ∷ ("score", num (py.percent score))
              ∷ ("alice_pubkey_jwk", jwk)
              ∷ []);
        })
    fails :
        py.at_least score config.threshold ≡ false
        → Reveals stored score (record {
          status = 200;
          body = object (("result", str "FAIL") ∷ ("score", num (py.percent score)) ∷ []);
        })

  -- A reply with success to the request `p` goes by the request that has created the session.
  pub record IsFair (w : World) (p : Pending) (given : Option Value) (reply : Reply) (s : Redis)
      : Type 0 where
    pub created_as : Hash
    pub is_created : Memᴰ (p.session_id, some created_as) w.created
    pub posted : ComesFrom py w.requests p.session_id created_as
    pub embedding : Value
    pub is_given : given ≡ some embedding
    pub score : String
    pub scored : IsScore (py.dumps posted.vector) embedding score
    pub reveals : Reveals (py.dumps (find "alice_pubkey_jwk" posted.body)) score reply
    pub announced :
        messages p.session_id s.published
        ≡ py.dumps (announcement (py.at_least score config.threshold) p (py.percent score)) ∷ []

  at_key-ok : (k : String) (h : Hash) (s : String) → at_key k h ≡ ok s → hget k h ≡ some s
  unfolding at_key
  at_key-ok k h s same = found_key (hget k h) same
    where
      found_key :
          (found : Option String)
          → (elim found [ none ↦ throw (raised "KeyError") | some s ↦ ok s ]) ≡ ok s
          → found ≡ some s
      found_key (some t) same = ap read_text same
      found_key none same = absurd (none-ne-some s (ap read_text same))

  same_text : {found : Option String} {a b : String} → found ≡ some a → found ≡ some b → a ≡ b
  same_text h k = some_inj.0 (sym h ∙ k)

  score_of-IsScore :
      (p : Pending) (first : Hash) (stored : String) (embedding : Value) (score : String)
      → Keeps p.session first
      → hget "answer_embedding" first ≡ some stored
      → score_of py p embedding ≡ ok score
      → IsScore stored embedding score
  unfolding score_of
  score_of-IsScore p first stored embedding score k kept scored =
      let (text, found, more) = bind-ok (at_key "answer_embedding" p.session) _ score scored in
      let (v, read, similar) = bind-ok (py.loads text) _ score more in
      record {
        answer_embedding = v;
        read_as =
            subst (λ t. py.loads t ≡ ok v)
              (same_text (sym k.embedding ∙ at_key-ok "answer_embedding" p.session text found) kept)
              read;
        is_similarity = similar;
      }

  won_reply-Reveals :
      (p : Pending) (first : Hash) (stored : String) (passed : Bool) (score : String)
      (reply : Reply)
      → Keeps p.session first
      → hget "alice_pubkey_jwk" first ≡ some stored
      → py.at_least score config.threshold ≡ passed
      → won_reply py passed p score ≡ ok reply
      → Reveals stored score reply
  unfolding won_reply
  won_reply-Reveals p first stored true score reply k kept judged same =
      let (text, found, more) = bind-ok (at_key "alice_pubkey_jwk" p.session) _ reply same in
      let (jwk, read, is) = bind-ok (py.loads text) _ reply more in
      subst (Reveals stored score) (reply_in is) (
        passes jwk judged (
          subst (λ t. py.loads t ≡ ok jwk)
            (same_text (sym k.key ∙ at_key-ok "alice_pubkey_jwk" p.session text found) kept) read))
  won_reply-Reveals p first stored false score reply k kept judged same =
      subst (Reveals stored score) (reply_in same) (fails judged)

  published_first :
      (r : Redis) (id message : String)
      → messages id r.published ≡ []
      → messages id (publish (channel_of id) message r).published ≡ message ∷ []
  unfolding publish
  published_first r id message silence =
      messages-append id r.published (channel_of id) message
      ∙ rw (eq_refl (channel_of id)) (rw silence refl)

  fair :
      (w : World) (p : Pending) (given : Option Value) (reply : Reply) (s : Redis)
      → Stems w.created p.session_id p.session
      → Finished py config p given w.redis reply s
      → is_success reply ≡ true
      → IsValid py config p.session_id w
      → Reach py config w
      → IsFair w p given reply s
  unfolding hset
  fair w p given _ _ stems (refused reply refusing) success valid reach =
      absurd (false≢true (sym refusing ∙ success))
  fair w p given _ _ stems
        (decided reply embedding passed score h same_given scored judged found unsettled
          (lost _ refusing))
        success valid reach =
      absurd (false≢true (sym refusing ∙ success))
  fair w p given _ _ stems
        (decided reply embedding passed score h same_given scored judged found unsettled
          (told _ same))
        success valid reach =
      let from = reach-ComesFrom py config w p.session_id stems.first reach stems.is_created in
      record {
        created_as = stems.first;
        is_created = stems.is_created;
        posted = from;
        embedding = embedding;
        is_given = same_given;
        score = score;
        scored =
            score_of-IsScore p stems.first _ embedding score stems.keeps from.keeps_embedding
              scored;
        reveals =
            won_reply-Reveals p stems.first _ passed score _ stems.keeps from.keeps_key judged same;
        announced = rw judged (
            rw (← event-announcement py passed p score) (
              published_first (hset (key_of p.session_id) (updates py passed p score) w.redis)
                p.session_id _ (valid.undecided h found unsettled)));
      }

  -- In every world of the server, if a request to verify that waits for the embedding of its answer ends with
  -- success, then that embedding was given, and a request with some body and some embedding has created the
  -- session. The similarity of the two embeddings, that of the creation as it is read back from its JSON, is a
  -- score. The reply has the percentage of this score, and either the score reaches the threshold and the reply
  -- is a PASS with the key of the body of the creation, as it is read back from its JSON, or it does not and the
  -- reply is a FAIL with no key. The one message on the channel of the session then is a VERIFIED event with
  -- Bob's name, Bob's key and the percentage, or a FAILED event with the percentage alone.
  pub finish-IsFair :
      (w : World) (before after : List Pending) (p : Pending) (link : Link)
      (embedding : Option Value)
      → Reach py config w
      → w.waiting ≡ before ++ p ∷ after
      → is_success (serve (finish py config link p embedding) w.redis).0 ≡ true
      → let end = serve (finish py config link p embedding) w.redis in
        IsFair w p embedding end.0 end.1
  finish-IsFair w before after p link embedding reach there success =
      let h = reach-AllStem py config w reach in
      fair w p embedding _ _
        (All-middle _ before after p
          (subst (All (λ q. Stems w.created q.session_id q.session)) there h.pending))
        (finish-Finished py config link p embedding w.redis) success
        (reach-IsValid py config w reach p.session_id) reach
