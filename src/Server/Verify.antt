-- ===== src/Server/Verify.antt =====
-- app/routes/verify.py: the route that scores Bob's answer. Other requests are served while it waits for
-- the embedding service, so it is two pieces: `begin` up to the call of `EmbeddingClient.embed`, and
-- `finish` after it.
use doppelganger_web.Prelude.{String, Bool, Option, none, some}
use doppelganger_web.Exec.{Result, ok, Exec, lift, pure, ◌>>=◌, ◌>>◌}
use doppelganger_web.Value.{Value}
use doppelganger_web.Server.{Python, Config, Reply, refusal, fields_of, percent_of}
use doppelganger_web.Server.Redis.{Redis, Link}
use doppelganger_web.Server.Store.{get, finalize, Outcome, gone, completed, won}
use doppelganger_web.Server.Validate.{validate_verify}
use doppelganger_web.Server.Scoring.{
  Pending, Begun, replied, begin_looked, score_of, updates, event, won_reply,
}

abbrev pub begin_checked : Link → String → Value → Option String → Exec Redis Begun
begin_checked link session_id body (some error) = pure (replied (refusal error 400))
begin_checked link session_id body none = do
  session ← get link session_id
  fs ← lift (fields_of body)
  lift (begin_looked session_id fs session)

unfoldable pub begin : Link → String → Value → Exec Redis Begun
unfolding validate_verify get
begin link session_id body = do
  error ← lift (validate_verify body)
  begin_checked link session_id body error

module _ (py : Python) where
  abbrev pub outcome_reply : Bool → Pending → String → Outcome → Result Reply
  outcome_reply passed p score gone = ok (refusal "Session expired while scoring" 404)
  outcome_reply passed p score completed = ok (refusal "Session already completed" 409)
  outcome_reply passed p score won = won_reply py passed p score

  -- With the score. Its percentage, which `event` and `won_reply` use, is computed before `finalize`.
  unfoldable pub conclude : Link → Pending → String → Bool → Exec Redis Reply
  unfolding finalize
  conclude link p score passed = do
    lift (percent_of py score)
    outcome ← finalize py link p.session_id (updates py passed p score) (event py passed p score)
    lift (outcome_reply passed p score outcome)

  -- `embedding` is what `EmbeddingClient.embed` has given for Bob's answer.
  unfoldable pub finish : Config → Link → Pending → Option Value → Exec Redis Reply
  unfolding conclude score_of
  finish config link p none = pure (refusal "Embedding service busy — please try again" 503)
  finish config link p (some embedding) = do
    score ← lift (score_of py p embedding)
    conclude link p score (py.at_least score config.threshold)
