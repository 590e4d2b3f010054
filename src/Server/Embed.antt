-- ===== src/Server/Embed.antt =====
-- app/services/embedding_client.py: the embedding of a text, with its retry and its slots, and the
-- similarity of two embeddings. The embedding service is no part of the repository: what it answers to
-- the first and the second request is `Service`.
pub mod Laws
use doppelganger_web.Prelude.{
  ℕ, zero, suc, ◌+◌, String, not, ◌&&◌, ◌||◌, Option, none, some, ◌==◌, if◌then◌else◌,
}
use doppelganger_web.Exec.{Result, ok, throw}
use doppelganger_web.Exec.Fallible.{◌>>=◌}
use doppelganger_web.Value.{Value, obj, find}
use doppelganger_web.Server.{Python, falsy}

-- What `_http.post` comes to: the exceptions that the code tells apart, or a response with its status
-- and, where `resp.json()` does not raise, its body.
pub data Posted : Type 0 where
  connection_error timed_out other_error : Posted
  response : ℕ → Result Value → Posted

abbrev pub Service : Type 0
Service = ℕ → Posted

-- The free slots of the worker, the requests posted and the times the code has slept, half a second each.
pub record Client : Type 0 where
  pub slots : ℕ
  pub posts : ℕ
  pub sleeps : ℕ

-- `data["vector"]`, unless the answer is a bad one or reading it raises.
unfoldable pub vector_of : Result Value → Option Value
vector_of (throw e) = none
vector_of (ok (obj fs)) =
    if falsy (find "success" fs) || falsy (find "vector" fs) then none else some (find "vector" fs)
vector_of (ok v) = none

-- What one round of the loop does: go on with the next one, or return.
pub data Round : Type 0 where
  again : Round
  return : Option Value → Round

unfoldable pub round : ℕ → Posted → Round
unfolding vector_of
round attempt connection_error = if attempt == 1 then again else return none
round attempt timed_out = return none
round attempt other_error = return none
round attempt (response status body) =
    if (status == 502 || status == 504) && attempt == 1
    then again
    else if not (status == 200)
    then return none
    else return (vector_of body)

-- for attempt in (1, 2): `left` is the number of rounds that are left.
unfoldable pub attempts : ℕ → ℕ → Service → Client → Option Value × Client
unfolding round
attempts zero attempt service c = (none, c)
attempts (suc left) attempt service c =
    let posted = record c { posts = c.posts + 1 } in
    elim (round attempt (service attempt)) [
      | again ↦ attempts left (attempt + 1) service (record posted { sleeps = posted.sleeps + 1 })
      | return v ↦ (v, posted)
    ]

-- `acquire` gives a free slot, if there is one in the time that it waits.
unfoldable pub embed : Service → Client → Option Value × Client
unfolding attempts
embed service c = elim c.slots [
  | zero ↦ (none, c)
  | suc free ↦
      let (v, after) = attempts 2 1 service (record c { slots = free }) in
      (v, record after { slots = after.slots + 1 })
]

unfoldable pub cosine_similarity : Python → Value → Value → Result String
cosine_similarity py vec_a vec_b = do
  a ← py.array vec_a
  b ← py.array vec_b
  let norm_a = py.norm a
  let norm_b = py.norm b
  if py.is_zero norm_a || py.is_zero norm_b
      then ok "0.0"
      else (do product ← py.dot a b; ok (py.quotient product norm_a norm_b))
