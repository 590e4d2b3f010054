-- ===== src/Server/Resend.antt =====
-- app/services/session_store.py: the event that `terminal_event` rebuilds for a stream that has missed it.
use doppelganger_web.Prelude.{
  String, Bool, true, false, [], ◌∷◌, ◌++◌, ◌≡◌, refl, ap, ◌∙◌, some, eq_refl,
}
use doppelganger_web.Exec.{ok, lift, ◌>>=◌, and_then}
use doppelganger_web.Value.{Value, str}
use doppelganger_web.Server.{Python, Config}
use doppelganger_web.Server.Event.{
  event_of, verified_again, failed_again, read_percent, verified_event, failed_event,
}
use doppelganger_web.Server.Redis.{Hash, hget, put_all, Redis, lookup, up, call, hset, publish}
use doppelganger_web.Server.Store.{key_of, channel_of, terminal_event}
use doppelganger_web.Server.Scoring.{Pending, updates}
use doppelganger_web.Server.Effects.{decide, announcement}
use doppelganger_web.Server.Lookup.{hget-put}
use doppelganger_web.Server.Once.{messages}
use doppelganger_web.Server.Once.Steps.{found_decided, messages-append}

module _ (py : Python) where
  event_of-verified :
      (h : Hash) (name key_text score_text f : String) (jwk : Value)
      → hget "phase" h ≡ some "VERIFIED"
      → hget "bob_name" h ≡ some name
      → hget "bob_pubkey_jwk" h ≡ some key_text
      → hget "similarity_score" h ≡ some score_text
      → py.loads key_text ≡ ok jwk
      → py.float score_text ≡ ok f
      → py.is_finite f ≡ true
      → event_of py (some h) ≡ ok (some (verified_event (str name) jwk (py.percent f)))
  unfolding event_of verified_again read_percent
  event_of-verified h name key_text score_text f jwk phase is_name is_key is_score reads_key
        reads_score finite =
      rw (event_of, phase)
        (rw (verified_again, is_key)
          (rw reads_key
            (rw (read_percent, is_score) (rw reads_score (rw finite (rw is_name refl))))))

  event_of-failed :
      (h : Hash) (score_text f : String)
      → hget "phase" h ≡ some "FAILED"
      → hget "similarity_score" h ≡ some score_text
      → py.float score_text ≡ ok f
      → py.is_finite f ≡ true
      → event_of py (some h) ≡ ok (some (failed_event (py.percent f)))
  unfolding event_of failed_again read_percent
  event_of-failed h score_text f phase is_score reads_score finite =
      rw (event_of, phase)
        (rw (failed_again, read_percent, is_score) (rw reads_score (rw finite refl)))

module _ (py : Python) (config : Config) (p : Pending) (name score f : String)
    (is_name : p.bob_name ≡ str name) (reads_back : py.loads (py.dumps p.bob_jwk) ≡ ok p.bob_jwk)
    (reads_score : py.float (py.round_to_4 score) ≡ ok f) (finite : py.is_finite f ≡ true) where
  event_of-updates :
      (passed : Bool) (h : Hash)
      → event_of py (some (put_all (updates py passed p score) h))
        ≡ ok (some (announcement passed p (py.percent f)))
  event_of-updates true h = rw is_name (
      event_of-verified py _ name (py.dumps p.bob_jwk) (py.round_to_4 score) f p.bob_jwk
        (simp hget-put) (simp hget-put) (simp hget-put) (simp hget-put) reads_back reads_score
        finite)
  event_of-updates false h =
      event_of-failed py _ (py.round_to_4 score) f (simp hget-put) (simp hget-put) reads_score
        finite

  published_next :
      (passed : Bool) (r : Redis)
      → messages p.session_id (decide py config passed p score r).published
        ≡ messages p.session_id r.published
          ++ py.dumps (announcement passed p (py.percent score)) ∷ []
  unfolding hset publish
  published_next true r =
      messages-append p.session_id r.published (channel_of p.session_id) _
      ∙ rw (eq_refl (channel_of p.session_id)) refl
  published_next false r =
      messages-append p.session_id r.published (channel_of p.session_id) _
      ∙ rw (eq_refl (channel_of p.session_id)) refl

  -- Let a session that is there get its verdict, Bob's name be a text, his key be read back from its text
  -- and the rounded score be read as a finite `f`. Then one more message is on the channel: a VERIFIED event
  -- with Bob's name, Bob's key and the percentage of the score, or a FAILED event with the percentage
  -- alone. A stream that asks afterwards, while the session is there, gets this event once more, with the
  -- percentage of `f` for that of the score.
  pub terminal_event-decide :
      (passed : Bool) (r : Redis) (h : Hash)
      → lookup r (key_of p.session_id) ≡ some h
      → (messages p.session_id (decide py config passed p score r).published
          ≡ messages p.session_id r.published
            ++ py.dumps (announcement passed p (py.percent score)) ∷ [])
        × ((terminal_event py up p.session_id (decide py config passed p score r)).0
            ≡ ok (some (announcement passed p (py.percent f))))
  unfolding terminal_event call ◌>>=◌ and_then lift
  terminal_event-decide passed r h found = (
    published_next passed r,
    ap (event_of py) (found_decided py config p passed score r h found) ∙ event_of-updates passed h,
  )
