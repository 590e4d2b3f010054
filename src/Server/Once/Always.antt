-- ===== src/Server/Once/Always.antt =====
-- app/services/session_store.py and app/routes/verify.py: every world of the server has at most one verdict on
-- a session.
use doppelganger_web.Prelude.{
  String, Bool, List, [], false, eq_refl, ap, ◌∙◌, ◌∷◌, ◌≡◌, refl, sym, subst, some, str_eq,
}
use mathlib.Core.Bool.{false≢true}
use mathlib.Core.Option.{none-ne-some, some_inj}
use doppelganger_web.Exec.{Result, lift, ◌>>=◌, and_then, pure}
use doppelganger_web.Server.{Python, Config, Reply, error_reply}
use doppelganger_web.Server.Redis.{Hash, Redis, lookup, delete, Link, up, down, cut, call}
use doppelganger_web.Server.Store.{key_of, get, delete_session, terminal_event}
use doppelganger_web.Server.Scoring.{Begun, Pending, event}
use doppelganger_web.Server.Session.{get_session, delete_route, serve}
use doppelganger_web.Server.Effects.{
  event-announcement, is_waiting, Told, told, lost, is_success, is_success-error_reply,
  finish-Finished,
}
use doppelganger_web.Server.Starts.{
  Began, failed, answered, waiting, create_session-Created, begin-Began,
}
use doppelganger_web.Server.Lookup.{delete-less, lookup-later}
use doppelganger_web.Server.Run.{
  World, begun, Step, creates, begins, finishes, reads, deletes, checks, passes, Reach, started,
  stepped, after_create, after_begin, after_finish, after_read, after_delete, after_check, start,
}
use doppelganger_web.Server.Once.{
  silent, messages, successes, IsValid, Quiet, Quiet-IsValid, Verdict, not_yet, heard, unheard,
  Scored,
}
use doppelganger_web.Server.Once.Changes.{create-Change, finish-Change}
use doppelganger_web.Server.Once.Steps.{
  and_false, won_reply-Tells, Change, quiet, starts, settles, Starts, Settles,
}

-- The redis of `v` has less than that of `w`, and the rest is the same.
module _ (id : String) (w : World) where
  quiet_redis :
      (r : Redis)
      → ((h : Hash) → lookup r (key_of id) ≡ some h → lookup w.redis (key_of id) ≡ some h)
      → messages id r.published ≡ messages id w.redis.published
      → Quiet id w (record w { redis = r })
  quiet_redis r f same = record {
    no_more = f;
    same_messages = same;
    same_successes = refl;
    was_new = λ is. is;
  }

  deleted : (link : Link) (of : String) → Quiet id w (after_delete link of w)
  unfolding after_delete delete_route delete_session serve call ◌>>=◌ and_then pure delete
  deleted up of = quiet_redis _ (delete-less w.redis (key_of of) (key_of id)) refl
  deleted down of = quiet_redis _ (λ h found. found) refl
  deleted cut of = quiet_redis _ (delete-less w.redis (key_of of) (key_of id)) refl

  read : (link : Link) (of : String) → Quiet id w (after_read link of w)
  unfolding after_read get_session get serve call ◌>>=◌ and_then lift
  read up of = quiet_redis _ (λ h found. found) refl
  read down of = quiet_redis _ (λ h found. found) refl
  read cut of = quiet_redis _ (λ h found. found) refl

  failed_quiet :
      (of : String) (reply : Reply)
      → is_success reply ≡ false
      → Quiet id w (record w { replies = (of, reply) ∷ w.replies })
  failed_quiet of reply h = record {
    no_more = λ g found. found;
    same_messages = refl;
    same_successes = rw (and_false (str_eq of id) _ h) refl;
    was_new = λ is. is;
  }

  begun_quiet :
      (of : String) (r : Redis) (result : Result Begun)
      → Began of w.redis result
      → r ≡ w.redis
      → Quiet id w (begun of result (record w { redis = r }))
  begun_quiet of r result began same =
      subst (λ s. Quiet id w (begun of result (record w { redis = s }))) (sym same)
        (by_result result began)
    where
      by_result : (result : Result Begun) → Began of w.redis result → Quiet id w (begun of result w)
      by_result _ (failed e) = failed_quiet of (error_reply e) (is_success-error_reply e)
      by_result _ (answered reply h) = failed_quiet of reply h
      by_result _ (waiting p about found) = record {
        no_more = λ h there. there;
        same_messages = refl;
        same_successes = refl;
        was_new = λ is. is;
      }

module _ (py : Python) (config : Config) (id : String) (w : World) where
  checked : (link : Link) (of : String) → Quiet id w (after_check py config link of w)
  unfolding after_check terminal_event call ◌>>=◌ and_then lift
  checked up of = quiet_redis id w _ (λ h found. found) refl
  checked down of = quiet_redis id w _ (λ h found. found) refl
  checked cut of = quiet_redis id w _ (λ h found. found) refl

module _ (py : Python) (config : Config) (id : String) where
  settled_verdict :
      (passed : Bool) (p : Pending) (score : String) (reply : Reply) (rs : List (String × Reply))
      → Scored py config id passed p score
      → Told py config passed p score reply
      → successes id rs ≡ []
      → Verdict py config id
          (py.dumps (event py passed p score) ∷ [])
          (successes id ((id, reply) ∷ rs))
  settled_verdict passed p score _ rs judged (told reply same) none_before =
      let (success, tells) = won_reply-Tells py passed p score reply same in
      rw (eq_refl id) (
        rw success (
          rw none_before
            (rw (event-announcement py passed p score) (heard passed p score reply judged tells))))
  settled_verdict passed p score _ rs judged (lost reply no_success) none_before = rw (eq_refl id) (
      rw no_success (
        rw none_before (rw (event-announcement py passed p score) (unheard passed p score judged))))

  started-IsValid : (w v : World) → Starts id w v → IsValid py config id w → IsValid py config id v
  started-IsValid w v s h =
      let silence : messages id v.redis.published ≡ [] = s.same_messages ∙ (h.new s.is_first).1 in
      record {
        new = λ is. absurd (false≢true (sym s.not_again ∙ is));
        undecided = λ g found waits. silence;
        verdict = rw s.same_messages (rw s.same_successes h.verdict);
      }

  settled-IsValid :
      (w v : World) → Settles py config id w v → IsValid py config id w → IsValid py config id v
  settled-IsValid w v s h =
      let silence : messages id w.redis.published ≡ [] =
        h.undecided s.found.0 s.found.1 s.found.2 in
      record {
        new =
            λ is. absurd (none-ne-some s.found.0 (sym (h.new (sym s.not_new ∙ is)).0 ∙ s.found.1));
        undecided = λ g there still.
            absurd (
              false≢true
                (sym s.left.2 ∙ ap is_waiting (some_inj.0 (sym s.left.1 ∙ there)) ∙ still));
        verdict = rw s.announced (
            rw s.one_reply (
              rw silence (
                settled_verdict s.passed s.p s.score s.reply w.replies s.judged s.told_reply
                  (silent py config id _ _ h.verdict silence))));
      }

  pub Change-IsValid :
      (w v : World) → Change py config id w v → IsValid py config id w → IsValid py config id v
  Change-IsValid w v (quiet q) = Quiet-IsValid py config id w v q
  Change-IsValid w v (starts s) = started-IsValid w v s
  Change-IsValid w v (settles s) = settled-IsValid w v s

module _ (py : Python) (config : Config) where
  pub step-Change :
      (w v : World)
      → Step py config w v
      → ((id : String) → IsValid py config id w)
      → (id : String) → Change py config id w v
  unfolding after_create after_finish after_begin
  step-Change _ _ (creates w link of created_at embedding body fresh) valid id =
      create-Change py config id w of created_at fresh ((valid of).new fresh).0 _ _ _ _
        (create_session-Created py config of created_at embedding body w.redis link)
  step-Change _ _ (begins w link of body) valid id = quiet (
      begun_quiet id w of _ _ (begin-Began of w.redis link body).0
        (begin-Began of w.redis link body).1)
  step-Change _ _ (finishes w link before p after embedding there) valid id =
      finish-Change py config id w p _ _ _ _ (finish-Finished py config link p embedding w.redis)
  step-Change _ _ (reads w link of) valid id = quiet (read id w link of)
  step-Change _ _ (deletes w link of) valid id = quiet (deleted id w link of)
  step-Change _ _ (checks w link of) valid id = quiet (checked py config id w link of)
  step-Change _ _ (passes w n) valid id =
      quiet (quiet_redis id w _ (λ h found. lookup-later w.redis n (key_of id) h found) refl)

  start-IsValid : (id : String) → IsValid py config id start
  start-IsValid id = record {
    new = λ is. (refl, refl);
    undecided = λ h found waits. refl;
    verdict = not_yet;
  }

  pub reach-IsValid : (w : World) → Reach py config w → (id : String) → IsValid py config id w
  reach-IsValid _ started id = start-IsValid id
  reach-IsValid _ (stepped w v before step) id =
      Change-IsValid py config id w v (step-Change w v step (reach-IsValid w before) id)
        (reach-IsValid w before id)

  -- In every world of the server and for every session, either nothing has been published on its channel and
  -- no request to verify it has got success; or exactly one event has been published, a VERIFIED with
  -- the name, the key and the percentage of a Bob whose score reaches the threshold, or a FAILED with the
  -- percentage of one whose score does not, and at most one request has got success, which says PASS or
  -- FAIL accordingly and gives the same percentage.
  pub one_verdict :
      (w : World)
      → Reach py config w
      → (id : String)
      → Verdict py config id (messages id w.redis.published) (successes id w.replies)
  one_verdict w reach id = (reach-IsValid w reach id).verdict
