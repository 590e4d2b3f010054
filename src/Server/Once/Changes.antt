-- ===== src/Server/Once/Changes.antt =====
-- app/routes/session.py and app/routes/verify.py: what creating a session and finishing a request change.
use doppelganger_web.Prelude.{
  ltb, ◌+◌, String, Bool, true, false, List, [], ◌∷◌, ◌≡◌, refl, sym, ap, ◌∙◌, subst, Option, none,
  some, str_eq, if◌then◌else◌, Bool-cases, inl, inr, eq_refl,
}
use mathlib.Core.Option.{none-ne-some, some_inj}
use doppelganger_web.Value.{Value}
use doppelganger_web.Server.{Python, Config, Reply}
use doppelganger_web.Server.Redis.{Hash, put_all, Redis, lookup, hset, expire, publish}
use doppelganger_web.Server.Store
use doppelganger_web.Server.Store.{key_of, channel_of, new_session}
use doppelganger_web.Server.Scoring.{Pending, updates}
use doppelganger_web.Server.Effects.{is_waiting, Told, Finished, refused, decided, decide}
use doppelganger_web.Server.Starts.{IsPosted, Created, rejected, stored}
use doppelganger_web.Server.Lookup.{str_eq-path, str_eq-key_of, lookup-create}
use doppelganger_web.Server.Run.{World, is_new}
use doppelganger_web.Server.Once.{Scored}
use doppelganger_web.Server.Once.Steps.{
  and_false, neither, create-apart, publish-apart, decided-over, messages-append, found_decided,
  decide-apart, Settles, Change, quiet, starts, settles,
}

module _ (py : Python) (config : Config) (p : Pending) (passed : Bool) (score : String) where
  settled_own :
      (w : World) (ws : List Pending) (reply : Reply) (h : Hash)
      → Scored py config p.session_id passed p score
      → lookup w.redis (key_of p.session_id) ≡ some h
      → is_waiting h ≡ true
      → Told py config passed p score reply
      → Settles py config p.session_id w (record w {
        redis = decide py config passed p score w.redis;
        waiting = ws;
        replies = (p.session_id, reply) ∷ w.replies;
      })
  unfolding hset publish
  settled_own w ws reply h judged found unsettled heard_of = record {
    passed = passed;
    p = p;
    score = score;
    reply = reply;
    judged = judged;
    found = (h, found, unsettled);
    left = (
      put_all (updates py passed p score) h,
      found_decided py config p passed score w.redis h found,
      decided-over py passed p score h,
    );
    announced =
        messages-append p.session_id w.redis.published (channel_of p.session_id) _
        ∙ rw (eq_refl (channel_of p.session_id)) refl;
    told_reply = heard_of;
    one_reply = refl;
    not_new = refl;
  }

module _ (py : Python) (config : Config) (id : String) where
  first_found :
      (w : World) (of created_at : String) (embedding : Option Value) (body : Value)
      (session : Hash)
      → lookup w.redis (key_of of) ≡ none
      → IsPosted py created_at embedding body session
      → str_eq id of ≡ true
      → (h : Hash)
      → lookup (Store.create_session of session config.ttl w.redis).1 (key_of id) ≡ some h
      → is_waiting h ≡ true
  first_found w of created_at embedding body session missing posted same h found =
      if_waiting (ltb w.redis.now (w.redis.now + config.ttl)) (put_all session []) h
        (rw posted.is_session refl)
        (sym (
            lookup-create w.redis of session config.ttl (key_of id) missing
            ∙ rw (str_eq-key_of id of) (rw same refl))
          ∙ found)
    where
      if_waiting :
          (b : Bool) (x h : Hash)
          → is_waiting x ≡ true
          → (if b then some x else none) ≡ some h
          → is_waiting h ≡ true
      if_waiting true x h k same = ap is_waiting (some_inj.0 (sym same)) ∙ k
      if_waiting false x h k same = absurd (none-ne-some h same)

  pub create-Change :
      (w : World) (of created_at : String)
      → is_new of w ≡ true
      → lookup w.redis (key_of of) ≡ none
      → (embedding : Option Value) (body : Value) (reply : Reply) (s : Redis)
      → Created py config of created_at embedding body w.redis reply s
      → Change py config id w (record w {
        redis = s;
        requests = record { session_id = of; body = body; embedding = embedding } ∷ w.requests;
        created = (of, lookup s (key_of of)) ∷ w.created;
      })
  unfolding Store.create_session hset expire
  create-Change w of created_at fresh missing vector body _ _ (rejected reply h) = quiet (record {
    no_more = λ h found. found;
    same_messages = refl;
    same_successes = refl;
    was_new = λ is. (neither _ _ is).1;
  })
  create-Change w of created_at fresh missing vector body _ _ (stored reply session posted) =
      elim (Bool-cases (str_eq id of)) [
        | inl same ↦ starts (record {
          is_first = rw (str_eq-path same) fresh;
          not_again = rw same refl;
          waits_first = first_found w of created_at vector body session missing posted same;
          same_messages = refl;
          same_successes = refl;
        })
        | inr other ↦ quiet (record {
          no_more =
              λ h found. sym (create-apart w.redis id of session config.ttl other missing) ∙ found;
          same_messages = refl;
          same_successes = refl;
          was_new = λ is. (neither _ _ is).1;
        })
      ]

  pub finish-Change :
      (w : World) (p : Pending) (ws : List Pending) (embedding : Option Value) (reply : Reply)
      (s : Redis)
      → Finished py config p embedding w.redis reply s
      → Change py config id w
          (record w { redis = s; waiting = ws; replies = (p.session_id, reply) ∷ w.replies })
  unfolding hset
  finish-Change w p ws given _ _ (refused reply h) = quiet (record {
    no_more = λ h found. found;
    same_messages = refl;
    same_successes = rw (and_false (str_eq p.session_id id) _ h) refl;
    was_new = λ is. is;
  })
  finish-Change w p ws given _ _
        (decided reply embedding passed score h same_given scored judged found unsettled heard_of) =
      elim (Bool-cases (str_eq p.session_id id)) [
        | inl same ↦ settles (
            subst
              (λ j. Settles py config j w (record w {
                redis = decide py config passed p score w.redis;
                waiting = ws;
                replies = (p.session_id, reply) ∷ w.replies;
              }))
              (str_eq-path same)
              (settled_own py config p passed score w ws reply h
                (record { about = refl; embedding = embedding; scored = scored; judged = judged })
                found unsettled heard_of))
        | inr other ↦ quiet (record {
          no_more = λ g there.
              sym (decide-apart py config p passed score w.redis id h other found) ∙ there;
          same_messages =
              publish-apart (hset (key_of p.session_id) (updates py passed p score) w.redis) id
                p.session_id _ other;
          same_successes = rw other refl;
          was_new = λ is. is;
        })
      ]
