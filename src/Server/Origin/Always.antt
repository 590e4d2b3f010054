-- ===== src/Server/Origin/Always.antt =====
-- app/routes/verify.py: in every world of the server, what is found of a session, and what a request to verify
-- has found, stems from the session as it was created.
use mathlib.Core.Option.{some_inj, none-ne-some}
use doppelganger_web.Prelude.{
  String, List, ◌∷◌, ◌≡◌, sym, ◌∙◌, subst, Option, none, some, str_eq, All, All-without, Bool-cases,
  inl, inr,
}
use doppelganger_web.Exec.{Result, lift, ◌>>=◌, and_then, pure}
use doppelganger_web.Value.{Value}
use doppelganger_web.Server.{Python, Config, Reply}
use doppelganger_web.Server.Redis.{Hash, Redis, lookup, delete, Link, up, down, cut, call}
use doppelganger_web.Server.Store.{create_session, key_of, get, delete_session, terminal_event}
use doppelganger_web.Server.Scoring.{Pending, Begun}
use doppelganger_web.Server.Session.{get_session, delete_route, serve}
use doppelganger_web.Server.Effects.{decide, Finished, refused, decided, finish-Finished}
use doppelganger_web.Server.Starts.{
  Created, rejected, stored, Began, failed, answered, waiting, create_session-Created, begin-Began,
}
use doppelganger_web.Server.Lookup.{delete-less, lookup-later, str_eq-path}
use doppelganger_web.Server.Run.{
  World, begun, Step, creates, begins, finishes, reads, deletes, checks, passes, Reach, started,
  stepped, after_create, after_begin, after_finish, after_read, after_delete, after_check, start,
}
use doppelganger_web.Server.Once.{IsValid}
use doppelganger_web.Server.Once.Steps.{create-apart, decide-apart, found_decided}
use doppelganger_web.Server.Once.Always.{reach-IsValid}
use doppelganger_web.Server.Origin.{
  Stems, Stems-grow, All-Stems-grow, Stems-new, Stems-updated, AllStem,
}

module _ (w : World) (h : AllStem w) where
  fewer :
      (r : Redis)
      → ((id : String) (g : Hash)
          → lookup r (key_of id) ≡ some g
          → lookup w.redis (key_of id) ≡ some g)
      → AllStem (record w { redis = r })
  fewer r f = record {
    sessions = λ id g found. h.sessions id g (f id g found);
    pending = h.pending;
  }

  deleted : (link : Link) (of : String) → AllStem (after_delete link of w)
  unfolding after_delete delete_route delete_session serve call ◌>>=◌ and_then pure delete
  deleted up of = fewer _ (λ id. delete-less w.redis (key_of of) (key_of id))
  deleted down of = fewer _ (λ id g found. found)
  deleted cut of = fewer _ (λ id. delete-less w.redis (key_of of) (key_of id))

  read : (link : Link) (of : String) → AllStem (after_read link of w)
  unfolding after_read get_session get serve call ◌>>=◌ and_then lift
  read up of = fewer _ (λ id g found. found)
  read down of = fewer _ (λ id g found. found)
  read cut of = fewer _ (λ id g found. found)

  checked :
      (py : Python) (config : Config) (link : Link) (of : String)
      → AllStem (after_check py config link of w)
  unfolding after_check terminal_event call ◌>>=◌ and_then lift
  checked py config up of = fewer _ (λ id g found. found)
  checked py config down of = fewer _ (λ id g found. found)
  checked py config cut of = fewer _ (λ id g found. found)

  begun_stems :
      (of : String) (r : Redis) (result : Result Begun)
      → Began of w.redis result
      → r ≡ w.redis
      → AllStem (begun of result (record w { redis = r }))
  begun_stems of r result began same =
      subst (λ s. AllStem (begun of result (record w { redis = s }))) (sym same)
        (by_result result began)
    where
      by_result : (result : Result Begun) → Began of w.redis result → AllStem (begun of result w)
      by_result _ (failed e) = record { sessions = h.sessions; pending = h.pending }
      by_result _ (answered reply refusing) = record { sessions = h.sessions; pending = h.pending }
      by_result _ (waiting p about found) = record {
        sessions = h.sessions;
        pending = (
          subst (λ id. Stems w.created id p.session) (sym about) (h.sessions of p.session found),
          h.pending,
        );
      }

  module _ (py : Python) (config : Config) where
    created_stems :
        (of created_at : String) (embedding : Option Value) (body : Value)
        → lookup w.redis (key_of of) ≡ none
        → (reply : Reply) (s : Redis)
        → Created py config of created_at embedding body w.redis reply s
        → AllStem (record w {
          redis = s;
          requests = record { session_id = of; body = body; embedding = embedding } ∷ w.requests;
          created = (of, lookup s (key_of of)) ∷ w.created;
        })
    created_stems of created_at embedding body missing _ _ (rejected reply refusing) = record {
      sessions = λ id g found. Stems-grow _ _ id g (h.sessions id g found);
      pending = All-Stems-grow _ _ w.waiting h.pending;
    }
    created_stems of created_at embedding body missing _ _ (stored reply session posted) = record {
      sessions = λ id g found. elim (Bool-cases (str_eq id of)) [
        | inl same ↦
            Stems-new w.created id of g (create_session of session config.ttl w.redis).1
              (str_eq-path same) found
        | inr other ↦ Stems-grow _ _ id g (
            h.sessions id g
              (sym (create-apart w.redis id of session config.ttl other missing) ∙ found))
      ];
      pending = All-Stems-grow _ _ w.waiting h.pending;
    }

    finished_stems :
        (p : Pending) (ps : List Pending) (embedding : Option Value) (reply : Reply) (s : Redis)
        → All (λ q. Stems w.created q.session_id q.session) ps
        → Finished py config p embedding w.redis reply s
        → AllStem
            (record w { redis = s; waiting = ps; replies = (p.session_id, reply) ∷ w.replies })
    finished_stems p ps given _ _ others (refused reply refusing) = record {
      sessions = h.sessions;
      pending = others;
    }
    finished_stems p ps given _ _ others
          (decided reply embedding passed score g same_given scored judged found unsettled
            heard_of) =
        record {
          sessions = λ id i there. elim (Bool-cases (str_eq p.session_id id)) [
            | inl same ↦
                subst (λ j. Stems w.created j i) (str_eq-path same)
                  (subst (Stems w.created p.session_id)
                    (some_inj.0 (
                      sym (found_decided py config p passed score w.redis g found)
                      ∙ subst
                          (λ j.
                            lookup (decide py config passed p score w.redis) (key_of j) ≡ some i)
                          (sym (str_eq-path same)) there))
                    (Stems-updated py passed p score w.created p.session_id g
                      (h.sessions p.session_id g found)))
            | inr other ↦
                h.sessions id i
                  (sym (decide-apart py config p passed score w.redis id g other found) ∙ there)
          ];
          pending = others;
        }

module _ (py : Python) (config : Config) where
  step-AllStem :
      (w v : World)
      → Step py config w v
      → ((id : String) → IsValid py config id w)
      → AllStem w
      → AllStem v
  unfolding after_create after_finish after_begin
  step-AllStem _ _ (creates w link of created_at embedding body fresh) valid h =
      created_stems w h py config of created_at embedding body ((valid of).new fresh).0 _ _
        (create_session-Created py config of created_at embedding body w.redis link)
  step-AllStem _ _ (begins w link of body) valid h =
      begun_stems w h of _ _ (begin-Began of w.redis link body).0
        (begin-Began of w.redis link body).1
  step-AllStem _ _ (finishes w link before p after embedding there) valid h =
      finished_stems w h py config p _ embedding _ _
        (All-without _ before after p
          (subst (All (λ q. Stems w.created q.session_id q.session)) there h.pending))
        (finish-Finished py config link p embedding w.redis)
  step-AllStem _ _ (reads w link of) valid h = read w h link of
  step-AllStem _ _ (deletes w link of) valid h = deleted w h link of
  step-AllStem _ _ (checks w link of) valid h = checked w h py config link of
  step-AllStem _ _ (passes w n) valid h = fewer w h _ (λ id. lookup-later w.redis n (key_of id))

  start-AllStem : AllStem start
  start-AllStem = record { sessions = λ id h found. absurd (none-ne-some h found); pending = tt }

  pub reach-AllStem : (w : World) → Reach py config w → AllStem w
  reach-AllStem _ started = start-AllStem
  reach-AllStem _ (stepped w v before step) =
      step-AllStem w v step (reach-IsValid py config w before) (reach-AllStem w before)
