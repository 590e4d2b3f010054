-- ===== src/Server/Origin.antt =====
-- app/routes/verify.py: the session that an answer is scored against is the one that Alice created, and it is
-- her key that a pass releases.
pub mod Always
pub mod Posted
pub mod Fair
use mathlib.Core.List.{Memᴰ}
use mathlib.Core.Option.{some_inj, none-ne-some}
use mathlib.Core.Bool.{false≢true}
use doppelganger_web.Prelude.{
  ℕ, ◌+◌, String, Bool, true, false, not, ◌&&◌, List, [], ◌∷◌, ◌++◌, ◌≡◌, refl, sym, ap, ◌∙◌, subst,
  Option, none, some, str_eq, if◌then◌else◌, All, All-without, All-middle, Bool-cases, inl, inr,
}
use doppelganger_web.Exec.{Result, ok, throw, Exec, lift, ◌>>=◌, and_then, pure}
use doppelganger_web.Value.{Value}
use doppelganger_web.Server.{Python, Config, Reply, error_reply}
use doppelganger_web.Server.Redis.{
  Hash, hget, put_all, Redis, lookup, hset, publish, delete, Link, up, down, cut, call,
}
use doppelganger_web.Server.Store.{create_session, key_of, get, delete_session, terminal_event}
use doppelganger_web.Server.Scoring.{
  Pending, Begun, replied, waits, at_key, updates, score_of, won_reply,
}
use doppelganger_web.Server.Session.{get_session, delete_route, serve}
use doppelganger_web.Server.Verify.{finish}
use doppelganger_web.Server.Effects.{
  decide, is_success, Finished, refused, decided, Told, told, lost, finish-Finished,
}
use doppelganger_web.Server.Starts.{
  Created, rejected, stored, Began, failed, answered, waiting, create_session-Created, begin-Began,
}
use doppelganger_web.Server.Lookup.{delete-less, lookup-later, hget-put, str_eq-path, lookup-hset}
use doppelganger_web.Server.Run.{
  World, begun, Step, creates, begins, finishes, reads, deletes, checks, passes, Reach, started,
  stepped, after_create, after_begin, after_finish, after_read, after_delete, after_check, start,
  is_new,
}
use doppelganger_web.Server.Once.{IsValid}
use doppelganger_web.Server.Once.Steps.{create-apart, decide-apart, found_decided}
use doppelganger_web.Server.Once.Always.{reach-IsValid}

-- What Alice has put in is still there.
pub record Keeps (h before : Hash) : Type 0 where
  pub embedding : hget "answer_embedding" h ≡ hget "answer_embedding" before
  pub key : hget "alice_pubkey_jwk" h ≡ hget "alice_pubkey_jwk" before

abbrev pub Sessions : Type 0
Sessions = List (String × Option Hash)

-- `h` is what has become of the session that was created under the id.
pub record Stems (created : Sessions) (id : String) (h : Hash) : Type 0 where
  pub first : Hash
  pub is_created : Memᴰ (id, some first) created
  pub keeps : Keeps h first

pub Stems-grow :
    (created : Sessions) (entry : String × Option Hash) (id : String) (h : Hash)
    → Stems created id h
    → Stems (entry ∷ created) id h
Stems-grow created entry id h s = record {
  first = s.first;
  is_created = Memᴰ.tail s.is_created;
  keeps = s.keeps;
}

pub All-Stems-grow :
    (created : Sessions) (entry : String × Option Hash) (ps : List Pending)
    → All (λ p. Stems created p.session_id p.session) ps
    → All (λ p. Stems (entry ∷ created) p.session_id p.session) ps
All-Stems-grow created entry [] h = tt
All-Stems-grow created entry (p ∷ ps) (s, h) =
    (Stems-grow created entry p.session_id p.session s, All-Stems-grow created entry ps h)

-- A verdict leaves what Alice has put in.
updates-Keeps :
    (py : Python) (passed : Bool) (p : Pending) (score : String) (h : Hash)
    → Keeps (put_all (updates py passed p score) h) h
updates-Keeps py true p score h = record { embedding = simp hget-put; key = simp hget-put }
updates-Keeps py false p score h = record { embedding = simp hget-put; key = simp hget-put }

pub Stems-new :
    (created : Sessions) (id of : String) (g : Hash) (r : Redis)
    → id ≡ of
    → lookup r (key_of id) ≡ some g
    → Stems ((of, lookup r (key_of of)) ∷ created) id g
Stems-new created id of g r same found = record {
  first = g;
  is_created = Memᴰ.head (λ i. (same i, (sym found ∙ ap (λ j. lookup r (key_of j)) same) i));
  keeps = record { embedding = refl; key = refl };
}

pub Stems-updated :
    (py : Python) (passed : Bool) (p : Pending) (score : String) (created : Sessions) (id : String)
    (h : Hash)
    → Stems created id h
    → Stems created id (put_all (updates py passed p score) h)
Stems-updated py passed p score created id h s =
    let k = updates-Keeps py passed p score h in
    record {
      first = s.first;
      is_created = s.is_created;
      keeps = record { embedding = k.embedding ∙ s.keeps.embedding; key = k.key ∙ s.keeps.key };
    }

pub record AllStem (w : World) : Type 0 where
  pub sessions :
      (id : String) (h : Hash) → lookup w.redis (key_of id) ≡ some h → Stems w.created id h
  pub pending : All (λ p. Stems w.created p.session_id p.session) w.waiting
