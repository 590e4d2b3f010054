-- ===== src/Bob/Steps.antt =====
-- The pieces of Bob's code that change the key pair or start a call of their own.
use doppelganger_web.Prelude.{
  String, Bool, true, false, [], ◌∷◌, ◌++◌, ◌≡◌, refl, subst, sym, ap, ◌∙◌, Option, some, none,
  arith, if◌then◌else◌, str_eq, ◌||◌,
}
use doppelganger_web.Text.{trim}
use doppelganger_web.Exec.{Result, ok, throw, Exec, gets, run, ◌>>=◌, ◌>>◌, attempt}
use doppelganger_web.Exec.Keeps.{Keeps}
use doppelganger_web.Exec.Ends.{Ends, Ends-attempt, Post, Ends-bind, Ends-lift, ends_rules}
use doppelganger_web.Value.{Value, Engine}
use doppelganger_web.Ui.{show_step}
use doppelganger_web.Ui.Screens.{layout}
use doppelganger_web.Crypto.{
  Key, KeyPair, fetch, export_public_key, derive_shared_key, nothing_sent,
}
use doppelganger_web.Bob.{
  init_exported, submit_exported, submit_fetched, pass_derived, Tab, loaded, log, show, alert,
  await,
}
use doppelganger_web.Bob.Open.{init_failed, fetch_session, init_bob, on_init_generated}
use doppelganger_web.Bob.Answer.{
  verify_request, start_submit, submit_with, submit_answer, on_submit_exported, on_pass_imported,
}
use doppelganger_web.Bob.Phase.{Core, core, Posted}
use doppelganger_web.Bob.Idle.{AtCore, at_rules, Live-show, InvTab, ends_Inv, await-Inv, await-Ends}
use doppelganger_web.Bob.Idle.Handlers.{init_failed-At, fetch_session-Ends, submit_failed-Ends}

module _ (export : Key → Value) (c : Core) (idle : c.jobs ≡ []) (engine : Engine) where
  pub on_init_generated-Inv :
      (id : String) (r : Result KeyPair) (t : Tab)
      → AtCore c t
      → InvTab export (run (on_init_generated engine id r) t)
  unfolding on_init_generated attempt ◌>>=◌ await
  on_init_generated-Inv id (ok made) t n =
      await-Inv export (record c { key_pair = some made }) idle (export_public_key made.public_key)
        (init_exported id) (made, refl) (record t { key_pair = some made })
        (record {
          same = ap (λ (d : Core). record d { key_pair = some made }) n.same;
          keyed = λ e. (made, refl);
          live = n.live;
        })
  on_init_generated-Inv id (throw e) t n =
      ends_Inv export c idle (init_failed engine e >> fetch_session engine id)
        (Ends-bind _ _ (init_failed-At export c idle engine e)
          (λ u. fetch_session-Ends export c idle engine id))
        t n

  -- Reading the session id, or the key pair, gives that of the core.
  read_id-Ends :
      (f : String → Exec Tab Unit)
      → Ends (AtCore c) (InvTab export) (f c.session_id)
      → Ends (AtCore c) (InvTab export) (gets (λ t. t.session_id) >>= f)
  unfolding ◌>>=◌
  read_id-Ends f h = record {
    after = λ t n.
        subst (λ id. Post (AtCore c) (InvTab export) (f id t).0 (f id t).1)
          (ap (λ (d : Core). d.session_id) (sym n.same)) (h.after t n);
  }

  read_keys-Ends :
      (keys : KeyPair) (f : Option KeyPair → Exec Tab Unit)
      → c.key_pair ≡ some keys
      → Ends (AtCore c) (InvTab export) (f (some keys))
      → Ends (AtCore c) (InvTab export) (gets (λ t. t.key_pair) >>= f)
  unfolding ◌>>=◌
  read_keys-Ends keys f held h = record {
    after = λ t n.
        subst (λ o. Post (AtCore c) (InvTab export) (f o t).0 (f o t).1)
          (sym held ∙ ap (λ (d : Core). d.key_pair) (sym n.same)) (h.after t n);
  }

  posts-Ends :
      (name answer : String) (keys : KeyPair) (v : Value)
      → c.key_pair ≡ some keys
      → v ≡ export keys.public_key
      → Ends
          (AtCore c)
          (InvTab export)
          (await (fetch (verify_request c.session_id name answer v)) submit_fetched)
  posts-Ends name answer keys v held same =
      await-Ends export c idle (fetch (verify_request c.session_id name answer v)) submit_fetched
        (record {
          keys = keys;
          held = held;
          earlier = c.sent;
          name = name;
          answer = answer;
          last = ap (λ w. c.sent ++ verify_request c.session_id name answer w ∷ []) same;
        })

  pub on_submit_exported-Inv :
      (name answer : String) (keys : KeyPair) (r : Result Value)
      → c.key_pair ≡ some keys
      → ((v : Value) → r ≡ ok v → v ≡ export keys.public_key)
      → (t : Tab) → AtCore c t
      → InvTab export (run (on_submit_exported engine name answer r) t)
  unfolding on_submit_exported
  on_submit_exported-Inv name answer keys (throw e) held honest =
      ends_Inv export c idle (on_submit_exported engine name answer (throw e)) (
        Ends-attempt _ _ (search ends_rules) (submit_failed-Ends export c idle engine (keys, held)))
  on_submit_exported-Inv name answer keys (ok v) held honest =
      ends_Inv export c idle (on_submit_exported engine name answer (ok v)) (
        Ends-attempt _ _
          (search (at_rules, read_id-Ends, posts-Ends name answer keys v held (honest v refl)) depth
            12)
          (submit_failed-Ends export c idle engine (keys, held)))

  derives-Ends :
      (answered : Value) (theirs : Key) (p : Posted export c)
      → Ends
          (AtCore c)
          (InvTab export)
          (await (derive_shared_key p.keys.private_key theirs) (pass_derived answered))
  derives-Ends answered theirs p =
      await-Ends export c idle (derive_shared_key p.keys.private_key theirs) (pass_derived answered)
        (record {
          posted = record {
            keys = p.keys;
            held = p.held;
            earlier = p.earlier;
            name = p.name;
            answer = p.answer;
            last = nothing_sent (derive_shared_key p.keys.private_key theirs) c.sent refl ∙ p.last;
          };
          theirs = theirs;
          own = refl;
        })

  pub on_pass_imported-Inv :
      (answered : Value) (r : Result Key)
      → Posted export c
      → (t : Tab) → AtCore c t
      → InvTab export (run (on_pass_imported engine answered r) t)
  unfolding on_pass_imported
  on_pass_imported-Inv answered (throw e) p =
      ends_Inv export c idle (on_pass_imported engine answered (throw e)) (
        Ends-attempt _ _ (search ends_rules)
          (submit_failed-Ends export c idle engine (p.keys, p.held)))
  on_pass_imported-Inv answered (ok theirs) p =
      ends_Inv export c idle (on_pass_imported engine answered (ok theirs)) (
        Ends-attempt _ _
          (Ends-lift _ _
            (read_keys-Ends p.keys _ p.held (Ends-lift _ _ (derives-Ends answered theirs p))))
          (submit_failed-Ends export c idle engine (p.keys, p.held)))

module _ (export : Key → Value) where
  start_submit-Inv :
      (name answer : String) (keys : KeyPair) (t : Tab)
      → t.jobs ≡ []
      → layout t.page ≡ layout (loaded "").page
      → t.key_pair ≡ some keys
      → InvTab export (run (start_submit name answer keys) t)
  unfolding start_submit ◌>>=◌ await show
  start_submit-Inv name answer keys t idle screens held =
      await-Inv export (core t) idle (export_public_key keys.public_key)
        (submit_exported name answer) (keys, held, refl)
        (record t {
          submit_disabled = true;
          submit_label = "Submitting...";
          page = show_step "step-scoring" t.page;
        })
        (record {
          same = refl;
          keyed = λ e. (keys, held);
          live = Live-show "step-scoring" t.page refl refl screens;
        })

  submit_with-Inv :
      (keys : Option KeyPair) (name answer : String) (t : Tab)
      → InvTab export t
      → t.jobs ≡ []
      → layout t.page ≡ layout (loaded "").page
      → t.key_pair ≡ keys
      → InvTab export (run (submit_with keys name answer) t)
  unfolding submit_with alert
  submit_with-Inv none name answer t h idle screens held = h
  submit_with-Inv (some keys) name answer t h idle screens held =
      start_submit-Inv name answer keys t idle screens held

  alert-Inv : (text : String) → Keeps (InvTab export) (alert text)
  unfolding alert
  alert-Inv text = record { after = λ t n. n }

  either-Inv :
      (b : Bool) (m n : Exec Tab Unit) (t : Tab)
      → InvTab export (run m t)
      → InvTab export (run n t)
      → InvTab export (run (if b then m else n) t)
  either-Inv true m n t h k = h
  either-Inv false m n t h k = k

  pub submit_answer-Inv :
      (t : Tab)
      → InvTab export t
      → t.jobs ≡ []
      → layout t.page ≡ layout (loaded "").page
      → InvTab export (run submit_answer t)
  unfolding submit_answer ◌>>=◌
  submit_answer-Inv t h idle screens =
      either-Inv (str_eq (trim t.bob_name) "" || str_eq (trim t.bob_answer) "")
        (alert "Please fill in your name and answer.")
        (submit_with t.key_pair (trim t.bob_name) (trim t.bob_answer)) t
        ((alert-Inv "Please fill in your name and answer.").after t h)
        (submit_with-Inv t.key_pair (trim t.bob_name) (trim t.bob_answer) t h idle screens refl)

  pub init_bob-Inv : (id : String) → InvTab export (run (init_bob id) (loaded id))
  unfolding init_bob ◌>>=◌ log await show
  init_bob-Inv id = record {
    single = omega arith;
    claims = (tt, tt);
    keyed = λ e. cc;
    live = λ p. Live-show "step-loading" (loaded id).page refl refl refl;
  }
