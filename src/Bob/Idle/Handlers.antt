-- ===== src/Bob/Idle/Handlers.antt =====
-- static/js/session.js: the handlers of Bob's tab that make one thing of an idle tab.
use doppelganger_web.Prelude.{ℕ, String, [], ◌≡◌}
use doppelganger_web.Exec.{Error, Result, throw, lift}
use doppelganger_web.Exec.Keeps.{Keeps}
use doppelganger_web.Exec.Ends.{Ends}
use doppelganger_web.Value.{Value, Engine}
use doppelganger_web.Crypto.{Key, Response}
use doppelganger_web.Bob.Open.{
  init_failed, fetch_failed, fetch_session, on_init_exported, on_session_answered, show_challenge,
  on_session_read,
}
use doppelganger_web.Bob.Answer.{
  submit_failed, on_submit_fetched, on_gone, throw_refusal, on_pass, on_fail, on_scored,
  on_submit_answered, on_pass_derived,
}
use doppelganger_web.Bob.Phase.{Core, HasKey, Posted}
use doppelganger_web.Bob.Idle.{
  AtCore, enabled-AtCore, at_rules, InvTab, show-Ends, again-Ends, import-Ends, fetch-Ends,
  read-Ends, read_answer-Ends,
}

module _ (export : Key → Value) where
  module _ (c : Core) (idle : c.jobs ≡ []) where
    module _ (engine : Engine) where
      pub init_failed-At : (e : Error) → Keeps (AtCore c) (init_failed engine e)
      unfolding init_failed
      init_failed-At e = search at_rules

      fetch_failed-Ends : (e : Error) → Ends (AtCore c) (InvTab export) (fetch_failed engine e)
      unfolding fetch_failed
      fetch_failed-Ends e = search (at_rules, (show-Ends export c idle)) depth 9

      pub fetch_session-Ends :
          (id : String) → Ends (AtCore c) (InvTab export) (fetch_session engine id)
      unfolding fetch_session
      fetch_session-Ends id =
          search (at_rules, (fetch-Ends export c idle), fetch_failed-Ends) depth 9

      pub on_init_exported-Ends :
          HasKey c
          → (id : String) (r : Result Value)
          → Ends (AtCore c) (InvTab export) (on_init_exported engine id r)
      unfolding on_init_exported
      on_init_exported-Ends key id r =
          search
            (
              at_rules,
              fetch_session-Ends,
              init_failed-At,
              λ (html : String). enabled-AtCore c html key,
            )
            depth 14

      pub on_session_answered-Ends :
          (id : String) (r : Result Response)
          → Ends (AtCore c) (InvTab export) (on_session_answered engine id r)
      unfolding on_session_answered
      on_session_answered-Ends id r =
          search (at_rules, (show-Ends export c idle), (read-Ends export c idle), fetch_failed-Ends)
            depth 12

      show_challenge-Ends :
          (v w : Value) → Ends (AtCore c) (InvTab export) (show_challenge engine v w)
      unfolding show_challenge
      show_challenge-Ends v w = search (at_rules, (show-Ends export c idle)) depth 12

      pub on_session_read-Ends :
          (r : Result Value) → Ends (AtCore c) (InvTab export) (on_session_read engine r)
      unfolding on_session_read
      on_session_read-Ends r =
          search (at_rules, (show-Ends export c idle), show_challenge-Ends, fetch_failed-Ends) depth
            12

      pub submit_failed-Ends :
          HasKey c → (e : Error) → Ends (AtCore c) (InvTab export) (submit_failed engine e)
      unfolding submit_failed
      submit_failed-Ends key e = search (at_rules, (again-Ends export c idle) key) depth 9

      pub on_submit_fetched-Ends :
          Posted export c
          → (r : Result Response) → Ends (AtCore c) (InvTab export) (on_submit_fetched engine r)
      unfolding on_submit_fetched
      on_submit_fetched-Ends p r =
          search (at_rules, (read_answer-Ends export c idle) p, submit_failed-Ends (p.keys, p.held))
            depth 9

      on_gone-Ends : (n : ℕ) (v : Value) → Ends (AtCore c) (InvTab export) (on_gone engine n v)
      unfolding on_gone
      on_gone-Ends n v = search (at_rules, (show-Ends export c idle)) depth 9

      refused-Ends : (e : Error) → Ends {A = Unit {0}} (AtCore c) (InvTab export) (lift (throw e))
      unfolding lift
      refused-Ends e = record { after = λ t n. n }

      throw_refusal-Ends :
          (n : ℕ) (v : Value) → Ends (AtCore c) (InvTab export) (throw_refusal engine n v)
      unfolding throw_refusal
      throw_refusal-Ends n v = search (at_rules, refused-Ends) depth 9

      on_pass-Ends :
          Posted export c → (v : Value) → Ends (AtCore c) (InvTab export) (on_pass engine v)
      unfolding on_pass
      on_pass-Ends p v = search (at_rules, (import-Ends export c idle) p) depth 12

      on_fail-Ends : (v w : Value) → Ends (AtCore c) (InvTab export) (on_fail engine v w)
      unfolding on_fail
      on_fail-Ends v w = search (at_rules, (show-Ends export c idle)) depth 12

      on_scored-Ends :
          Posted export c → (v : Value) → Ends (AtCore c) (InvTab export) (on_scored engine v)
      unfolding on_scored
      on_scored-Ends p v = search (at_rules, on_pass-Ends p, on_fail-Ends) depth 12

      pub on_submit_answered-Ends :
          Posted export c
          → (n : ℕ) (r : Result Value)
          → Ends (AtCore c) (InvTab export) (on_submit_answered engine n r)
      unfolding on_submit_answered
      on_submit_answered-Ends p n r =
          search
            (
              at_rules,
              on_gone-Ends,
              throw_refusal-Ends,
              on_scored-Ends p,
              submit_failed-Ends (p.keys, p.held),
            )
            depth 9

      pub on_pass_derived-Ends :
          HasKey c
          → (v : Value) (r : Result Key)
          → Ends (AtCore c) (InvTab export) (on_pass_derived engine v r)
      unfolding on_pass_derived
      on_pass_derived-Ends key v r =
          search (at_rules, (show-Ends export c idle), submit_failed-Ends key) depth 12
