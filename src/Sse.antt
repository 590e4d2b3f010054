-- ===== src/Sse.antt =====
-- static/js/sse.js: a second way to open the stream of a session's events, with a callback. No page calls it.
use doppelganger_web.Prelude.{String, List, [], ◌∷◌, ◌++◌, ◌≡◌, refl, false}
use doppelganger_web.Exec.{ok, Exec, lift, done, run, ◌>>=◌}
use doppelganger_web.Value.{Value, Engine, to_text, parse_json, cut}
use doppelganger_web.Text.{concat}
use doppelganger_web.Alice
use doppelganger_web.Alice.{Source}
use doppelganger_web.Alice.Create

-- The sources that have been opened are the state, and the new one is returned.
unfoldable pub connect_alice_sse : Value → Exec (List Source) Source
unfolding to_text
connect_alice_sse session_id sources =
    let source : Source = record {
      url = concat ("/api/session/" ∷ to_text session_id ∷ "/stream" ∷ []);
      closed = false;
    } in
    (ok source, sources ++ source ∷ [])

module _ {S : Type 0} where
  -- es.onmessage and es.onerror, which only writes to the console
  unfoldable pub onmessage : Engine → (Value → Exec S Unit) → String → Exec S Unit
  onmessage engine on_event text = do event ← lift (parse_json engine text); on_event event

  unfoldable pub onerror : Exec S Unit
  onerror = done

-- Where the id can be shortened for the log, `create` opens the very stream that the helper would open.
pub connect_alice_sse-same :
    (session_id : Value) (short : String) (t : Alice.Tab)
    → cut 12 "" session_id ≡ ok short
    → (run (Create.connect_alice_sse session_id) t).sources
      ≡ run (connect_alice_sse session_id) t.sources
unfolding Create.connect_alice_sse connect_alice_sse ◌>>=◌ Alice.log
connect_alice_sse-same session_id short t cuts = rw cuts refl
