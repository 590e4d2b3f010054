-- ===== src/Server/Handshake/Tests.antt =====
-- One exchange, with Bob's answer right after Alice's request.
use doppelganger_web.Prelude.{
  ℕ, zero, suc, ◌+◌, true, [], ◌∷◌, ◌≡◌, refl, ap, Option, none, some, arith, ◌==◌, str_eq,
  if◌then◌else◌,
}
use doppelganger_web.Exec.{ok, ◌>>=◌}
use doppelganger_web.Value.{
  Value, Items, nil, cons, null, str, num, arr, obj, Fields, object, find, count_items,
}
use doppelganger_web.Crypto.{Key, KeyPair}
use doppelganger_web.Agreement.{KeyExchange}
use doppelganger_web.Server.{Python}
use doppelganger_web.Server.Redis.{up}
use doppelganger_web.Server.Scoring.{Pending, begin_found, won_reply}
use doppelganger_web.Server.Store.{new_session}
use doppelganger_web.Server.Session.{serve, create_session}
use doppelganger_web.Server.Verify.{begin, finish}
use doppelganger_web.Server.Run.{World, start, started, begins, after_create, after_begin}
use doppelganger_web.Server.Tests.{plain_python, config, vector}
use doppelganger_web.Server.Unique.{no_step, one_more}
use doppelganger_web.Server.Handshake.{Exchanged, finish-Exchanged}

-- A key is exported with a list of its length.
abbrev nulls : ℕ → Items
nulls zero = nil
nulls (suc n) = cons null (nulls n)

abbrev export : Key → Value
export k = obj (object (("kty", str "EC") ∷ ("crv", str "P-256") ∷ ("x", arr (nulls k)) ∷ []))

abbrev read_point : Value → Option Key
read_point (arr xs) = some (count_items xs)
read_point v = none

abbrev read_key : Value → Option Key
read_key (obj fs) = read_point (find "x" fs)
read_key v = none

nulls-count : (n : ℕ) → count_items (nulls n) ≡ n
nulls-count zero = refl
nulls-count (suc n) = ap suc (nulls-count n)

added :
    (a b : KeyPair)
    → (a.public_key == a.private_key) ≡ true
    → (b.public_key == b.private_key) ≡ true
    → some (a.private_key + b.public_key) ≡ some (b.private_key + a.public_key)
added a b h k = ap some (ground arith)

abbrev exchange : KeyExchange
exchange = record {
  is_pair = λ a. a.public_key == a.private_key;
  export_jwk = export;
  import_jwk = read_key;
  derive = λ own theirs. some (own + theirs);
  import-export = λ a h. ap some (nulls-count a.public_key);
  derive_comm = added;
  derive_total = λ a b h k. (a.private_key + b.public_key, refl);
}

abbrev python : Python
python = record plain_python { loads = λ s. if str_eq s "{}" then ok (export 3) else ok (str s) }

abbrev pair : Key → KeyPair
pair k = record { public_key = k; private_key = k }

abbrev posted : Fields
posted = object (
    ("alice_name", str "Alice")
    ∷ ("memory_question", str "Where did we meet?")
    ∷ ("memory_answer", str "At the harbour")
    ∷ ("alice_pubkey_jwk", export 3)
    ∷ [])

abbrev submitted : Value
submitted = obj (
    object
      (("bob_name", str "Bob") ∷ ("answer", str "The harbour") ∷ ("bob_pubkey_jwk", export 4) ∷ []))

abbrev created : World
created = after_create python config up "id" "0" (vector "1.0") (obj posted) start

abbrev asked : World
asked = after_begin up "id" submitted created

abbrev bob : Pending
bob = record {
  session_id = "id";
  bob_name = str "Bob";
  answer = "The harbour";
  bob_jwk = export 4;
  session =
      new_session python "Alice" "Where did we meet?" (arr (cons (num "1.0") nil)) (export 3) "0";
}

finish-Exchanged_example :
    let end = serve (finish python config up bob (vector "0.91")) asked.redis in
    Exchanged python config exchange (pair 3) (pair 4) refl refl refl "id" bob end.0 end.1
unfolding after_begin after_create serve create_session begin ◌>>=◌ begin_found finish won_reply
finish-Exchanged_example =
    finish-Exchanged python config exchange (pair 3) (pair 4) refl refl refl start asked "0"
      (vector "1.0") (vector "0.91") posted up up [] [] bob refl refl refl started refl refl
      (one_more created asked no_step (begins created up "id" submitted)) refl refl refl
