-- ===== src/Server/Tests.antt =====
-- The server on one session, with functions in the place of the libraries.
use doppelganger_web.Prelude.{
  ◌==◌, ◌+◌, ◌≤◌, String, true, [], ◌∷◌, ◌++◌, ◌≡◌, ◌↔◌, refl, Option, none, some, if◌then◌else◌,
  str_eq, not,
}
use doppelganger_web.Exec.{throw, raised, ok, ◌>>=◌}
use doppelganger_web.Value.{Value, bool, nil, cons, num, str, arr, obj, Fields, object}
use doppelganger_web.Server.{Python, Config}
use doppelganger_web.Server.Redis.{lookup, up, cut}
use doppelganger_web.Server.Store.{key_of, new_session, terminal_event}
use doppelganger_web.Server.Scoring.{Pending, begin_found, won_reply}
use doppelganger_web.Server.Session.{serve, create_session, get_session}
use doppelganger_web.Server.Verify.{begin, finish}
use doppelganger_web.Server.Validate.{validate_session_create, validate_verify}
use doppelganger_web.Server.Validate.Laws.{
  IsObject, IsCreateBody, IsVerifyBody, validate_session_create-IsCreateBody,
  validate_verify-IsVerifyBody,
}
use doppelganger_web.Server.Embed.{Service, response, Client, embed}
use doppelganger_web.Server.Embed.Laws.{embed_once_more, embed-embed_once_more, embed-IsBounded}
use doppelganger_web.Server.Effects.{is_success, announcement, decide}
use doppelganger_web.Server.Effects.Ways.{Ends}
use doppelganger_web.Server.Effects.Replies.{finish-Ends}
use doppelganger_web.Server.Run.{
  World, start, after_create, after_begin, after_finish, Step, creates, begins, finishes, Reach,
  started, stepped,
}
use doppelganger_web.Server.Once.{Verdict, messages, successes}
use doppelganger_web.Server.Once.Always.{one_verdict}
use doppelganger_web.Server.Origin.Fair.{IsFair, finish-IsFair}
use doppelganger_web.Server.Life.{Refines, step-Refines}
use doppelganger_web.Server.Stream.{event_stream}
use doppelganger_web.Server.Resend.{terminal_event-decide}
use doppelganger_web.Server.Visible.{Shows, read-created}

-- A vector is a list of one number, the score of two of them is the number of the second.
abbrev first_number : Value → String
first_number (arr (cons (num n) rest)) = n
first_number v = "0.0"

abbrev text_value : Value → String
text_value (str s) = s
text_value (arr (cons (num n) rest)) = n
text_value v = "{}"

abbrev key : Value
key = obj (object (("kty", str "EC") ∷ ("crv", str "P-256") ∷ ("x", str "abc") ∷ []))

abbrev pub plain_python : Python
plain_python = record {
  dumps = text_value;
  loads = λ s. if str_eq s "{}" then ok key else ok (str s);
  array = λ v. ok v;
  norm = λ v. "1.0";
  is_zero = λ s. str_eq s "0.0";
  dot = λ v w. ok (first_number w);
  quotient = λ n a b. n;
  at_least = λ s t. str_eq s "0.91";
  is_finite = λ s. not (str_eq s "nan");
  percent = λ s. if str_eq s "0.91" then "91" else "40";
  round_to_4 = λ s. s;
  round_to_6 = λ v. ok v;
  float = λ s. ok s;
  qr_code = λ s. ok "data:image/png;base64,";
}

abbrev pub config : Config
config = record { ttl = 300; threshold = "0.75"; base_url = "https://example.org" }

abbrev create_fields : Fields
create_fields = object (
    ("alice_name", str "Alice")
    ∷ ("memory_question", str "Where did we meet?")
    ∷ ("memory_answer", str "At the harbour")
    ∷ ("alice_pubkey_jwk", key)
    ∷ [])

abbrev posted_answer : Value
posted_answer = obj (
    object (("bob_name", str "Bob") ∷ ("answer", str "The harbour") ∷ ("bob_pubkey_jwk", key) ∷ []))

abbrev pub vector : String → Option Value
vector n = some (arr (cons (num n) nil))

abbrev created : World
created = after_create plain_python config up "id" "0" (vector "1.0") (obj create_fields) start

abbrev asked : World
asked = after_begin up "id" posted_answer created

abbrev bob : Pending
bob = record {
  session_id = "id";
  bob_name = str "Bob";
  answer = "The harbour";
  bob_jwk = key;
  session =
      new_session plain_python "Alice" "Where did we meet?" (arr (cons (num "1.0") nil)) key "0";
}

asked-Reach : Reach plain_python config asked
asked-Reach =
    stepped _ _
      (stepped _ _ started (creates start up "id" "0" (vector "1.0") (obj create_fields) refl))
      (begins created up "id" posted_answer)

waiting_is : asked.waiting ≡ [] ++ bob ∷ []
unfolding after_begin after_create serve create_session begin ◌>>=◌ begin_found
waiting_is = refl

validate_session_create-IsCreateBody_example :
    (validate_session_create (obj create_fields) ≡ ok none)
    ↔ IsObject IsCreateBody (obj create_fields)
validate_session_create-IsCreateBody_example =
    validate_session_create-IsCreateBody (obj create_fields)

validate_verify-IsVerifyBody_example :
    (validate_verify posted_answer ≡ ok none) ↔ IsObject IsVerifyBody posted_answer
validate_verify-IsVerifyBody_example = validate_verify-IsVerifyBody posted_answer

-- The gateway is waking up, and then answers.
abbrev waking : Service
waking n =
    if n == 1
    then response 502 (throw (raised "ValueError"))
    else response 200
        (ok (obj (object (("success", bool true) ∷ ("vector", arr (cons (num "1.0") nil)) ∷ []))))

abbrev idle : Client
idle = record { slots = 4; posts = 0; sleeps = 0 }

embed-embed_once_more_example : embed waking idle ≡ embed_once_more waking idle
embed-embed_once_more_example = embed-embed_once_more waking idle

embed-IsBounded_example : ((embed waking idle).1.posts ≤ 0 + 2) × ((embed waking idle).1.slots ≡ 4)
embed-IsBounded_example = embed-IsBounded waking idle

embed_waits : (embed waking idle).1 ≡ record { slots = 4; posts = 2; sleeps = 1 }
unfolding embed
embed_waits = refl

abbrev answered : World
answered = after_finish plain_python config up [] bob [] (vector "0.91") asked

answered-Step : Step plain_python config asked answered
answered-Step = finishes asked up [] bob [] (vector "0.91") waiting_is

one_verdict_example :
    Verdict plain_python config "id"
      (messages "id" answered.redis.published)
      (successes "id" answered.replies)
one_verdict_example =
    one_verdict plain_python config answered (stepped _ _ asked-Reach answered-Step) "id"

step-Refines_example : Refines plain_python config "id" asked answered
step-Refines_example =
    step-Refines plain_python config "id" asked answered asked-Reach answered-Step

passes_here :
    is_success (serve (finish plain_python config up bob (vector "0.91")) asked.redis).0 ≡ true
unfolding after_begin after_create serve create_session begin ◌>>=◌ begin_found finish won_reply
passes_here = refl

finish-IsFair_example :
    let end = serve (finish plain_python config up bob (vector "0.91")) asked.redis in
    IsFair plain_python config asked bob (vector "0.91") end.0 end.1
finish-IsFair_example =
    finish-IsFair plain_python config asked [] [] bob up (vector "0.91") asked-Reach waiting_is
      passes_here

finish-Ends_example :
    let end = serve (finish plain_python config up bob (vector "0.91")) asked.redis in
    Ends plain_python config up bob (vector "0.91") asked.redis end.0 end.1
finish-Ends_example = finish-Ends plain_python config up bob (vector "0.91") asked.redis

found_here : lookup asked.redis (key_of "id") ≡ some bob.session
unfolding after_begin after_create serve create_session begin ◌>>=◌ begin_found
found_here = refl

terminal_event-decide_example :
    (messages "id" (decide plain_python config true bob "0.91" asked.redis).published
      ≡ messages "id" asked.redis.published ++ plain_python.dumps (announcement true bob "91") ∷ [])
    × ((terminal_event plain_python up "id"
          (decide plain_python config true bob "0.91" asked.redis)).0
        ≡ ok (some (announcement true bob "91")))
terminal_event-decide_example =
    terminal_event-decide plain_python config bob "Bob" "0.91" "0.91" refl refl refl refl true
      asked.redis bob.session found_here

read-created_example :
    Shows create_fields
      (serve
        (get_session up "id")
        (serve
          (create_session plain_python config up "id" "0" (vector "1.0") (obj create_fields))
          start.redis).1).0
unfolding create_session serve ◌>>=◌
read-created_example =
    read-created plain_python config "id" "0" (vector "1.0") create_fields refl up start.redis refl
      refl

-- A second answer comes too late, and an answer that is lost leaves the verdict.
second_try :
    (serve (finish plain_python config up bob (vector "0.91")) answered.redis).0.status ≡ 409
unfolding after_finish after_begin after_create serve create_session begin ◌>>=◌ begin_found finish
second_try = refl

lost_reply :
    let end = serve (finish plain_python config cut bob (vector "0.91")) asked.redis in
    (end.0.status ≡ 503) × (messages "id" end.1.published ≡ "{}" ∷ [])
unfolding after_begin after_create serve create_session begin ◌>>=◌ begin_found finish
lost_reply = (refl, refl)

no_stream : (event_stream up "id" start.redis).0 ≡ ok none
unfolding event_stream ◌>>=◌
no_stream = refl
