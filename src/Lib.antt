-- ===== src/Lib.antt =====
-- The Doppelgänger Protocol on the web. Alice posts a memory question and her answer, and sends Bob a
-- one-time link; Bob answers, and the server scores the two answers. If Bob passes, each side gets
-- the other's public ECDH key and both derive one AES-GCM key in the browser. This library models the
-- browser's side, which is where the keys are made and the protocol is driven, and the server under app/,
-- which keeps the sessions and decides.
--
-- Parts, and the files that model them (paths are from the root of the repository):
-- - static/js/session.js, Alice: Alice.antt has the state of her tab (the variables of the closure, what
--   the code reads and writes of templates/index.html, the calls that are under way and the requests
--   sent); Alice/Start.antt has initAlice and copyLink, Alice/Create.antt create and the opening of the
--   event stream, Alice/Stream.antt the handlers of connectAliceSSE, Alice/Reset.antt reset. Alice/Run.antt
--   puts them together: what can happen in the tab, and the tabs that can come about.
-- - static/js/session.js, Bob: Bob.antt has the state, Bob/Open.antt initBob, Bob/Answer.antt submitAnswer,
--   Bob/Run.antt the steps.
-- - static/js/debug.js: Panel.antt has the panel and emit, Panel/Events.antt the emitters, Panel/Render.antt
--   the markup of an entry.
-- - static/js/crypto.js: Crypto.antt has what the code asks of the Web Crypto API, Crypto/Cipher.antt
--   encrypt, decrypt and base64. Agreement.antt puts the two tabs and the key exchange together.
-- - static/js/sse.js: Sse.antt has connectAliceSSE, which no page calls.
-- - static/js/ui.js: Ui.antt has showStep; the counters of the form are in Alice/Run.antt.
-- - app/services/session_store.py: Server/Redis.antt has the commands of Redis that it uses, Server/Store.antt
--   its operations, Server/Event.antt the events. app/utils/validators.py: Server/Validate.antt.
--   app/services/embedding_client.py: Server/Embed.antt. app/routes/session.py and app/routes/verify.py:
--   Server/Scoring.antt has what they compute, Server/Session.antt and Server/Verify.antt the routes.
--   app/routes/stream.py and app/services/event_hub.py: Server/Stream.antt has the generator and its queue.
--   Server/Run.antt puts the others together: the requests that can be served, in any order, and the worlds that
--   can come about. Server.antt has what they share and the error handlers of app/__init__.py.
-- - Exec.antt is JavaScript code that changes a state and may throw, Value.antt and Text.antt are the
--   language's values and strings as far as the code uses them.
--
-- The other files are about these: Exec/Keeps.antt and Exec/Ends.antt have the rules for code with effects;
-- Sound, Always and their children are about every tab that can come about, Phase, Idle, Exchange, Steps
-- and Activity about what is under way in one, and Outcomes about where a handler leads; Ui/Screens.antt,
-- Panel/Laws.antt, Panel/Emitters.antt and Panel/Verbatim.antt about the page and the log. Server/Starts.antt and
-- Server/Effects (its Ways and Replies for the verify route) are about how requests end, Server/Lookup.antt about what is found after a command,
-- Server/Once, Server/Origin and Server/Life about every world of the server, Server/Resend and Server/Visible
-- about what a stream and Bob get to see, Server/Stream/Last and Ends about how a stream ends and Server/Stream/Routing about which
-- messages it gets, Server/Handshake about the exchange from end to end. The modules named
-- Tests run the code on examples.
--
-- How the code corresponds. A function is named as in the source, in snake case, and a name that is
-- reserved gets a word more (open_panel). An async function is cut at each await: the part before ends
-- with `await call task`, which puts the call among the tab's jobs with the code that follows, and
-- `on_<task>` is that code, given how the promise was settled. Jobs are settled in any order, with every
-- answer, an error or a value, that `Answers` allows. A try block is `attempt` around each of its parts.
-- Every write to the page that the code makes is a field of the tab, so what was written before a throw
-- stays written. A promise that is rejected with no handler changes nothing.
--
-- What is abstracted. A number of a JSON value is the text that String(n) gives, since the code only prints,
-- tests and rounds numbers. A CryptoKey is a number that stands for the object. Engine has
-- what differs between browsers: messages of errors, toFixed and JSON.parse. Answers is what the
-- browser answers to a call, and Honest says of it that an exported key is the export of the key
-- asked for; KeyExchange and Cipher.IsLawful state what ECDH, AES-GCM, UTF-8 and base64 promise, and
-- Cipher says how many arguments a function can be called with. An object in a text is [object Object]: one
-- with a toString of its own, which the server does not send there, would throw. The time
-- of day is an argument of the markup of an entry. Calls of console.error are left out.
-- On the server a route is cut where it waits for the embedding service, each call of Redis is one step, and
-- Link says whether the call goes as it should, cannot be made, or is made and its answer lost. A float is the
-- text that repr gives, and Python has the functions of json, numpy and qrcode that the code calls, with no law
-- assumed of them; round(score * 100) raises where the score is not finite. An id that is drawn for a session belongs to no other session. A stream is a
-- generator that is resumed: each turn has its clock and what Redis answers then. The rate limiter is left out.
-- The one function on fuel is decimal_from, which prints n with fuel n + 1; Text/Decimal.antt is
-- about that fuel.
-- A slice that ends inside a surrogate pair shows the half as U+FFFD.
--
-- Not modelled: the style sheet that debug.js injects, the pages and style sheets themselves, how the hub of
-- the event streams listens to Redis, and the set-up of the application. In the two tabs the answers of the
-- server are arbitrary values.
pub mod Agreement
pub mod Alice
pub mod Bob
pub mod Crypto
pub mod Exec
pub mod Panel
pub mod Prelude
pub mod Server
pub mod Sse
pub mod Text
pub mod Ui
pub mod Value
