-- ===== src/Crypto.antt =====
-- static/js/crypto.js. The Web Crypto API is the browser's: what the code asks of it is a `Call`,
-- with every argument that the code passes; what it answers comes from outside. A CryptoKey is
-- known to the page only as an object that it cannot look into, here its number.
pub mod Cipher
use mathlib.Core.List.{append-nil}
use doppelganger_web.Prelude.{
  ◌++◌, ◌≡◌, refl, ℕ, String, Bool, true, false, List, [], ◌∷◌, Option, none, some, leb, ◌&&◌,
}
use doppelganger_web.Exec.{Result, ok, throw, type_error}
use doppelganger_web.Value.{Value, Fields}

abbrev pub Key : Type 0
Key = ℕ

pub record KeyPair : Type 0 where
  pub public_key : Key
  pub private_key : Key

-- { name, namedCurve } and { name, length }
pub data Algorithm : Type 0 where
  curve : String → String → Algorithm
  cipher : String → ℕ → Algorithm

pub record Request : Type 0 where
  pub url : String
  pub method : String
  pub headers : List (String × String)
  pub body : Option Fields

pub record Response : Type 0 where
  pub status : ℕ

-- resp.ok
abbrev pub is_ok : Response → Bool
is_ok r = leb 200 r.status && leb r.status 299

-- What a promise gives when it is fulfilled.
pub data Awaited : Type 0 where
  pair jwk key response body nothing : Awaited

abbrev pub Settled : Awaited → Type 0
Settled pair = KeyPair
Settled jwk = Value
Settled key = Key
Settled response = Response
Settled body = Value
Settled nothing = Unit {0}

-- The asynchronous calls that the code makes of the browser. `derive_key` names the public key of
-- the other side first, as the algorithm object does, and then the own private key.
pub data Call : Awaited → Type 0 where
  generate_key : Algorithm → Bool → List String → Call pair
  export_key : String → Key → Call jwk
  import_key : String → Value → Algorithm → Bool → List String → Call key
  derive_key : String → Key → Key → Algorithm → Bool → List String → Call key
  fetch : Request → Call response
  read_json : Response → Call body
  write_clipboard : String → Call nothing
  timeout : ℕ → Call nothing

-- The requests that a call sends to the server.
abbrev pub requests : {k : Awaited} → Call k → List Request
requests (fetch r) = r ∷ []
requests _ = []

unfoldable pub generate_key_pair : Call pair
generate_key_pair = generate_key (curve "ECDH" "P-256") false ("deriveKey" ∷ [])

unfoldable pub export_public_key : Key → Call jwk
export_public_key public_key = export_key "jwk" public_key

unfoldable pub import_public_key : Value → Call key
import_public_key v = import_key "jwk" v (curve "ECDH" "P-256") false []

unfoldable pub derive_shared_key : Key → Key → Call key
derive_shared_key my_private_key their_public_key =
    derive_key "ECDH" their_public_key my_private_key (cipher "AES-GCM" 256) false
      ("encrypt" ∷ "decrypt" ∷ [])

-- keys.privateKey, where `keys` may still be null.
abbrev pub private_key : Option KeyPair → Result Key
private_key none = throw (type_error "privateKey")
private_key (some keys) = ok keys.private_key

-- What the tab asks for keeps keys inside the browser: no key that it makes, takes in or derives can be
-- read out, the key of the other side has no use of its own, and a shared key only encrypts and
-- decrypts.
abbrev pub IsConfined : {k : Awaited} → Call k → Type 0
IsConfined (generate_key alg extractable usages) =
    (extractable ≡ false) × (usages ≡ "deriveKey" ∷ [])
IsConfined (import_key format v alg extractable usages) = (extractable ≡ false) × (usages ≡ [])
IsConfined (derive_key name theirs own alg extractable usages) =
    (extractable ≡ false) × (usages ≡ "encrypt" ∷ "decrypt" ∷ []) × (alg ≡ cipher "AES-GCM" 256)
IsConfined _ = Unit

pub generate_key_pair-IsConfined : IsConfined generate_key_pair
unfolding generate_key_pair
generate_key_pair-IsConfined = (refl, refl)

pub import_public_key-IsConfined : (v : Value) → IsConfined (import_public_key v)
unfolding import_public_key
import_public_key-IsConfined v = (refl, refl)

pub derive_shared_key-IsConfined : (own theirs : Key) → IsConfined (derive_shared_key own theirs)
unfolding derive_shared_key
derive_shared_key-IsConfined own theirs = (refl, refl, refl)

pub export_public_key-IsConfined : (k : Key) → IsConfined (export_public_key k)
unfolding export_public_key
export_public_key-IsConfined k = tt

-- Only a call for a response sends a request.
abbrev pub sends : Awaited → Bool
sends response = true
sends _ = false

pub nothing_sent :
    {k : Awaited} (call : Call k) (sent : List Request)
    → sends k ≡ false
    → sent ++ requests call ≡ sent
nothing_sent (fetch r) sent h = cc
nothing_sent (generate_key alg extractable usages) sent h = append-nil sent
nothing_sent (export_key format k) sent h = append-nil sent
nothing_sent (import_key format v alg extractable usages) sent h = append-nil sent
nothing_sent (derive_key name theirs own alg extractable usages) sent h = append-nil sent
nothing_sent (read_json r) sent h = append-nil sent
nothing_sent (write_clipboard s) sent h = append-nil sent
nothing_sent (timeout n) sent h = append-nil sent
