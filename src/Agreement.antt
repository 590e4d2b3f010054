-- ===== src/Agreement.antt =====
-- static/js/session.js and static/js/crypto.js: the key exchange of the two tabs.
mod Tests
use doppelganger_web.Prelude.{
  ℕ, String, Bool, true, false, not, ◌&&◌, ◌||◌, ◌==◌, str_eq, if◌then◌else◌, List, [], ◌∷◌, ◌++◌,
  ◌≡◌, refl, sym, ap, ◌∙◌, Option, none, some, All,
}
use doppelganger_web.Exec.{Result, ok, throw, raised, run, lift, ◌>>=◌, attempt}
use doppelganger_web.Value.{Value, Engine}
use doppelganger_web.Crypto.{
  Key, KeyPair, Awaited, Call, import_key, derive_key, import_public_key, derive_shared_key,
  private_key, Algorithm, curve, cipher,
}
use doppelganger_web.Crypto.Cipher
use doppelganger_web.Crypto.Cipher.{Cipher, IsLawful, IsByte, Message, length, has_mark}
use doppelganger_web.Alice
use doppelganger_web.Alice.{verified_derived}
use doppelganger_web.Alice.Stream.{on_verified_imported}
use doppelganger_web.Bob
use doppelganger_web.Bob.{pass_derived}
use doppelganger_web.Bob.Answer.{submit_failed, on_pass_imported}

-- ECDH as the browser offers it: a public key that is exported and taken in again is the same key, and
-- two key pairs give one shared key, whichever side derives it.
pub record KeyExchange : Type 0 where
  pub is_pair : KeyPair → Bool
  pub export_jwk : Key → Value
  pub import_jwk : Value → Option Key
  pub derive : Key → Key → Option Key
  pub import-export :
      (a : KeyPair) → is_pair a ≡ true → import_jwk (export_jwk a.public_key) ≡ some a.public_key
  pub derive_comm :
      (a b : KeyPair)
      → is_pair a ≡ true
      → is_pair b ≡ true
      → derive a.private_key b.public_key ≡ derive b.private_key a.public_key
  pub derive_total :
      (a b : KeyPair)
      → is_pair a ≡ true
      → is_pair b ≡ true
      → (k : Key) × (derive a.private_key b.public_key ≡ some k)

abbrev or_reject : Option Key → Result Key
or_reject none = throw (raised "DataError")
or_reject (some k) = ok k

-- The algorithm that the keys of this exchange are imported for.
abbrev is_p256 : Algorithm → Bool
is_p256 (curve name named_curve) = str_eq name "ECDH" && str_eq named_curve "P-256"
is_p256 (cipher name n) = false

-- A key that can be derived from it.
abbrev is_aes_gcm : Algorithm → Bool
is_aes_gcm (cipher name n) = str_eq name "AES-GCM" && (n == 128 || (n == 192 || n == 256))
is_aes_gcm (curve name named_curve) = false

-- Some usage is named.
abbrev is_used : List String → Bool
is_used [] = false
is_used (u ∷ us) = true

-- How the browser settles the calls that give a key: a public ECDH key is read from a jwk, and has no use of
-- its own; only ECDH takes two keys, and here AES-GCM is what they are derived for.
abbrev pub answer : KeyExchange → Call Awaited.key → Result Key
answer x (import_key format v alg extractable usages) =
    if not (str_eq format "jwk")
    then throw (raised "TypeError")
    else if not (is_p256 alg)
    then throw (raised "NotSupportedError")
    else if is_used usages
    then throw (raised "SyntaxError")
    else or_reject (x.import_jwk v)
answer x (derive_key name theirs own alg extractable usages) =
    if not (str_eq name "ECDH" && is_aes_gcm alg)
    then throw (raised "NotSupportedError")
    else if not (is_used usages)
    then throw (raised "SyntaxError")
    else or_reject (x.derive own theirs)

-- One side: the key of the other side has been taken in, and the derivation is under way.
module _ (x : KeyExchange) (a b : KeyPair) (is_a : x.is_pair a ≡ true)
    (is_b : x.is_pair b ≡ true) where
  pub imported : answer x (import_public_key (x.export_jwk b.public_key)) ≡ ok b.public_key
  unfolding import_public_key
  imported = ap or_reject (x.import-export b is_b)

  derived :
      answer x (derive_shared_key a.private_key b.public_key)
      ≡ or_reject (x.derive a.private_key b.public_key)
  unfolding derive_shared_key
  derived = refl

  alice_derives :
      (event : Value) (t : Alice.Tab)
      → t.key_pair ≡ some a
      → (run
          (on_verified_imported event (answer x (import_public_key (x.export_jwk b.public_key))))
          t).jobs
        ≡ t.jobs
          ++ Alice.job (derive_shared_key a.private_key b.public_key) (verified_derived event) ∷ []
  unfolding on_verified_imported ◌>>=◌ Alice.await
  alice_derives event t held = rw imported (
      ap
        (λ own.
          (run
            (lift (private_key own) >>= λ own_key.
              Alice.await (derive_shared_key own_key b.public_key) (verified_derived event))
            t).jobs)
        held)

  bob_derives :
      (engine : Engine) (answered : Value) (t : Bob.Tab)
      → t.key_pair ≡ some a
      → (run
          (on_pass_imported engine answered
            (answer x (import_public_key (x.export_jwk b.public_key))))
          t).jobs
        ≡ t.jobs
          ++ Bob.job (derive_shared_key a.private_key b.public_key) (pass_derived answered) ∷ []
  unfolding on_pass_imported attempt ◌>>=◌ Bob.await
  bob_derives engine answered t held = rw imported (
      ap
        (λ own.
          (run
            (attempt
              (lift (private_key own) >>= λ own_key.
                Bob.await (derive_shared_key own_key b.public_key) (pass_derived answered))
              (submit_failed engine))
            t).jobs)
        held)

module _ (x : KeyExchange) (a b : KeyPair) (is_a : x.is_pair a ≡ true)
    (is_b : x.is_pair b ≡ true) where
  pub shared :
      (k : Key) × (answer x (derive_shared_key a.private_key b.public_key) ≡ ok k)
      × (answer x (derive_shared_key b.private_key a.public_key) ≡ ok k)
  shared =
      let (k, made) = x.derive_total a b is_a is_b in
      (
        k,
        derived x a b is_a is_b ∙ ap or_reject made,
        derived x b a is_b is_a ∙ ap or_reject (sym (x.derive_comm a b is_a is_b) ∙ made),
      )

  -- Let `a` and `b` be key pairs of a browser that keeps the laws of the key exchange. Let the tab
  -- of Alice hold the pair `a` and take in Bob's exported key from a VERIFIED event, and the tab
  -- of Bob hold the pair `b` and take in Alice's exported key from a PASS. Then each asks the
  -- browser to derive a key, and both requests are answered with the same key.
  pub same_shared_key :
      (engine : Engine) (event answered : Value) (t : Alice.Tab) (u : Bob.Tab)
      → t.key_pair ≡ some a
      → u.key_pair ≡ some b
      → (c : Call Awaited.key) × (d : Call Awaited.key) × (k : Key) × ((run
            (on_verified_imported event (answer x (import_public_key (x.export_jwk b.public_key))))
            t).jobs
          ≡ t.jobs ++ Alice.job c (verified_derived event) ∷ [])
        × ((run
              (on_pass_imported engine answered
                (answer x (import_public_key (x.export_jwk a.public_key))))
              u).jobs
            ≡ u.jobs ++ Bob.job d (pass_derived answered) ∷ [])
        × (answer x c ≡ ok k)
        × (answer x d ≡ ok k)
  same_shared_key engine event answered t u held_a held_b =
      let (k, by_alice, by_bob) = shared in
      (
        derive_shared_key a.private_key b.public_key,
        derive_shared_key b.private_key a.public_key,
        k,
        alice_derives x a b is_a is_b event t held_a,
        bob_derives x b a is_b is_a engine answered u held_b,
        by_alice,
        by_bob,
      )

  -- If the browser keeps the laws of the key exchange and of the cipher, the two derivations are
  -- answered with the keys `alice_key` and `bob_key`, the vector is made of bytes, AES-GCM encrypts
  -- the text, the vector and the encrypted bytes are not too many for the arguments of one call, and
  -- the text does not start with U+FEFF, then what is encrypted under the one key is decrypted under
  -- the other: the text comes back.
  pub channel_roundtrip :
      (c : Cipher) (laws : IsLawful c) (alice_key bob_key : Key) (iv sealed : List ℕ)
      (plaintext : String)
      → answer x (derive_shared_key a.private_key b.public_key) ≡ ok alice_key
      → answer x (derive_shared_key b.private_key a.public_key) ≡ ok bob_key
      → All IsByte iv
      → c.encrypt_bytes alice_key iv (c.encode plaintext) ≡ ok sealed
      → c.takes_arguments (length iv) ≡ true
      → c.takes_arguments (length sealed) ≡ true
      → has_mark plaintext ≡ false
      → (m : Message) × (Cipher.encrypt c iv alice_key plaintext ≡ ok m)
        × (Cipher.decrypt c bob_key m.iv m.ciphertext ≡ ok plaintext)
  channel_roundtrip c laws alice_key bob_key iv sealed plaintext by_alice by_bob small made iv_fits
        fits unmarked =
      let (k, alice_is, bob_is) = shared in
      let one : alice_key ≡ bob_key = cc in
      rw (← one) (
        Cipher.decrypt-encrypt c laws iv alice_key plaintext sealed small made iv_fits fits
          unmarked)
