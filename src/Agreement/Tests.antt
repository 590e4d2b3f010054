-- ===== src/Agreement/Tests.antt =====
-- A key exchange that has the laws, and the two sides of one session.
use doppelganger_web.Prelude.{
  ℕ, zero, suc, ◌+◌, true, [], ◌∷◌, ◌++◌, ◌≡◌, refl, ap, Option, some, none, arith, ◌==◌,
}
use doppelganger_web.Exec.{ok, run}
use doppelganger_web.Value.{
  Value, Items, nil, cons, null, str, num, arr, obj, object, count_items, Engine,
}
use doppelganger_web.Crypto.{Key, KeyPair, Call, Awaited, import_public_key, derive_shared_key}
use doppelganger_web.Crypto.Cipher
use doppelganger_web.Crypto.Cipher.{Message}
use doppelganger_web.Crypto.Cipher.Tests.{plain_cipher, plain_cipher-IsLawful}
use doppelganger_web.Alice
use doppelganger_web.Alice.{verified_derived}
use doppelganger_web.Alice.Stream.{on_verified_imported}
use doppelganger_web.Bob
use doppelganger_web.Bob.{pass_derived}
use doppelganger_web.Bob.Answer.{on_pass_imported}
use doppelganger_web.Agreement.{KeyExchange, answer, same_shared_key, channel_roundtrip}

-- A key is exported as a list of its length.
abbrev nulls : ℕ → Items
nulls zero = nil
nulls (suc n) = cons null (nulls n)

abbrev read : Value → Option Key
read (arr xs) = some (count_items xs)
read v = none

count_items-nulls : (n : ℕ) → count_items (nulls n) ≡ n
count_items-nulls zero = refl
count_items-nulls (suc n) = ap suc (count_items-nulls n)

sums_agree :
    (a b : KeyPair)
    → (a.public_key == a.private_key) ≡ true
    → (b.public_key == b.private_key) ≡ true
    → some (a.private_key + b.public_key) ≡ some (b.private_key + a.public_key)
sums_agree a b h k = ap some (ground arith)

-- In a pair the two halves are one number, and the shared key is the sum of a half of each side.
abbrev sums : KeyExchange
sums = record {
  is_pair = λ a. a.public_key == a.private_key;
  export_jwk = λ k. arr (nulls k);
  import_jwk = read;
  derive = λ own theirs. some (own + theirs);
  import-export = λ a h. ap some (count_items-nulls a.public_key);
  derive_comm = sums_agree;
  derive_total = λ a b h k. (a.private_key + b.public_key, refl);
}

abbrev alice_pair : KeyPair
alice_pair = record { public_key = 3; private_key = 3 }

abbrev bob_pair : KeyPair
bob_pair = record { public_key = 4; private_key = 4 }

abbrev engine : Engine
engine = record {
  type_message = λ k. "cannot read";
  syntax_message = "unexpected token";
  to_fixed = λ n s. s;
  json_parse = λ s. none;
}

abbrev event : Value
event = obj (object (("event", str "VERIFIED") ∷ ("score", num "91.2") ∷ []))

abbrev alice : Alice.Tab
alice = record Alice.loaded { key_pair = some alice_pair }

abbrev bob : Bob.Tab
bob = record (Bob.loaded "0123456789abcdef") { key_pair = some bob_pair }

same_shared_key_example :
    (c : Call Awaited.key) × (d : Call Awaited.key) × (k : Key) × ((run
        (on_verified_imported event
          (answer sums (import_public_key (sums.export_jwk bob_pair.public_key))))
        alice).jobs
      ≡ alice.jobs ++ Alice.job c (verified_derived event) ∷ [])
    × ((run
          (on_pass_imported engine event
            (answer sums (import_public_key (sums.export_jwk alice_pair.public_key))))
          bob).jobs
        ≡ bob.jobs ++ Bob.job d (pass_derived event) ∷ [])
    × (answer sums c ≡ ok k)
    × (answer sums d ≡ ok k)
same_shared_key_example =
    same_shared_key sums alice_pair bob_pair refl refl engine event event alice bob refl refl

channel_roundtrip_example :
    (m : Message) × (Cipher.encrypt plain_cipher (1 ∷ 2 ∷ []) 7 "hello" ≡ ok m)
    × (Cipher.decrypt plain_cipher 7 m.iv m.ciphertext ≡ ok "hello")
unfolding derive_shared_key
channel_roundtrip_example =
    channel_roundtrip sums alice_pair bob_pair refl refl plain_cipher plain_cipher-IsLawful 7 7
      (1 ∷ 2 ∷ []) (plain_cipher.encode "hello") "hello" refl refl (ground arith) refl refl refl
      refl
