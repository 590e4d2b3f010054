-- ===== src/Crypto/Cipher.antt =====
-- static/js/crypto.js: `encrypt` and `decrypt`, with their base64 helpers. AES-GCM, UTF-8 and base64 are
-- the browser's; what the code relies on is stated in `IsLawful`.
pub mod Tests
use Prim.Native.Nat.{◌%◌}
use Prim.Native.String
use Prim.Native.Char.{code}
use doppelganger_web.Prelude.{
  ℕ, zero, suc, ◌<◌, String, Bool, true, false, List, [], ◌∷◌, map, ◌≡◌, refl, arith, All, ◌==◌,
  if◌then◌else◌,
}
use doppelganger_web.Exec.{Result, ok, throw, raised}
use doppelganger_web.Exec.Fallible.{◌>>=◌}
use doppelganger_web.Crypto.{Key}

-- A string of code units, as `btoa` takes it and `atob` gives it, is the list of its units. `takes_arguments`
-- says whether the engine calls a function with so many arguments.
pub record Cipher : Type 0 where
  pub encrypt_bytes : Key → List ℕ → List ℕ → Result (List ℕ)
  pub decrypt_bytes : Key → List ℕ → List ℕ → Result (List ℕ)
  pub encode : String → List ℕ
  pub decode : List ℕ → String
  pub btoa : List ℕ → Result String
  pub atob : String → Result (List ℕ)
  pub takes_arguments : ℕ → Bool

abbrev pub length : List ℕ → ℕ
length [] = zero
length (b ∷ rest) = suc (length rest)

-- The text starts with U+FEFF, the byte order mark.
abbrev pub has_mark : String → Bool
has_mark String.[] = false
has_mark (String.◌∷◌ c s) = code c == 65279

abbrev pub IsByte : ℕ → Type 0
IsByte n = n < 256

-- AES-GCM gives bytes, and decrypts what it encrypted under the same key and initialisation vector;
-- UTF-8 decodes what it encodes, but a `TextDecoder` without options drops a byte order mark at the start;
-- base64 takes all strings of bytes, and gives them back.
pub record IsLawful (c : Cipher) : Type 0 where
  pub encrypted_bytes :
      (k : Key) (iv plain sealed : List ℕ)
      → c.encrypt_bytes k iv plain ≡ ok sealed
      → All IsByte sealed
  pub decrypt-encrypt :
      (k : Key) (iv plain sealed : List ℕ)
      → c.encrypt_bytes k iv plain ≡ ok sealed
      → c.decrypt_bytes k iv sealed ≡ ok plain
  pub decode-encode : (s : String) → has_mark s ≡ false → c.decode (c.encode s) ≡ s
  pub btoa_total : (bytes : List ℕ) → All IsByte bytes → (s : String) × (c.btoa bytes ≡ ok s)
  pub atob-btoa : (bytes : List ℕ) (s : String) → c.btoa bytes ≡ ok s → c.atob s ≡ ok bytes

pub record Message : Type 0 where
  pub iv : String
  pub ciphertext : String

-- String.fromCharCode(n) keeps the low 16 bits; an element of a Uint8Array keeps the low 8.
abbrev char_codes : List ℕ → List ℕ
char_codes = map (λ n. n % 65536)

abbrev uint8s : List ℕ → List ℕ
uint8s = map (λ n. n % 256)

module _ (c : Cipher) where
  pub to_base64 : List ℕ → Result String
  to_base64 bytes =
      if c.takes_arguments (length bytes)
      then c.btoa (char_codes bytes)
      else throw (raised "RangeError")

  pub from_base64 : String → Result (List ℕ)
  from_base64 s = do units ← c.atob s; ok (uint8s units)

  -- `iv` is what `crypto.getRandomValues` fills in.
  pub encrypt : List ℕ → Key → String → Result Message
  encrypt iv shared_key plaintext = do
    encrypted ← c.encrypt_bytes shared_key iv (c.encode plaintext)
    iv_text ← to_base64 iv
    ciphertext ← to_base64 encrypted
    ok (record { iv = iv_text; ciphertext = ciphertext })

  pub decrypt : Key → String → String → Result String
  decrypt shared_key iv_b64 ciphertext_b64 = do
    iv ← from_base64 iv_b64
    ciphertext ← from_base64 ciphertext_b64
    decrypted ← c.decrypt_bytes shared_key iv ciphertext
    ok (c.decode decrypted)

char_codes_of_bytes : (bytes : List ℕ) → All IsByte bytes → char_codes bytes ≡ bytes
char_codes_of_bytes [] h = refl
char_codes_of_bytes (b ∷ rest) (small, h) = ground (arith, char_codes_of_bytes rest h)

uint8s_of_bytes : (bytes : List ℕ) → All IsByte bytes → uint8s bytes ≡ bytes
uint8s_of_bytes [] h = refl
uint8s_of_bytes (b ∷ rest) (small, h) = ground (arith, uint8s_of_bytes rest h)

module _ (c : Cipher) (laws : IsLawful c) where
  -- Bytes that the engine takes as arguments come back from base64 as they were.
  pub from_base64-to_base64 :
      (bytes : List ℕ)
      → All IsByte bytes
      → c.takes_arguments (length bytes) ≡ true
      → (s : String) × (to_base64 c bytes ≡ ok s) × (from_base64 c s ≡ ok bytes)
  unfolding to_base64 from_base64
  from_base64-to_base64 bytes small fits =
      let (s, made) = laws.btoa_total bytes small in
      (
        s,
        rw (to_base64, fits, char_codes_of_bytes bytes small) made,
        rw (laws.atob-btoa bytes s made, ◌>>=◌, uint8s_of_bytes bytes small) refl,
      )

  -- If the browser keeps the laws of the cipher, the vector is made of bytes, AES-GCM encrypts the
  -- text, the vector and the encrypted bytes are not too many for the arguments of one call, and the
  -- text does not start with U+FEFF, then `encrypt` gives a message, and `decrypt` under the same key
  -- gives the text back from it.
  pub decrypt-encrypt :
      (iv : List ℕ) (k : Key) (plaintext : String) (sealed : List ℕ)
      → All IsByte iv
      → c.encrypt_bytes k iv (c.encode plaintext) ≡ ok sealed
      → c.takes_arguments (length iv) ≡ true
      → c.takes_arguments (length sealed) ≡ true
      → has_mark plaintext ≡ false
      → (m : Message) × (encrypt c iv k plaintext ≡ ok m)
        × (decrypt c k m.iv m.ciphertext ≡ ok plaintext)
  unfolding encrypt decrypt
  decrypt-encrypt iv k plaintext sealed small made iv_fits fits unmarked =
      let (iv_text, iv_made, iv_back) = from_base64-to_base64 iv small iv_fits in
      let (text, text_made, text_back) =
        from_base64-to_base64 sealed (laws.encrypted_bytes k iv (c.encode plaintext) sealed made)
          fits in
      (
        record { iv = iv_text; ciphertext = text },
        rw (made, ◌>>=◌, iv_made, text_made) refl,
        rw
            (
              iv_back,
              text_back,
              laws.decrypt-encrypt k iv (c.encode plaintext) sealed made,
              laws.decode-encode plaintext unmarked,
            )
            refl,
      )
