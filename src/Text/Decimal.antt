-- ===== src/Text/Decimal.antt =====
-- The decimal digits of a number, and the fuel that `decimal` starts with.
use Prim.Native.Nat.{◌/◌, ◌%◌}
use Prim.Native.String
use doppelganger_web.Prelude.{
  ℕ, zero, suc, ◌<◌, Bool, true, false, String, ◌≡◌, refl, arith, ltb, if◌then◌else◌,
}
use doppelganger_web.Text.{digit, decimal_from, decimal}

either :
    (b : Bool) (s t u : String) → (b ≡ false → t ≡ u) → (if b then s else t) ≡ (if b then s else u)
either true s t u h = refl
either false s t u h = h refl

same_fuel :
    (f g n : ℕ) (rest : String) → n < f → n < g → decimal_from f n rest ≡ decimal_from g n rest
unfolding decimal_from
same_fuel zero g n rest h k = absurd (omega arith)
same_fuel (suc f) zero n rest h k = absurd (omega arith)
same_fuel (suc f) (suc g) n rest h k = either (ltb n 10) (String.◌++◌ (digit n) rest) _ _ (λ big.
    same_fuel f g (n / 10) (String.◌++◌ (digit (n % 10)) rest) (ground arith) (ground arith))

-- Any fuel above the number gives what `decimal` gives: its own fuel never cuts a number short.
decimal_from-decimal : (fuel n : ℕ) → n < fuel → decimal_from fuel n "" ≡ decimal n
unfolding decimal
decimal_from-decimal fuel n h = same_fuel fuel (suc n) n "" h (omega arith)
