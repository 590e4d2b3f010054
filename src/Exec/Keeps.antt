-- ===== src/Exec/Keeps.antt =====
-- Invariants of code with effects: `Keeps P m` says that `m` leads from states with `P` to states with
-- `P`, whether it returns or throws. One rule for each way to build such code.
use doppelganger_web.Prelude.{Bool, true, false, if◌then◌else◌}
use doppelganger_web.Exec.{Error, Result, ok, throw, Exec, lift, gets, modify, done, ◌>>=◌, attempt}

pub record Keeps {S A : Type 0} (P : S → Type 0) (m : Exec S A) : Type 0 where
  pub after : (s : S) → P s → P (m s).1

module _ {S A : Type 0} {P : S → Type 0} where
  pub Keeps-lift : (r : Result A) → Keeps P (lift r)
  unfolding lift
  Keeps-lift r = record { after = λ s h. h }

  pub Keeps-gets : (field : S → A) → Keeps P (gets field)
  unfolding gets
  Keeps-gets field = record { after = λ s h. h }

  pub Keeps-if : (b : Bool) (m n : Exec S A) → Keeps P m → Keeps P n → Keeps P (if b then m else n)
  Keeps-if true m n h k = h
  Keeps-if false m n h k = k

  pub Keeps-attempt :
      (m : Exec S A) (f : Error → Exec S A)
      → Keeps P m
      → ((e : Error) → Keeps P (f e))
      → Keeps P (attempt m f)
  unfolding attempt lift
  Keeps-attempt m f h k = record { after = λ s p. caught (m s).0 (m s).1 (h.after s p) }
    where
      caught : (r : Result A) (s : S) → P s → P (attempt (lift r) f s).1
      caught (ok a) s p = p
      caught (throw e) s p = (k e).after s p

module _ {S : Type 0} {P : S → Type 0} where
  pub Keeps-done : Keeps P done
  unfolding done
  Keeps-done = record { after = λ s h. h }

  pub Keeps-modify : (f : S → S) → ((s : S) → P s → P (f s)) → Keeps P (modify f)
  unfolding modify
  Keeps-modify f h = record { after = h }

module _ {S A B : Type 0} {P : S → Type 0} where
  continued :
      (r : Result A) (f : A → Exec S B)
      → ((a : A) → Keeps P (f a))
      → (s : S) → P s
      → P ((lift r >>= f) s).1
  unfolding ◌>>=◌
  continued (ok a) f k s p = (k a).after s p
  continued (throw e) f k s p = p

  pub Keeps-bind :
      (first : Exec S A) (rest : A → Exec S B)
      → Keeps P first
      → ((a : A) → Keeps P (rest a))
      → Keeps P (first >>= rest)
  unfolding ◌>>=◌
  Keeps-bind first rest h k = record {
    after = λ s p. continued (first s).0 rest k (first s).1 (h.after s p);
  }

pub ruleset keeps_rules =
    (Keeps-lift, Keeps-gets, Keeps-if, Keeps-attempt, Keeps-done, Keeps-modify, Keeps-bind)
