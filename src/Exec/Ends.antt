-- ===== src/Exec/Ends.antt =====
-- Code that prepares, changing nothing that matters, and then does one thing: `Ends N I m` says that
-- from a state with `N` the code `m` returns in a state with `I`, or throws in a state with `N` still.
use doppelganger_web.Prelude.{Bool, true, false, if◌then◌else◌}
use doppelganger_web.Exec.{Error, Result, ok, throw, Exec, lift, run, ◌>>=◌, attempt}
use doppelganger_web.Exec.Keeps.{Keeps}

abbrev pub Post : {S A : Type 0} → (S → Type 0) → (S → Type 0) → Result A → S → Type 0
Post N I (ok a) s = I s
Post N I (throw e) s = N s

pub record Ends {S A : Type 0} (N I : S → Type 0) (m : Exec S A) : Type 0 where
  pub after : (s : S) → N s → Post N I (m s).0 (m s).1

module _ {S A : Type 0} {N I : S → Type 0} where
  pub Ends-if :
      (b : Bool) (m n : Exec S A) → Ends N I m → Ends N I n → Ends N I (if b then m else n)
  Ends-if true m n h k = h
  Ends-if false m n h k = k

  caught :
      (r : Result A) (f : Error → Exec S A)
      → ((e : Error) → Ends N I (f e))
      → (s : S) → Post N I r s
      → Post N I (attempt (lift r) f s).0 (attempt (lift r) f s).1
  unfolding attempt lift
  caught (ok a) f k s p = p
  caught (throw e) f k s p = (k e).after s p

  pub Ends-attempt :
      (m : Exec S A) (f : Error → Exec S A)
      → Ends N I m
      → ((e : Error) → Ends N I (f e))
      → Ends N I (attempt m f)
  unfolding attempt lift
  Ends-attempt m f h k = record { after = λ s p. caught (m s).0 f k (m s).1 (h.after s p) }

  -- Code that leaves `N` as it is ends in `I`, if `N` gives `I`.
  pub Ends-neutral : (m : Exec S A) → ((s : S) → N s → I s) → Keeps N m → Ends N I m
  Ends-neutral m sub h = record { after = λ s p. settled (m s).0 (m s).1 (h.after s p) }
    where
      settled : (r : Result A) (s : S) → N s → Post N I r s
      settled (ok a) s p = sub s p
      settled (throw e) s p = p

  pub Ends-run : {m : Exec S A} → Ends N I m → ((s : S) → N s → I s) → (s : S) → N s → I (run m s)
  Ends-run {m} h sub s p = returned (m s).0 (m s).1 (h.after s p)
    where
      returned : (r : Result A) (u : S) → Post N I r u → I u
      returned (ok a) u q = q
      returned (throw e) u q = sub u q

module _ {S A B : Type 0} {N I : S → Type 0} where
  continued :
      (r : Result A) (f : A → Exec S B)
      → ((a : A) → Ends N I (f a))
      → (s : S) → N s
      → Post N I ((lift r >>= f) s).0 ((lift r >>= f) s).1
  unfolding ◌>>=◌
  continued (ok a) f k s p = (k a).after s p
  continued (throw e) f k s p = p

  pub Ends-bind :
      (m : Exec S A) (f : A → Exec S B)
      → Keeps N m
      → ((a : A) → Ends N I (f a))
      → Ends N I (m >>= f)
  unfolding ◌>>=◌
  Ends-bind m f h k = record { after = λ s p. continued (m s).0 f k (m s).1 (h.after s p) }

  pub Ends-lift : (a : A) (f : A → Exec S B) → Ends N I (f a) → Ends N I (lift (ok a) >>= f)
  unfolding ◌>>=◌
  Ends-lift a f h = record { after = λ s p. h.after s p }

module _ {S A B : Type 0} {N I : S → Type 0} where
  pub Ends-throw : (e : Error) (f : A → Exec S B) → Ends N I (lift (throw e) >>= f)
  unfolding ◌>>=◌
  Ends-throw e f = record { after = λ s p. p }

-- From a state with `N` the code leads to a state with `I`, whether it returns or throws.
pub record Leads {S A : Type 0} (N I : S → Type 0) (m : Exec S A) : Type 0 where
  pub after : (s : S) → N s → I (m s).1

module _ {S A : Type 0} {N I : S → Type 0} where
  led :
      (r : Result A) (f : Error → Exec S A)
      → ((e : Error) → Leads N I (f e))
      → (s : S) → Post N I r s
      → I (attempt (lift r) f s).1
  unfolding attempt lift
  led (ok a) f k s p = p
  led (throw e) f k s p = (k e).after s p

  pub Leads-attempt :
      (m : Exec S A) (f : Error → Exec S A)
      → Ends N I m
      → ((e : Error) → Leads N I (f e))
      → Leads N I (attempt m f)
  unfolding attempt lift
  Leads-attempt m f h k = record { after = λ s p. led (m s).0 f k (m s).1 (h.after s p) }

module _ {S A B : Type 0} {N I : S → Type 0} (sub : (s : S) → N s → I s) where
  leads_on :
      (r : Result A) (f : A → Exec S B)
      → ((a : A) → Leads N I (f a))
      → (s : S) → N s
      → I ((lift r >>= f) s).1
  unfolding ◌>>=◌
  leads_on (ok a) f k s p = (k a).after s p
  leads_on (throw e) f k s p = sub s p

  pub Leads-bind :
      (m : Exec S A) (f : A → Exec S B)
      → Keeps N m
      → ((a : A) → Leads N I (f a))
      → Leads N I (m >>= f)
  unfolding ◌>>=◌
  Leads-bind m f h k = record { after = λ s p. leads_on (m s).0 f k (m s).1 (h.after s p) }

pub ruleset ends_rules = (Ends-if, Ends-attempt, Ends-lift, Ends-throw, Ends-bind)
