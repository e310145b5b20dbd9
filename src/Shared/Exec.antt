-- ===== src/Shared/Exec.antt =====
-- An async method of a service: it reads and writes the collections and it may throw. What was
-- written before a throw stays written, unless a transaction takes it back.
use cashfb_backend.Prelude.{◌≡◌, refl, ◌⊎◌, inl, inr, Bool, Option, none, some, if◌then◌else◌}
use cashfb_backend.Shared.Errors.{AppError}

pub data Result (A : Type 0) : Type 0 where
  ok : A → Result A
  err : AppError → Result A

abbrev pub Exec : Type 0 → Type 0 → Type 0
Exec S A = S → Result A × S

module _ {S A : Type 0} where
  abbrev pub pure : A → Exec S A
  pure a s = (ok a, s)

  abbrev pub throw : AppError → Exec S A
  throw e s = (err e, s)

  abbrev pub gets : (S → A) → Exec S A
  gets f s = (ok (f s), s)

  -- `if (!x) throw e`
  abbrev pub or_throw : AppError → Option A → Exec S A
  or_throw e none = throw e
  or_throw e (some a) = pure a

  -- a write that also yields a value
  abbrev pub update : (S → A × S) → Exec S A
  update f s = let (a, s') = f s in (ok a, s')

module _ {S : Type 0} where
  abbrev pub modify : (S → S) → Exec S (Unit {0})
  modify f s = (ok tt, f s)

  abbrev pub throw_if : Bool → AppError → Exec S (Unit {0})
  throw_if c e s = (if c then err e else ok tt, s)

infixl 5 ◌>>=◌ ◌>>◌
abbrev pub ◌>>=◌ : {S A B : Type 0} → Exec S A → (A → Exec S B) → Exec S B
◌>>=◌ m f s = let (r, s') = m s in elim r [ ok a ↦ f a s' | err e ↦ (err e, s') ]

abbrev pub ◌>>◌ : {S A B : Type 0} → Exec S A → Exec S B → Exec S B
m >> k = m >>= λ _. k

-- The state after a call, and what it returned or threw.
abbrev pub result : {S A : Type 0} → Result A × S → Result A
result r = r.0

abbrev pub after : {S A : Type 0} → Result A × S → S
after r = r.1

pub Result-cases :
    {A : Type 0} (r : Result A) → ((a : A) × (r ≡ ok a)) ⊎ ((e : AppError) × (r ≡ err e))
Result-cases (ok a) = inl (a, refl)
Result-cases (err e) = inr (e, refl)
