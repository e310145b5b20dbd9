-- ===== src/Prelude/Lists.antt =====
-- Lists filtered by Boolean tests and measured by native numbers.
use Prim.Native.Nat.{ℕ, zero, suc, ◌+◌, ◌≤◌}
use mathlib.Core.Path.{◌≡◌, refl}
use mathlib.Core.Bool.{Bool, true, false, ◌||◌}
use mathlib.Core.List.{List, [], ◌∷◌, ◌++◌}
use mathlib.Core.Logic.{◌⊎◌, inl, inr}
use mathlib.Core.Option.{Option, none, some}
use native.Mathlib.Omega.{arith}
use cashfb_backend.Prelude.Tests.{if◌then◌else◌, Bool-cases, is_some}

module _ {ℓ} {A : Type ℓ} where
  abbrev pub length : List A → ℕ
  length [] = 0
  length (x ∷ xs) = suc (length xs)

  -- `xs.some(p)`
  abbrev pub any : (A → Bool) → List A → Bool
  any p [] = false
  any p (x ∷ xs) = p x || any p xs

  -- `xs.filter(p)`
  abbrev pub keep : (A → Bool) → List A → List A
  keep p [] = []
  keep p (x ∷ xs) = let rest = keep p xs in if p x then x ∷ rest else rest

  -- how many elements pass the test
  abbrev pub tally : (A → Bool) → List A → ℕ
  tally p [] = 0
  tally p (x ∷ xs) = (if p x then 1 else 0) + tally p xs

  -- `xs.find(p)`
  abbrev pub first : (A → Bool) → List A → Option A
  first p [] = none
  first p (x ∷ xs) = if p x then some x else first p xs

  -- the list with `f` applied to the first element that passes
  abbrev pub change_first : (A → Bool) → (A → A) → List A → List A
  change_first p f [] = []
  change_first p f (x ∷ xs) = if p x then f x ∷ xs else x ∷ change_first p f xs

  -- the list with `f` applied to every element that passes
  abbrev pub change_all : (A → Bool) → (A → A) → List A → List A
  change_all p f [] = []
  change_all p f (x ∷ xs) = (if p x then f x else x) ∷ change_all p f xs

  abbrev pub take : ℕ → List A → List A
  take zero xs = []
  take (suc n) [] = []
  take (suc n) (x ∷ xs) = x ∷ take n xs

  abbrev pub drop : ℕ → List A → List A
  drop zero xs = xs
  drop (suc n) [] = []
  drop (suc n) (x ∷ xs) = drop n xs

  abbrev pub sum_by : (A → ℕ) → List A → ℕ
  sum_by f [] = 0
  sum_by f (x ∷ xs) = f x + sum_by f xs

module _ {ℓ κ} {A : Type ℓ} where
  -- every element satisfies `P`
  abbrev pub All : (A → Type κ) → List A → Type κ
  All P [] = Unit
  All P (x ∷ xs) = P x × All P xs

module _ {ℓ} {A : Type ℓ} where
  pub tally-append : (p : A → Bool) (xs ys : List A) → tally p (xs ++ ys) ≡ tally p xs + tally p ys
  tally-append p [] ys = omega arith
  tally-append p (x ∷ xs) ys = omega (arith, tally-append p xs ys)

  pub length-append : (xs ys : List A) → length (xs ++ ys) ≡ length xs + length ys
  length-append [] ys = omega arith
  length-append (x ∷ xs) ys = omega (arith, length-append xs ys)

  pub sum_by-append : (f : A → ℕ) (xs ys : List A) → sum_by f (xs ++ ys) ≡ sum_by f xs + sum_by f ys
  sum_by-append f [] ys = omega arith
  sum_by-append f (x ∷ xs) ys = omega (arith, sum_by-append f xs ys)

  pub length-take : (n : ℕ) (xs : List A) → length (take n xs) ≤ n
  length-take zero xs = omega arith
  length-take (suc n) [] = omega arith
  length-take (suc n) (x ∷ xs) = omega (arith, length-take n xs)

  pub any-append : (p : A → Bool) (xs ys : List A) → any p (xs ++ ys) ≡ (any p xs || any p ys)
  any-append p [] ys = refl
  any-append p (x ∷ xs) ys = ground (arith, any-append p xs ys)

module _ {ℓ κ} {A : Type ℓ} (P : A → Type κ) where
  pub All-append : (xs ys : List A) → All P xs → All P ys → All P (xs ++ ys)
  All-append [] ys h k = k
  All-append (x ∷ xs) ys (p, h) k = (p, All-append xs ys h k)

  pub All-map : (Q : A → Type κ) → ((x : A) → P x → Q x) → (xs : List A) → All P xs → All Q xs
  All-map Q f [] h = tt
  All-map Q f (x ∷ xs) (h, hs) = (f x h, All-map Q f xs hs)

  -- a property that the change keeps where it is made
  pub All-change_first :
      (p : A → Bool) (f : A → A) (xs : List A)
      → ((x : A) → p x ≡ true → P x → P (f x))
      → All P xs
      → All P (change_first p f xs)
  All-change_first p f [] keep h = tt
  All-change_first p f (x ∷ xs) keep h = elim (Bool-cases (p x)) [
    | inl hit ↦ rw hit (keep x hit h.0, h.1)
    | inr miss ↦ rw miss (h.0, All-change_first p f xs keep h.1)
  ]

module _ {ℓ} {A : Type ℓ} where
  pub is_some-first : (p : A → Bool) (xs : List A) → is_some (first p xs) ≡ any p xs
  is_some-first p [] = refl
  is_some-first p (x ∷ xs) = ground (arith, is_some-first p xs)

  -- a change that a test does not see
  pub any-change_first :
      (q p : A → Bool) (f : A → A)
      → ((x : A) → q (f x) ≡ q x)
      → (xs : List A) → any q (change_first p f xs) ≡ any q xs
  any-change_first q p f same [] = refl
  any-change_first q p f same (x ∷ xs) = ground (arith, same x, any-change_first q p f same xs)

module _ {ℓ} {A : Type ℓ} (p : A → Bool) (f : A → A) where
  pub change_first-absent : (xs : List A) → first p xs ≡ none → change_first p f xs ≡ xs
  change_first-absent [] h = refl
  change_first-absent (x ∷ xs) h = elim (Bool-cases (p x)) [
    | inl hit ↦ absurd (ground arith)
    | inr miss ↦ ground (arith, miss, change_first-absent xs)
  ]

  -- a change that leaves the element that it reaches as it is
  pub change_first-same :
      (xs : List A) (x : A) → first p xs ≡ some x → f x ≡ x → change_first p f xs ≡ xs
  change_first-same [] x h same = refl
  change_first-same (y ∷ ys) x h same = elim (Bool-cases (p y)) [
    | inl hit ↦ ground (arith, hit)
    | inr miss ↦ ground (arith, miss, change_first-same ys x (rw miss at h) same)
  ]

module _ {ℓ} {A : Type ℓ} (p : A → Bool) where
  pub first-change_first :
      (f : A → A)
      → ((x : A) → p x ≡ true → p (f x) ≡ true)
      → (xs : List A) (x : A) → first p xs ≡ some x
      → first p (change_first p f xs) ≡ some (f x)
  first-change_first f same [] x h = absurd (ground arith)
  first-change_first f same (y ∷ ys) x h = elim (Bool-cases (p y)) [
    | inl hit ↦ ground (arith, hit, same y hit)
    | inr miss ↦ ground (arith, miss, first-change_first f same ys x (rw miss at h))
  ]

  pub first-appended :
      (xs : List A) (x : A) → first p xs ≡ none → p x ≡ true → first p (xs ++ x ∷ []) ≡ some x
  first-appended [] x h mine = ground arith
  first-appended (y ∷ ys) x h mine = elim (Bool-cases (p y)) [
    | inl hit ↦ absurd (ground arith)
    | inr miss ↦ ground (arith, miss, first-appended ys x (rw miss at h) mine)
  ]

module _ {ℓ} {A : Type ℓ} (q p : A → Bool) (f : A → A) where
  -- a change that a test does not see
  pub tally-change_first :
      ((x : A) → q (f x) ≡ q x) → (xs : List A) → tally q (change_first p f xs) ≡ tally q xs
  tally-change_first same [] = refl
  tally-change_first same (x ∷ xs) = ground (arith, same x, tally-change_first same xs)

  -- a change that keeps what passes
  pub any-kept :
      ((x : A) → p x ≡ true → q x ≡ true → q (f x) ≡ true)
      → (xs : List A) → any q xs ≡ true
      → any q (change_first p f xs) ≡ true
  any-kept kept [] h = h
  any-kept kept (x ∷ xs) h = elim (Bool-cases (p x)) [
    | inl hit ↦ elim (Bool-cases (q x)) [
      | inl passes ↦ ground (arith, hit, kept x hit passes)
      | inr fails ↦ ground (arith, hit)
    ]
    | inr miss ↦ elim (Bool-cases (q x)) [
      | inl passes ↦ ground (arith, miss)
      | inr fails ↦ ground (arith, miss, any-kept kept xs (rw fails at h))
    ]
  ]

module _ {ℓ} {A : Type ℓ} (q : A → Bool) where
  pub tally-none : (xs : List A) → any q xs ≡ false → tally q xs ≡ 0
  tally-none [] h = refl
  tally-none (x ∷ xs) h = ground (arith, tally-none xs)

module _ {ℓ} {A : Type ℓ} (q p : A → Bool) (f : A → A) where
  -- what a test finds after a change that it does not see
  pub first-changed :
      ((x : A) → q (f x) ≡ q x)
      → (xs : List A) (x : A) → first q xs ≡ some x
      → (first q (change_first p f xs) ≡ some x)
        ⊎ ((p x ≡ true) × (first q (change_first p f xs) ≡ some (f x)))
  first-changed same [] x h = absurd (ground arith)
  first-changed same (y ∷ ys) x h = elim (Bool-cases (q y)) [
    | inl here ↦ elim (Bool-cases (p y)) [
      | inl hit ↦ inr (ground arith, ground (arith, hit, same y))
      | inr miss ↦ inl (ground (arith, miss))
    ]
    | inr there ↦ elim (Bool-cases (p y)) [
      | inl hit ↦ inl (ground (arith, hit, same y))
      | inr miss ↦ elim (first-changed same ys x (rw there at h)) [
        | inl kept ↦ inl (ground (arith, miss, kept))
        | inr (passes, changed) ↦ inr (passes, ground (arith, miss, changed))
      ]
    ]
  ]

module _ {ℓ} {A : Type ℓ} (q : A → Bool) where
  pub first-append : (xs ys : List A) (x : A) → first q xs ≡ some x → first q (xs ++ ys) ≡ some x
  first-append [] ys x h = absurd (ground arith)
  first-append (y ∷ xs) ys x h = elim (Bool-cases (q y)) [
    | inl here ↦ ground (arith, here)
    | inr there ↦ ground (arith, there, first-append xs ys x (rw there at h))
  ]
