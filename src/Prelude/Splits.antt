-- ===== src/Prelude/Splits.antt =====
-- Where in a list a test finds its element, and what a change leaves around it.
use Prim.Native.Nat.{◌≤◌}
use mathlib.Core.Path.{◌≡◌}
use mathlib.Core.Bool.{Bool, true}
use mathlib.Core.List.{List, [], ◌∷◌, ◌++◌}
use mathlib.Core.Logic.{inl, inr}
use mathlib.Core.Option.{some}
use native.Mathlib.Omega.{arith}
use cashfb_backend.Prelude.Tests.{Bool-cases}
use cashfb_backend.Prelude.Lists.{first, change_first, tally}

module _ {ℓ} {A : Type ℓ} where
  -- The two lists are the same but for one element, which is `x` in the first and `y` in the second.
  abbrev pub Differ : A → A → List A → List A → Type ℓ
  Differ x y xs ys =
      (before : List A) × (after_ : List A) × (xs ≡ before ++ x ∷ after_)
      × (ys ≡ before ++ y ∷ after_)

  pub first-passes : (p : A → Bool) (xs : List A) (x : A) → first p xs ≡ some x → p x ≡ true
  first-passes p [] x h = absurd (ground arith)
  first-passes p (y ∷ ys) x h = elim (Bool-cases (p y)) [
    | inl hit ↦ ground (arith, hit)
    | inr miss ↦ first-passes p ys x (rw miss at h)
  ]

  -- A change leaves the list as it was but for the element that the test finds.
  pub change_first-Differ :
      (p : A → Bool) (f : A → A) (xs : List A) (x : A)
      → first p xs ≡ some x
      → Differ x (f x) xs (change_first p f xs)
  change_first-Differ p f [] x h = absurd (ground arith)
  change_first-Differ p f (y ∷ ys) x h = elim (Bool-cases (p y)) [
    | inl hit ↦ ([], ys, ground (arith, hit), ground (arith, hit))
    | inr miss ↦
        let (before, after_, was, is) = change_first-Differ p f ys x (rw miss at h) in
        (y ∷ before, after_, ground (arith, was), ground (arith, miss, is))
  ]

  counted_once :
      (q : A → Bool) (before : List A) (x : A) (after_ : List A)
      → q x ≡ true
      → 1 ≤ tally q (before ++ x ∷ after_)
  counted_once q [] x after_ h = ground (arith, h)
  counted_once q (y ∷ ys) x after_ h = ground (arith, counted_once q ys x after_ h)

  -- Where only one element passes a test, a change of the first that passes is one of that element.
  pub change_first-only :
      (q : A → Bool) (g : A → A) (before : List A) (x y : A) (after_ : List A)
      → tally q (before ++ x ∷ after_) ≤ 1
      → q x ≡ true
      → q y ≡ true
      → change_first q g (before ++ y ∷ after_) ≡ before ++ g y ∷ after_
  change_first-only q g [] x y after_ once hx hy = ground (arith, hy)
  change_first-only q g (b ∷ bs) x y after_ once hx hy = elim (Bool-cases (q b)) [
    | inl hit ↦ absurd (ground (arith, hit, counted_once q bs x after_ hx))
    | inr miss ↦
        ground (arith, miss, change_first-only q g bs x y after_ (ground (arith, miss)) hx hy)
  ]
