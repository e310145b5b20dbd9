-- ===== src/Wallet/History/Sorting.antt =====
-- The order of the pages, newest first, and what it has to do with the cursor's filter.
use cashfb_backend.Prelude.{
  ℕ, zero, suc, ◌≡◌, ◌≤◌, inl, inr, Bool, true, false, ◌==◌, ◌&&◌, some, List, [], ◌∷◌, keep, take,
  drop, length, All, All-map, arith, refl, subst, Bool-cases, if◌then◌else◌,
}
use cashfb_backend.Wallet.History.{Row, CursorPayload, before, cursor_of, last_row}

-- `y` comes after `x`
abbrev pub older : Row → Row → Bool
older x y = before (cursor_of x) y

-- each row comes after all before it
abbrev pub Descending : List Row → Type 0
Descending [] = Unit
Descending (x ∷ xs) = All (λ y. older x y ≡ true) xs × Descending xs

-- no two rows share an id
abbrev pub DistinctIds : List Row → Type 0
DistinctIds [] = Unit
DistinctIds (x ∷ xs) = All (λ y. (y.id == x.id) ≡ false) xs × DistinctIds xs

abbrev pub insert_row : Row → List Row → List Row
insert_row x [] = x ∷ []
insert_row x (y ∷ ys) = if older x y then x ∷ y ∷ ys else y ∷ insert_row x ys

-- the one list of rows with distinct ids that is in order
abbrev pub sorted_rows : List Row → List Row
sorted_rows [] = []
sorted_rows (x ∷ xs) = insert_row x (sorted_rows xs)

older_trans : (x y z : Row) → older x y ≡ true → older y z ≡ true → older x z ≡ true
older_trans x y z h k = ground arith

All-insert : (P : Row → Type 0) (x : Row) (ys : List Row) → P x → All P ys → All P (insert_row x ys)
All-insert P x [] h k = (h, tt)
All-insert P x (y ∷ ys) h k = elim (Bool-cases (older x y)) [
  | inl first_row ↦ rw first_row (h, k)
  | inr after_y ↦ rw after_y (k.0, All-insert P x ys h k.1)
]

pub All-sorted : (P : Row → Type 0) (xs : List Row) → All P xs → All P (sorted_rows xs)
All-sorted P [] h = tt
All-sorted P (x ∷ xs) h = All-insert P x (sorted_rows xs) h.0 (All-sorted P xs h.1)

insert-Descending :
    (x : Row) (ys : List Row)
    → All (λ y. (y.id == x.id) ≡ false) ys
    → Descending ys
    → Descending (insert_row x ys)
insert-Descending x [] new h = (tt, tt)
insert-Descending x (y ∷ ys) new h = elim (Bool-cases (older x y)) [
  | inl first_row ↦ rw first_row (
    (
      first_row,
      All-map (λ z. older y z ≡ true) (λ z. older x z ≡ true) (λ z k. older_trans x y z first_row k)
          ys h.0,
    ),
    h,
  )
  | inr after_y ↦ rw after_y (
    All-insert (λ z. older y z ≡ true) x ys (ground (arith, new.0)) h.0,
    insert-Descending x ys new.1 h.1,
  )
]

pub sorted-Descending : (xs : List Row) → DistinctIds xs → Descending (sorted_rows xs)
sorted-Descending [] h = tt
sorted-Descending (x ∷ xs) h =
    insert-Descending x (sorted_rows xs) (All-sorted (λ y. (y.id == x.id) ≡ false) xs h.0)
      (sorted-Descending xs h.1)

insert-front : (x : Row) (ys : List Row) → All (λ y. older x y ≡ true) ys → insert_row x ys ≡ x ∷ ys
insert-front x [] h = refl
insert-front x (y ∷ ys) h = ground (arith, h.0)

pub All-keep : (P : Row → Type 0) (p : Row → Bool) (xs : List Row) → All P xs → All P (keep p xs)
All-keep P p [] h = tt
All-keep P p (x ∷ xs) h = elim (Bool-cases (p x)) [
  | inl hit ↦ rw hit (h.0, All-keep P p xs h.1)
  | inr miss ↦ rw miss (All-keep P p xs h.1)
]

keep-insert :
    (p : Row → Bool) (x : Row) (ys : List Row)
    → Descending ys
    → keep p (insert_row x ys) ≡ (if p x then insert_row x (keep p ys) else keep p ys)
keep-insert p x [] h = ground arith
keep-insert p x (y ∷ ys) h = elim (Bool-cases (older x y)) [
  | inl first_row ↦ elim (Bool-cases (p y)) [
    | inl hit ↦ ground (arith, first_row, hit)
    | inr miss ↦ ground (
      arith,
      first_row,
      miss,
      insert-front x (keep p ys) (
          All-keep (λ z. older x z ≡ true) p ys
            (All-map (λ z. older y z ≡ true) (λ z. older x z ≡ true)
              (λ z k. older_trans x y z first_row k) ys h.0)),
    )
  ]
  | inr after_y ↦ ground (arith, after_y, keep-insert p x ys h.1)
]

-- filtering and sorting commute
pub keep-sorted :
    (p : Row → Bool) (xs : List Row)
    → DistinctIds xs
    → keep p (sorted_rows xs) ≡ sorted_rows (keep p xs)
keep-sorted p [] h = refl
keep-sorted p (x ∷ xs) h =
    ground
      (arith, keep-insert p x (sorted_rows xs) (sorted-Descending xs h.1), keep-sorted p xs h.1)

keep_all : (p : Row → Bool) (xs : List Row) → All (λ x. p x ≡ true) xs → keep p xs ≡ xs
keep_all p [] h = refl
keep_all p (x ∷ xs) h = ground (arith, h.0, keep_all p xs h.1)

pub last-All :
    (P : Row → Type 0) (n : ℕ) (xs : List Row) (r : Row)
    → last_row (take n xs) ≡ some r
    → All P xs
    → P r
last-All P zero xs r e h = absurd (ground arith)
last-All P (suc n) [] r e h = absurd (ground arith)
last-All P (suc zero) (y ∷ ys) r e h = let same : y ≡ r = ground arith in subst P same h.0
last-All P (suc (suc n)) (y ∷ []) r e h = let same : y ≡ r = ground arith in subst P same h.0
last-All P (suc (suc n)) (y ∷ z ∷ zs) r e h = last-All P (suc n) (z ∷ zs) r e h.1

not_older : (x : Row) → older x x ≡ false
not_older x = ground arith

asymmetric : (x y : Row) → older x y ≡ true → older y x ≡ false
asymmetric x y h = ground arith

-- what is older than the last row of a page is what follows the page
pub keep-last :
    (n : ℕ) (xs : List Row) (r : Row)
    → n ≤ length xs
    → last_row (take n xs) ≡ some r
    → Descending xs
    → keep (older r) xs ≡ drop n xs
keep-last zero xs r le e h = absurd (ground arith)
keep-last (suc n) [] r le e h = absurd (ground arith)
keep-last (suc zero) (x ∷ xs) r le e h =
    let same : x ≡ r = ground arith in
    subst (λ q. keep (older q) (x ∷ xs) ≡ xs) same
      (ground (arith, not_older x, keep_all (older x) xs h.0))
keep-last (suc (suc n)) (x ∷ []) r le e h = absurd (ground arith)
keep-last (suc (suc n)) (x ∷ y ∷ ys) r le e h =
    let after_x = last-All (λ z. older x z ≡ true) (suc n) (y ∷ ys) r e h.0 in
    rw (asymmetric x r after_x) (keep-last (suc n) (y ∷ ys) r (omega (arith, le)) e h.1)

pub keep-DistinctIds : (p : Row → Bool) (xs : List Row) → DistinctIds xs → DistinctIds (keep p xs)
keep-DistinctIds p [] h = tt
keep-DistinctIds p (x ∷ xs) h = elim (Bool-cases (p x)) [
  | inl hit ↦ rw hit (All-keep (λ y. (y.id == x.id) ≡ false) p xs h.0, keep-DistinctIds p xs h.1)
  | inr miss ↦ rw miss (keep-DistinctIds p xs h.1)
]

pub kept : (p : Row → Bool) (xs : List Row) → All (λ x. p x ≡ true) (keep p xs)
kept p [] = tt
kept p (x ∷ xs) = elim (Bool-cases (p x)) [
  | inl hit ↦ rw hit (hit, kept p xs)
  | inr miss ↦ rw miss (kept p xs)
]

-- a filter after a weaker one
pub keep-narrow :
    (p q : Row → Bool) (xs : List Row)
    → ((x : Row) → q x ≡ true → p x ≡ true)
    → keep q (keep p xs) ≡ keep q xs
keep-narrow p q [] h = refl
keep-narrow p q (x ∷ xs) h = elim (Bool-cases (p x)) [
  | inl hit ↦ ground (arith, hit, keep-narrow p q xs h)
  | inr miss ↦ elim (Bool-cases (q x)) [
    | inl wrong ↦ absurd (ground (arith, miss, h x wrong))
    | inr out ↦ ground (arith, miss, out, keep-narrow p q xs h)
  ]
]

pub keep-both : (p q : Row → Bool) (xs : List Row) → keep (λ x. p x && q x) xs ≡ keep q (keep p xs)
keep-both p q [] = refl
keep-both p q (x ∷ xs) = elim (Bool-cases (p x)) [
  | inl hit ↦ ground (arith, hit, keep-both p q xs)
  | inr miss ↦ ground (arith, miss, keep-both p q xs)
]

pub before-older :
    (c : CursorPayload) (r x : Row) → before c r ≡ true → older r x ≡ true → before c x ≡ true
before-older c r x h k = ground arith
