-- ===== src/Wallet/Ledger.antt =====
-- The invariant that pairs each `$inc` of `users.coinBalance` with a `coin_transactions` row.
use cashfb_backend.Prelude.{
  ℕ, ◌≡◌, ◌≢◌, ap, refl, All-append, any-append, inl, inr, Bool, true, false, some, List, [], ◌∷◌,
  ◌++◌, All, arith, first, change_first, ◌==◌, if◌then◌else◌, Bool-cases, any, any-change_first,
}
use cashfb_backend.Prelude.Int.{ℤ, pos, ◌+ℤ◌, int_laws}
use cashfb_backend.Shared.User.{User}
use cashfb_backend.Wallet.{Store, CoinTransaction, has_id}

-- the sum of a user's transactions
unfoldable pub ledger : ℕ → List CoinTransaction → ℤ
ledger k [] = pos 0
ledger k (t ∷ ts) = if t.user_id == k then t.amount +ℤ ledger k ts else ledger k ts

-- No two users share an id.
abbrev pub UniqueIds : List User → Type 0
UniqueIds [] = Unit
UniqueIds (u ∷ us) = (any (has_id u.id) us ≡ false) × UniqueIds us

abbrev pub AllBalanced : List CoinTransaction → List User → Type 0
AllBalanced txs us = All (λ u. u.coin_balance ≡ ledger u.id txs) us

pub record Balanced (db : Store) : Type 0 where
  pub unique : UniqueIds db.users
  pub balanced : AllBalanced db.coin_txs db.users

zero_plus : (a : ℤ) → pos 0 +ℤ a ≡ a
zero_plus a = grind (int_laws)

ledger-append :
    (k : ℕ) (ts : List CoinTransaction) (t : CoinTransaction)
    → ledger k (ts ++ t ∷ []) ≡ (if t.user_id == k then ledger k ts +ℤ t.amount else ledger k ts)
unfolding ledger
ledger-append k [] t = grind (int_laws)
ledger-append k (s ∷ ts) t = grind (int_laws, ledger-append k ts t)

module _ (p : User → Bool) (f : User → User) where
  -- a write that keeps the id keeps ids unique
  pub change_first-UniqueIds :
      ((u : User) → (f u).id ≡ u.id)
      → (us : List User) → UniqueIds us
      → UniqueIds (change_first p f us)
  change_first-UniqueIds same [] h = tt
  change_first-UniqueIds same (u ∷ us) h = elim (Bool-cases (p u)) [
    | inl hit ↦ rw hit (rw (same u) (h.0, h.1))
    | inr miss ↦ rw miss (
        rw (any-change_first (has_id u.id) p f (λ v. ap (λ (n : ℕ). n == u.id) (same v)) us)
          (h.0, change_first-UniqueIds same us h.1))
  ]

-- a transaction of another user changes no balance's account
pub AllBalanced-other :
    (txs : List CoinTransaction) (t : CoinTransaction) (us : List User)
    → any (has_id t.user_id) us ≡ false
    → AllBalanced txs us
    → AllBalanced (txs ++ t ∷ []) us
AllBalanced-other txs t [] a h = tt
AllBalanced-other txs t (u ∷ us) a h = (
  rw (ledger-append u.id txs t) (ground (arith, h.0)),
  AllBalanced-other txs t us (ground arith) h.1,
)

-- a new user with an id of its own, and the transaction that brings its first coins
pub UniqueIds-append :
    (us : List User) (u : User)
    → any (has_id u.id) us ≡ false
    → UniqueIds us
    → UniqueIds (us ++ u ∷ [])
UniqueIds-append [] u new h = (refl, tt)
UniqueIds-append (v ∷ us) u new h = (
  rw (any-append (has_id v.id) us (u ∷ [])) (ground (arith, h.0)),
  UniqueIds-append us u (ground (arith, new)) h.1,
)

pub AllBalanced-new :
    (txs : List CoinTransaction) (t : CoinTransaction) (us : List User) (u : User)
    → any (has_id u.id) us ≡ false
    → t.user_id ≡ u.id
    → u.coin_balance ≡ t.amount
    → ledger u.id txs ≡ pos 0
    → AllBalanced txs us
    → AllBalanced (txs ++ t ∷ []) (us ++ u ∷ [])
AllBalanced-new txs t us u new mine first_coins empty h =
    All-append (λ v. v.coin_balance ≡ ledger v.id (txs ++ t ∷ [])) us (u ∷ [])
      (AllBalanced-other txs t us (rw mine new) h)
      (
        rw (ledger-append u.id txs t, mine)
            (ground (arith, empty, first_coins, zero_plus t.amount)),
        tt,
      )

different_users :
    (a b : ℕ) (us : List User) → any (has_id a) us ≡ true → any (has_id b) us ≡ false → a ≢ b
different_users a b us h k e = cc (ap (λ (n : ℕ). any (has_id n) us) e)

module _ (p : User → Bool) (f : User → User) (txs : List CoinTransaction)
    (t : CoinTransaction) where
  found_id :
      ((u : User) → p u ≡ true → has_id t.user_id u ≡ true)
      → (us : List User) (w : User) → first p us ≡ some w
      → any (has_id t.user_id) us ≡ true
  found_id at [] w e = cc
  found_id at (u ∷ us) w e = ground (arith, at u, found_id at us w)

  -- One user's balance moves by the amount of one new transaction of theirs.
  pub AllBalanced-moved :
      ((u : User) → p u ≡ true → has_id t.user_id u ≡ true)
      → ((u : User) → (f u).id ≡ u.id)
      → ((u : User) → (f u).coin_balance ≡ u.coin_balance +ℤ t.amount)
      → (us : List User) (w : User) → first p us ≡ some w
      → UniqueIds us
      → AllBalanced txs us
      → AllBalanced (txs ++ t ∷ []) (change_first p f us)
  AllBalanced-moved at same moves [] w e ids h = cc
  AllBalanced-moved at same moves (u ∷ us) w e ids h = elim (Bool-cases (p u)) [
    | inl hit ↦ rw hit (
      rw (same u, ledger-append u.id txs t) (ground (arith, h.0, moves u, at u hit)),
      AllBalanced-other txs t us (ground (arith, at u hit, ids.0)) h.1,
    )
    | inr miss ↦ rw miss (
      rw (ledger-append u.id txs t) (
          ground (
            arith,
            h.0,
            different_users t.user_id u.id us (found_id at us w (ground (arith, miss))) ids.0,
          )),
      AllBalanced-moved at same moves us w (ground (arith, miss)) ids.1 h.1,
    )
  ]
