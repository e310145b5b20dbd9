-- ===== src/Wallet/History/Tests.antt =====
-- Three transactions of two users, read in pages of one.
use cashfb_backend.Prelude.{
  ℕ, ◌+◌, ◌*◌, ◌/◌, ◌%◌, ◌≡◌, true, Option, none, some, List, [], ◌∷◌, refl,
}
use cashfb_backend.Prelude.Int.{pos}
use cashfb_backend.Wallet.{CoinTransactionType}
use cashfb_backend.Wallet.History.{Row, CursorPayload}
use cashfb_backend.Wallet.History.Sorting.{sorted_rows}
use cashfb_backend.Wallet.History.Walk.{walk, pages_show_every_transaction}

abbrev credit : ℕ → ℕ → ℕ → Row
credit id created_at user_id = record {
  id = id;
  created_at = created_at;
  tx = record {
    user_id = user_id;
    type = CoinTransactionType.post_reward;
    amount = pos 1;
    balance_after = pos 1;
    reference = 0;
  };
}

abbrev rows : List Row
rows = credit 1 50 7 ∷ credit 2 50 7 ∷ credit 3 60 8 ∷ []

-- the cursors of these rows, as numbers
abbrev to_base64 : CursorPayload → ℕ
to_base64 c = c.t * 1000 + c.i

abbrev parse : ℕ → Option (Option ℕ × Option ℕ)
parse n = some (some (n / 1000), some (n % 1000))

pages_show_every_transaction_example :
    walk to_base64 parse
      (λ i. true)
      sorted_rows
      4
      (record { user_id = 7; cursor = none; limit = some 1 })
      rows
    ≡ some (credit 2 50 7 ∷ credit 1 50 7 ∷ [])
pages_show_every_transaction_example =
    pages_show_every_transaction to_base64 parse (λ i. true) sorted_rows (λ xs h. refl) 7 (some 1)
      rows ((refl, (refl, tt)), ((refl, tt), (tt, tt)))
      ((refl, refl), ((refl, refl), ((refl, refl), tt)))
