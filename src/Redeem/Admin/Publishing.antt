-- ===== src/Redeem/Admin/Publishing.antt =====
-- How many codes a call of `publishBatchToPost` publishes, and which.
use cashfb_backend.Prelude.{
  ℕ, zero, suc, ◌≡◌, ◌≤◌, ◌+◌, ◌⊎◌, ◌↔◌, inl, inr, true, none, some, List, [], ◌∷◌, ltb, arith,
  refl, first, change_first, change_first-absent, tally, Option-cases, Bool-cases, if◌then◌else◌,
}
use cashfb_backend.Shared.Exec.{ok}
use cashfb_backend.Shared.Mongo.{Mongo, IsMongo, Mongo-eq, driver}
use cashfb_backend.Shared.Tier.{Tier}
use cashfb_backend.Wallet.Posts.{post_has_id}
use cashfb_backend.Wallet.{Post}
use cashfb_backend.Redeem.{Store, RedeemCode, code_has_id}
use cashfb_backend.Redeem.Lifecycle.{
  AllMove-change_first, Evolves, rest, step, Evolves-trans, publish, withdraw,
}
use cashfb_backend.Redeem.Admin.{
  PublishBatchInput, PublishBatchResult, publish_codes, publish_batch_to_post, publish_code,
  in_stock, void_code, batch_has_id,
}

-- the smaller of two numbers
abbrev pub min : ℕ → ℕ → ℕ
min a b = if ltb a b then a else b

sold_out :
    (batch_id : ℕ) (cs : List RedeemCode)
    → first (in_stock batch_id) cs ≡ none
    → tally (in_stock batch_id) cs ≡ 0
sold_out batch_id [] h = refl
sold_out batch_id (c ∷ cs) h = ground (arith, sold_out batch_id cs)

one_fewer :
    (post_id : ℕ) (tier : Tier) (now batch_id : ℕ) (cs : List RedeemCode) (c : RedeemCode)
    → first (in_stock batch_id) cs ≡ some c
    → tally (in_stock batch_id) cs
      ≡ suc (
          tally
            (in_stock batch_id)
            (change_first (in_stock batch_id) (publish_code post_id tier now) cs))
one_fewer post_id tier now batch_id [] c h = absurd (ground arith)
one_fewer post_id tier now batch_id (d ∷ ds) c h = elim (Bool-cases (in_stock batch_id d)) [
  | inl hit ↦ ground (arith, hit)
  | inr miss ↦ ground (arith, miss, one_fewer post_id tier now batch_id ds c)
]

module _ (post_id : ℕ) (tier : Tier) (now batch_id : ℕ) where
  pub publish_codes-count :
      (count : ℕ) (cs : List RedeemCode)
      → let (published, cs') =
          publish_codes driver (publish_code post_id tier now) batch_id count cs in
        (published ≡ min count (tally (in_stock batch_id) cs))
        × (tally (in_stock batch_id) cs ≡ published + tally (in_stock batch_id) cs')
  unfolding publish_codes
  publish_codes-count zero cs = (ground arith, omega arith)
  publish_codes-count (suc n) cs = elim (Option-cases (first (in_stock batch_id) cs)) [
    | inl nothing ↦
        let same =
          change_first-absent (in_stock batch_id) (publish_code post_id tier now) cs nothing in
        (ground (arith, sold_out batch_id cs nothing), ground (arith, same))
    | inr (c, found) ↦
        let cs' = change_first (in_stock batch_id) (publish_code post_id tier now) cs in
        let fewer = one_fewer post_id tier now batch_id cs c found in
        let ih = publish_codes-count n cs' in
        (ground (arith, found, fewer, ih), ground (arith, found, fewer, ih))
  ]

  pub publish_codes-Evolves :
      (count : ℕ) (cs : List RedeemCode)
      → Evolves cs (publish_codes driver (publish_code post_id tier now) batch_id count cs).1
  unfolding publish_codes
  publish_codes-Evolves zero cs = rest
  publish_codes-Evolves (suc n) cs =
      let cs' = change_first (in_stock batch_id) (publish_code post_id tier now) cs in
      let move : Evolves cs cs' = step rest (
        AllMove-change_first (in_stock batch_id) (publish_code post_id tier now)
          (λ d p. (refl, inr (publish (ground arith) refl refl))) cs) in
      elim (Option-cases (first (in_stock batch_id) cs)) [
        | inl nothing ↦ rw (publish_codes, nothing) move
        | inr (c, found) ↦
            rw (publish_codes, found) (Evolves-trans move (publish_codes-Evolves n cs'))
      ]

module _ (now : ℕ) (input : PublishBatchInput) (db : Store) where
  published :
      (r : PublishBatchResult)
      → (publish_batch_to_post driver now input db).0 ≡ ok r
      → let stock = tally (in_stock input.batch_id) db.codes in
        let left =
          tally (in_stock input.batch_id) (publish_batch_to_post driver now input db).1.codes in
        (r.published_count ≡ min input.count stock)
        × (stock ≡ r.published_count + left)
        × ((r.batch_exhausted ≡ true) ↔ (stock ≤ input.count))
  unfolding publish_batch_to_post
  published r e = elim (Option-cases (first (post_has_id input.post_id) db.posts)) [
    | inl nothing ↦ absurd (ground arith)
    | inr (post, found) ↦
        let counts =
          publish_codes-count input.post_id post.tier now input.batch_id input.count db.codes in
        (ground (arith, counts), ground (arith, counts), ground (arith, counts))
  ]

  publishing_cases :
      let db' = (publish_batch_to_post driver now input db).1 in
      (db'.codes ≡ db.codes)
      ⊎ ((post : Post) × (db'.codes
            ≡ (publish_codes driver
                (publish_code input.post_id post.tier now)
                input.batch_id
                input.count
                db.codes).1))
  unfolding publish_batch_to_post
  publishing_cases = elim (Option-cases (first (post_has_id input.post_id) db.posts)) [
    | inl nothing ↦ inl (ground arith)
    | inr (post, found) ↦ elim (Option-cases (first (batch_has_id input.batch_id) db.batches)) [
      | inl unknown ↦ inl (ground arith)
      | inr (batch, known) ↦ inr (post, ground arith)
    ]
  ]

  publishing-Evolves : Evolves db.codes (publish_batch_to_post driver now input db).1.codes
  publishing-Evolves = elim publishing_cases [
    | inl same ↦ rw same rest
    | inr (post, codes) ↦
        rw codes
          (publish_codes-Evolves input.post_id post.tier now input.batch_id input.count db.codes)
  ]

voiding-Evolves :
    (db : Store) (code_id reason : ℕ) → Evolves db.codes (void_code driver code_id reason db).codes
unfolding void_code
voiding-Evolves db code_id reason = step rest (
    AllMove-change_first (code_has_id code_id) _ (λ d p. (refl, inr (withdraw refl refl refl)))
      db.codes)

module _ {m : Mongo} (h : IsMongo m) where
  -- Whatever a publication returns, the codes only move along their life cycle.
  pub publish_batch_to_post-Evolves :
      (now : ℕ) (input : PublishBatchInput) (db : Store)
      → Evolves db.codes (publish_batch_to_post m now input db).1.codes
  publish_batch_to_post-Evolves = rw (Mongo-eq h) publishing-Evolves

  -- So they do when a code is voided.
  pub void_code-Evolves :
      (db : Store) (code_id reason : ℕ) → Evolves db.codes (void_code m code_id reason db).codes
  void_code-Evolves = rw (Mongo-eq h) voiding-Evolves
