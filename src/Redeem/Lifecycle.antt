-- ===== src/Redeem/Lifecycle.antt =====
-- The life of a redeem code as a state machine over RedeemCode.model.ts, and invariants of its steps.
use cashfb_backend.Prelude.{
  ℕ, ◌≡◌, ◌⊎◌, inl, inr, Bool, true, false, some, List, [], ◌∷◌, arith, refl, change_first,
  Bool-cases, All, any, ◌&&◌,
}
use cashfb_backend.Redeem.{
  code_has_id, RedeemCode, CodeStatus, available, published, copied, claimed, void,
}

-- One step of a code: publication, the first copy, the copier's claim, and voiding at any time.
pub data CodeStep : RedeemCode → RedeemCode → Type 0 where
  publish :
      {c d : RedeemCode}
      → c.status ≡ available
      → d.status ≡ published
      → d.first_copied_by ≡ c.first_copied_by
      → CodeStep c d
  copy :
      {c d : RedeemCode} (user : ℕ)
      → c.status ≡ published
      → d.status ≡ copied
      → d.first_copied_by ≡ some user
      → CodeStep c d
  claim :
      {c d : RedeemCode}
      → c.status ≡ copied
      → d.status ≡ claimed
      → d.first_copied_by ≡ c.first_copied_by
      → d.claimed_by ≡ c.first_copied_by
      → CodeStep c d
  withdraw :
      {c d : RedeemCode}
      → d.status ≡ void
      → d.first_copied_by ≡ c.first_copied_by
      → d.claimed_by ≡ c.claimed_by
      → CodeStep c d

-- a code that keeps its id and stays as it is or makes one step
abbrev pub Moves : RedeemCode → RedeemCode → Type 0
Moves c d = (d.id ≡ c.id) × ((d ≡ c) ⊎ CodeStep c d)

-- the codes of a store, one by one
abbrev pub AllMove : List RedeemCode → List RedeemCode → Type 0
AllMove [] [] = Unit
AllMove (c ∷ cs) (d ∷ ds) = Moves c d × AllMove cs ds
AllMove _ _ = ⊥

pub AllMove-refl : (cs : List RedeemCode) → AllMove cs cs
AllMove-refl [] = tt
AllMove-refl (c ∷ cs) = ((refl, inl refl), AllMove-refl cs)

module _ (p : RedeemCode → Bool) (f : RedeemCode → RedeemCode) where
  pub AllMove-change_first :
      ((c : RedeemCode) → p c ≡ true → Moves c (f c))
      → (cs : List RedeemCode) → AllMove cs (change_first p f cs)
  AllMove-change_first move [] = tt
  AllMove-change_first move (c ∷ cs) = elim (Bool-cases (p c)) [
    | inl hit ↦ rw hit (move c hit, AllMove-refl cs)
    | inr miss ↦ rw miss ((refl, inl refl), AllMove-change_first move cs)
  ]

-- any number of such moves, one after the other
pub data Evolves : List RedeemCode → List RedeemCode → Type 0 where
  rest : {cs : List RedeemCode} → Evolves cs cs
  step : {bs cs ds : List RedeemCode} → Evolves bs cs → AllMove cs ds → Evolves bs ds

pub Evolves-trans : {bs cs ds : List RedeemCode} → Evolves bs cs → Evolves cs ds → Evolves bs ds
Evolves-trans e rest = e
Evolves-trans e (step e' move) = step (Evolves-trans e e') move

-- a claimed code is claimed by whoever copied it first
abbrev pub ClaimedByCopier : RedeemCode → Type 0
ClaimedByCopier c = c.status ≡ CodeStatus.claimed → c.claimed_by ≡ c.first_copied_by

Moves-ClaimedByCopier : (c d : RedeemCode) → Moves c d → ClaimedByCopier c → ClaimedByCopier d
Moves-ClaimedByCopier c d (_, inl same) h = rw same h
Moves-ClaimedByCopier c d (_, inr (publish before after_ kept)) h = λ e. absurd (ground arith)
Moves-ClaimedByCopier c d (_, inr (copy user before after_ by)) h = λ e. absurd (ground arith)
Moves-ClaimedByCopier c d (_, inr (claim before after_ kept by)) h = λ e. ground arith
Moves-ClaimedByCopier c d (_, inr (withdraw after_ kept by)) h = λ e. absurd (ground arith)

AllMove-ClaimedByCopier :
    (cs ds : List RedeemCode) → AllMove cs ds → All ClaimedByCopier cs → All ClaimedByCopier ds
AllMove-ClaimedByCopier [] [] m h = tt
AllMove-ClaimedByCopier [] (d ∷ ds) m h = absurd m
AllMove-ClaimedByCopier (c ∷ cs) [] m h = absurd m
AllMove-ClaimedByCopier (c ∷ cs) (d ∷ ds) (m, ms) (h, hs) =
    (Moves-ClaimedByCopier c d m h, AllMove-ClaimedByCopier cs ds ms hs)

-- However often the codes move, a claimed code is claimed by the user who copied it first.
pub Evolves-ClaimedByCopier :
    (cs ds : List RedeemCode) → Evolves cs ds → All ClaimedByCopier cs → All ClaimedByCopier ds
Evolves-ClaimedByCopier cs ds rest h = h
Evolves-ClaimedByCopier cs ds (step {cs = ms} e move) h =
    AllMove-ClaimedByCopier ms ds move (Evolves-ClaimedByCopier cs ms e h)

abbrev is_void : CodeStatus → Bool
is_void CodeStatus.void = true
is_void _ = false

abbrev pub voided : ℕ → RedeemCode → Bool
voided code_id c = code_has_id code_id c && is_void c.status

Moves-voided :
    (code_id : ℕ) (c d : RedeemCode) → Moves c d → voided code_id c ≡ true → voided code_id d ≡ true
Moves-voided code_id c d (_, inl same) h = rw same h
Moves-voided code_id c d (same, inr (publish before after_ kept)) h = ground arith
Moves-voided code_id c d (same, inr (copy user before after_ by)) h = ground arith
Moves-voided code_id c d (same, inr (claim before after_ kept by)) h = ground arith
Moves-voided code_id c d (same, inr (withdraw after_ kept by)) h = ground arith

AllMove-voided :
    (code_id : ℕ) (cs ds : List RedeemCode)
    → AllMove cs ds
    → any (voided code_id) cs ≡ true
    → any (voided code_id) ds ≡ true
AllMove-voided code_id [] [] m h = absurd (ground arith)
AllMove-voided code_id [] (d ∷ ds) m h = absurd m
AllMove-voided code_id (c ∷ cs) [] m h = absurd m
AllMove-voided code_id (c ∷ cs) (d ∷ ds) (m, ms) h = elim (Bool-cases (voided code_id c)) [
  | inl hit ↦ ground (arith, Moves-voided code_id c d m hit)
  | inr miss ↦ ground (arith, miss, AllMove-voided code_id cs ds ms)
]

-- A void code stays void.
pub Evolves-voided :
    (code_id : ℕ) (cs ds : List RedeemCode)
    → Evolves cs ds
    → any (voided code_id) cs ≡ true
    → any (voided code_id) ds ≡ true
Evolves-voided code_id cs ds rest h = h
Evolves-voided code_id cs ds (step {cs = ms} e move) h =
    AllMove-voided code_id ms ds move (Evolves-voided code_id cs ms e h)
