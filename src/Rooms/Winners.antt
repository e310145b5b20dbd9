-- ===== src/Rooms/Winners.antt =====
-- `assignWinners` of src/modules/custom-rooms/custom-rooms.admin.service.ts. Amounts are whole paise
-- below 2 ^ 53.
pub mod Awards
use cashfb_backend.Prelude.{
  ℕ, suc, ◌+◌, ◌*◌, Bool, true, false, Option, none, some, List, [], ◌∷◌, ◌++◌, ◌&&◌, not, is_some,
  or_default, if◌then◌else◌, ◌==◌,
}
use cashfb_backend.Shared.Errors.{AppError}
use cashfb_backend.Shared.Exec.{
  Exec, Result, ok, err, pure, throw, gets, or_throw, modify, throw_if, ◌>>=◌, ◌>>◌,
}
use cashfb_backend.Shared.Mongo.{Mongo}
use cashfb_backend.Shared.Tier.{Tier}
use cashfb_backend.Pools.{multiplier_of}
use cashfb_backend.Redeem.{PrizePoolWinner, WinnerType, PayoutStatus, holds}
use cashfb_backend.Rooms.{Store}

-- `id` is the id that the new document would get
pub record AssignWinnersInputItem : Type 0 where
  pub id : ℕ
  pub user_id : ℕ
  pub type : WinnerType
  pub base_amount : ℕ
  pub tier : Tier
  pub redeem_code_id : Option ℕ
  pub custom_room_id : Option ℕ

pub record AssignWinnersResult : Type 0 where
  pub assigned : ℕ
  -- the users whose award was there already
  pub skipped : List ℕ

abbrev pub is_gift_code : WinnerType → Bool
is_gift_code WinnerType.gift_code = true
is_gift_code WinnerType.custom_room = false

abbrev pub same_option : Option ℕ → Option ℕ → Bool
same_option none none = true
same_option (some a) b = holds b a
same_option none (some b) = false

abbrev pub same_reference : PrizePoolWinner → PrizePoolWinner → Bool
same_reference a b =
    if is_gift_code a.type
    then (is_gift_code b.type && same_option a.redeem_code_id b.redeem_code_id)
    else (not (is_gift_code b.type) && same_option a.custom_room_id b.custom_room_id)

-- the two partial unique indexes
abbrev pub same_award : PrizePoolWinner → PrizePoolWinner → Bool
same_award a b = (b.user_id == a.user_id) && ((b.day_key == a.day_key) && same_reference a b)

abbrev pub award_document : ℕ → ℕ → ℕ → ℕ → AssignWinnersInputItem → PrizePoolWinner
award_document now day_key pro pro_max w = record {
  id = w.id;
  day_key = day_key;
  user_id = w.user_id;
  type = w.type;
  tier = some w.tier;
  base_amount = some w.base_amount;
  multiplier = multiplier_of w.tier pro pro_max;
  custom_room_id = w.custom_room_id;
  final_amount = some (w.base_amount * multiplier_of w.tier pro pro_max);
  redeem_code_id = w.redeem_code_id;
  payout_status = PayoutStatus.pending;
  tds_deducted = 0;
  pan_at_payout = none;
  released_at = none;
  created_at = now;
}

-- the code of a gift code or the room of a room prize is missing
abbrev pub lacks_reference : AssignWinnersInputItem → Bool
lacks_reference w =
    if is_gift_code w.type then not (is_some w.redeem_code_id) else not (is_some w.custom_room_id)

module _ (m : Mongo) (now day_key pro pro_max : ℕ) where
  -- the loop, with the counts so far
  assign : ℕ → List ℕ → List AssignWinnersInputItem → Exec Store AssignWinnersResult
  assign assigned skipped [] db = (ok (record { assigned = assigned; skipped = skipped }), db)
  assign assigned skipped (w ∷ ws) db = elim (lacks_reference w) [
    | true ↦ (err AppError.validation, db)
    | false ↦
        elim (m.insert PrizePoolWinner same_award (award_document now day_key pro pro_max w)
          db.winners) [
            | none ↦ assign assigned (skipped ++ w.user_id ∷ []) ws db
            | some winners' ↦ assign (suc assigned) skipped ws (record db { winners = winners' })
          ]
  ]

module _ (m : Mongo) where
  unfoldable pub assign_winners :
      ℕ → ℕ → List AssignWinnersInputItem → Exec Store AssignWinnersResult
  unfolding assign
  assign_winners now day_key ws db =
      assign m now day_key (or_default db.pro_multiplier 5) (or_default db.pro_max_multiplier 10) 0
        [] ws db
