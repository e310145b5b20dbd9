-- ===== src/Shared/Tds.antt =====
-- src/shared/services/tds.ts: the 30% withholding on a prize, in paise.
use cashfb_backend.Prelude.{ℕ, ltb, if◌then◌else◌}
use cashfb_backend.Shared.Double.{round_times, three_tenths}

-- `Math.round(finalAmountPaise * 0.3)`, and 0 for 0; 0.3 is the double `three_tenths / 2 ^ 54`
unfoldable pub compute_tds_194ba : ℕ → ℕ
unfolding round_times
compute_tds_194ba final_amount_paise =
    if ltb 0 final_amount_paise then round_times three_tenths 54 final_amount_paise else 0
