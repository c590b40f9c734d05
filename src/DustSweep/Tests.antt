-- ===== src/DustSweep/Tests.antt =====
-- The pair sweep on a small ledger.
use blitzpool.Prelude.{ℕ, ◌≡◌, ◌⊎◌, true, [], ◌∷◌, none, some, String}
use blitzpool.Prelude.Int.{ℤ, pos, negsuc}
use blitzpool.DustSweep.{PplnsBalance, Store, Event, sweep_pplns_pairs}
use blitzpool.DustSweep.Rounds.{sweep_pplns_pairs-ends}

abbrev row : String → ℤ → PplnsBalance
row a b = record { address = a; balance_sats = b; last_accepted_share_at = some 10 }

abbrev ledger : Store
ledger = record {
  balances = row "a" (pos 30) ∷ row "b" (negsuc 49) ∷ row "c" (pos 15) ∷ [];
  history = [];
  last_sweep_block_height = none;
}

-- The clock stands still; every transaction commits.
abbrev all_commit : ℕ → Event
all_commit n = record { now_seconds = 1700000000; commits = true }

sweep_pplns_pairs-ends_example :
    ((sweep_pplns_pairs all_commit 20 ledger).credits ≡ [])
    ⊎ ((sweep_pplns_pairs all_commit 20 ledger).debits ≡ [])
sweep_pplns_pairs-ends_example = sweep_pplns_pairs-ends all_commit 20 ledger
