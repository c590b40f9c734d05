-- ===== src/DustSweep/Ledger.antt =====
-- The sum of the ledger under the pair sweep of src/services/dust-sweep.service.ts.
use blitzpool.Prelude.{List, All}
use blitzpool.DustSweep.{PplnsBalance}
use blitzpool.DustSweep.Rounds.{IsCredit, IsDebit}
use blitzpool.DustSweep.Rows.{AllApart, IsSynced}

-- The rows in memory are in step with the ledger, and no address stands twice on a side.
pub record InStep (ledger : List PplnsBalance) (cs ds : List PplnsBalance) : Type 0 where
  pub credits_synced : All (IsSynced ledger) cs
  pub debits_synced : All (IsSynced ledger) ds
  pub credits_apart : AllApart cs
  pub debits_apart : AllApart ds
  pub are_credits : All IsCredit cs
  pub are_debits : All IsDebit ds
