-- ===== src/Pplns/Block.antt =====
-- The block-found handler of PplnsService in src/services/pplns.service.ts, with the distribution
-- that it books: buildDistribution, fallbackDistribution, onBlockFound,
-- applyDistributionWithoutSnapshot and applyDistribution, on what Books has. A percentage is for
-- display and left out, as in Coinbase.Input; so is what is logged. A call runs alone: the flag
-- blockFoundInProgress is down before and after it.
use blitzpool.Prelude.{
  ℕ, Bool, false, not, ◌||◌, List, [], ◌∷◌, Option, none, some, ◌==◌, if◌then◌else◌,
}
use blitzpool.Coinbase.Weight.{Address}
use blitzpool.Coinbase.Input.{
  CoinbaseDistributionInput, CoinbaseDistributionEntry, CoinbaseDistributionResult, is_set,
}
use blitzpool.Coinbase.Build.{build_coinbase_distribution}
use blitzpool.Pplns.Books.{
  BalanceRow, PayoutRow, Snapshot, PplnsConfig, PplnsState, read_window_by_address, open_balances,
  apply_balances, apply_payouts, history_rows, insert_rows,
}

-- The transaction: all of it, or nothing where a row is there already.
abbrev pub commit : Option (List PayoutRow) → List BalanceRow → PplnsState → PplnsState
commit none ledger s = s
commit (some history) ledger s = record s { ledger = ledger; history = history }

abbrev pub snapshot_of : List CoinbaseDistributionEntry → ℕ → CoinbaseDistributionResult → Snapshot
snapshot_of payouts reward r = record {
  distribution = payouts;
  block_reward_sats = reward;
  considered_addresses = r.considered_addresses;
  balance_after = r.balance_after;
}

abbrev pub delete_snapshot : PplnsState → PplnsState
delete_snapshot s = record s { snapshot = none }

-- The distribution that is cached for half a minute is dropped.
abbrev pub invalidate_distribution : PplnsState → PplnsState
invalidate_distribution s = record s { window = record s.window { is_cached = false } }

unfoldable pub is_processed : ℕ → List PayoutRow → Bool
is_processed height [] = false
is_processed height (r ∷ rs) = r.block_height == height || is_processed height rs

module _ (config : PplnsConfig) where
  unfoldable pub apply_distribution :
      ℕ → ℕ → Snapshot → List (Address × ℕ) → PplnsState → PplnsState
  apply_distribution now height snap window s =
      commit (insert_rows (history_rows height snap window) s.history)
        (apply_payouts now config.fee_address snap.distribution
          (apply_balances now window snap.balance_after s.ledger))
        s

  unfoldable pub distribution_input :
      List (Address × ℕ) → ℕ → PplnsState → CoinbaseDistributionInput
  distribution_input window reward s = record {
    address_shares = window;
    balances = open_balances s.ledger;
    block_reward_sats = reward;
    fee_percent = config.fee_percent;
    fee_address = config.fee_address;
    coinbase_weight_budget = config.coinbase_weight_budget;
    suppress_matching_debits = false;
    min_payout_sats = config.min_payout_sats;
    finder_bonus_sats = none;
    finder_address = none;
  }

  unfoldable pub fallback_distribution : ℕ → List CoinbaseDistributionEntry
  fallback_distribution reward =
      if is_set config.fee_address
      then record { address = config.fee_address; sats = reward } ∷ []
      else []

  abbrev pub or_fallback : ℕ → List CoinbaseDistributionEntry → List CoinbaseDistributionEntry
  or_fallback reward [] = fallback_distribution reward
  or_fallback reward (e ∷ es) = e ∷ es

  abbrev pub build_for :
      List (Address × ℕ) → ℕ → PplnsState → PplnsState × List CoinbaseDistributionEntry
  build_for [] reward s = (s, fallback_distribution reward)
  build_for (x ∷ xs) reward s =
      let r =
        build_coinbase_distribution config.address_info (distribution_input (x ∷ xs) reward s) in
      let payouts = or_fallback reward r.payouts in
      (
        record s {
          snapshot = some (snapshot_of payouts reward r);
          last_distribution = some payouts;
        },
        payouts,
      )

  unfoldable pub build_distribution : ℕ → PplnsState → PplnsState × List CoinbaseDistributionEntry
  build_distribution reward s = build_for (read_window_by_address s.window) reward s

  abbrev pub recompute_for : ℕ → ℕ → ℕ → List (Address × ℕ) → PplnsState → PplnsState
  recompute_for now height reward [] s = s
  recompute_for now height reward (x ∷ xs) s =
      let r =
        build_coinbase_distribution config.address_info (distribution_input (x ∷ xs) reward s) in
      apply_distribution now height (snapshot_of r.payouts reward r) (x ∷ xs) s

  unfoldable pub apply_distribution_without_snapshot : ℕ → ℕ → ℕ → PplnsState → PplnsState
  apply_distribution_without_snapshot now height reward s =
      recompute_for now height reward (read_window_by_address s.window) s

  abbrev pub from_snapshot : ℕ → ℕ → ℕ → Snapshot → PplnsState → PplnsState
  from_snapshot now height reward snap s =
      if snap.block_reward_sats == reward
      then delete_snapshot (apply_distribution now height snap (read_window_by_address s.window) s)
      else apply_distribution_without_snapshot now height reward (delete_snapshot s)

  abbrev pub with_outputs :
      ℕ → ℕ → ℕ → List CoinbaseDistributionEntry → Snapshot → PplnsState → PplnsState
  with_outputs now height reward [] snap s = apply_distribution_without_snapshot now height reward s
  with_outputs now height reward (e ∷ es) snap s = from_snapshot now height reward snap s

  abbrev pub process : ℕ → ℕ → ℕ → Option Snapshot → PplnsState → PplnsState
  process now height reward none s = apply_distribution_without_snapshot now height reward s
  process now height reward (some snap) s = with_outputs now height reward snap.distribution snap s

  unfoldable pub on_pplns_block_found : ℕ → ℕ → ℕ → PplnsState → PplnsState
  on_pplns_block_found now height reward s =
      let s' = invalidate_distribution s in
      if not config.enabled
      then s
      else if is_processed height s.history
      then s'
      else process now height reward s.snapshot s'
