-- ===== src/Pplns/BlockTests.antt =====
-- A found block of src/services/pplns.service.ts at concrete inputs.
use blitzpool.Prelude.{
  ◌&&◌, ◌||◌, not, ◌++◌, ◌+◌, ◌≡◌, refl, true, false, List, [], ◌∷◌, none, some,
}
use blitzpool.Prelude.Int.{pos, negsuc}
use blitzpool.Coinbase.Weight.{AddressType}
use blitzpool.Coinbase.Input.{CoinbaseDistributionEntry, get}
use blitzpool.Coinbase.Build.Emission.{emitted}
use blitzpool.Pplns.{empty_window, sum_buckets}
use blitzpool.Pplns.Block.{is_processed, on_pplns_block_found, apply_distribution}
use blitzpool.Pplns.Books.{
  Snapshot, PplnsConfig, PplnsState, is_among, read_window_by_address, positives, coinbase,
  history_rows, unemitted, late_arrivals, insert_rows, has_row, PayoutRow, addresses, keys,
}
use blitzpool.Pplns.Booked.{paid_rows, paid_total, to_miners}
use blitzpool.Pplns.Fresh.{AllFresh, repeats}
use blitzpool.Pplns.Rows.{row_addresses, AtHeight}
use blitzpool.Pplns.Booking.{
  found_block-booked, found_block-rows, found_block-balance, found_block-twice,
  found_block-unbooked,
}
use blitzpool.Pplns.Balances.{balance_in}

abbrev config : PplnsConfig
config = record {
  enabled = true;
  fee_address = "pool";
  fee_percent = record { num = 2; den = 1 };
  coinbase_weight_budget = 4000;
  min_payout_sats = none;
  address_info = λ a. some AddressType.p2wpkh;
}

abbrev outputs : List CoinbaseDistributionEntry
outputs = record { address = "a"; sats = 700 } ∷ record { address = "b"; sats = 280 } ∷ []

abbrev committed_block : Snapshot
committed_block = record {
  distribution = record { address = "pool"; sats = 20 } ∷ outputs;
  block_reward_sats = 1000;
  considered_addresses = "a" ∷ "b" ∷ "c" ∷ [];
  balance_after = ("a", pos 5) ∷ ("c", negsuc 4) ∷ [];
}

abbrev solved : PplnsState
solved = record {
  window = empty_window;
  ledger =
      record {
        address = "c";
        balance_sats = pos 7;
        total_paid_sats = 11;
        last_accepted_share_at = none;
      }
      ∷ [];
  history = record { block_height = 7; address = "a"; paid_sats = 50; row_type = coinbase } ∷ [];
  snapshot = some committed_block;
  last_distribution = none;
}

-- The miner "pool" mines to the address of the fee.
abbrev doubled : Snapshot
doubled = record committed_block {
  distribution =
      record { address = "pool"; sats = 20 } ∷ record { address = "pool"; sats = 980 } ∷ [];
}

height_new : is_processed 8 solved.history ≡ false
unfolding is_processed
height_new = refl

booked-run : paid_rows (on_pplns_block_found config 99 8 1000 solved).history ≡ 1050
unfolding on_pplns_block_found is_processed read_window_by_address positives sum_buckets
    apply_distribution history_rows unemitted late_arrivals insert_rows has_row is_among
booked-run = refl

found_block-booked_example :
    let t = on_pplns_block_found config 99 8 1000 solved in
    (paid_rows t.history ≡ paid_rows solved.history + emitted committed_block.distribution)
    × (paid_total t.ledger
        ≡ paid_total solved.ledger + to_miners "pool" committed_block.distribution)
    × (t.snapshot ≡ none)
unfolding is_among
found_block-booked_example =
    found_block-booked config 99 8 solved committed_block refl height_new refl
      (record { address = "pool"; sats = 20 }) outputs refl (refl, (refl, (refl, tt)))

found_block-balance_example :
    balance_in "c" (on_pplns_block_found config 99 8 1000 solved).ledger ≡ some (negsuc 4)
unfolding is_among get
found_block-balance_example =
    found_block-balance config 99 8 solved committed_block refl height_new refl
      (record { address = "pool"; sats = 20 }) outputs "c" refl (refl, (refl, (refl, tt)))
      (refl, (refl, tt)) refl

found_block-twice_example :
    on_pplns_block_found config 120 8 2000 (on_pplns_block_found config 99 8 1000 solved)
    ≡ on_pplns_block_found config 99 8 1000 solved
unfolding is_among
found_block-twice_example =
    found_block-twice config 99 8 solved committed_block refl height_new refl
      (record { address = "pool"; sats = 20 }) outputs 120 2000 refl (refl, (refl, (refl, tt)))

found_block-unbooked_example :
    let t = on_pplns_block_found config 99 8 1000 (record solved { snapshot = some doubled }) in
    (t.ledger ≡ solved.ledger) × (t.history ≡ solved.history) × (t.snapshot ≡ none)
unfolding repeats is_among
found_block-unbooked_example =
    found_block-unbooked config 99 8 (record solved { snapshot = some doubled }) doubled refl
      height_new refl (record { address = "pool"; sats = 20 })
      (record { address = "pool"; sats = 980 } ∷ []) refl refl

found_block-rows_example :
    (rows : List PayoutRow) × ((on_pplns_block_found config 99 8 1000 solved).history
      ≡ solved.history ++ rows)
    × AtHeight 8 rows
    × AllFresh [] (row_addresses rows)
    × (is_among "c" (row_addresses rows)
        ≡ is_among "c" (addresses committed_block.distribution)
          || is_among "c" (keys committed_block.balance_after)
          || (is_among "c" (keys (read_window_by_address solved.window))
              && not (is_among "c" committed_block.considered_addresses)))
unfolding is_among
found_block-rows_example =
    found_block-rows config 99 8 solved committed_block refl height_new refl
      (record { address = "pool"; sats = 20 }) outputs "c" refl (refl, (refl, (refl, tt)))
