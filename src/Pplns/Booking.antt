-- ===== src/Pplns/Booking.antt =====
-- A found block with a snapshot for its reward, in src/services/pplns.service.ts: onBlockFound from
-- the snapshot to the ledger and the history.
use blitzpool.Prelude.{
  ℕ, ◌+◌, ◌≡◌, refl, sym, ap, ◌∙◌, true, false, ◌&&◌, ◌||◌, not, List, [], ◌∷◌, ◌++◌, none, some,
  ◌==◌, arith,
}
use blitzpool.Prelude.Int.{ℤ}
use blitzpool.Prelude.Sort.{sum_of-append}
use blitzpool.Coinbase.Weight.{Address}
use blitzpool.Coinbase.Input.{CoinbaseDistributionEntry, get}
use blitzpool.Coinbase.Build.Emission.{emitted}
use blitzpool.Pplns.Block.{
  commit, apply_distribution, is_processed, on_pplns_block_found, invalidate_distribution,
  delete_snapshot,
}
use blitzpool.Pplns.Books.{
  PayoutRow, Snapshot, PplnsConfig, PplnsState, apply_balances, apply_payouts, history_rows,
  addresses, keys, read_window_by_address, unemitted, late_arrivals, pending_rows, is_among,
}
use blitzpool.Pplns.Booked.{
  paid_rows, paid_total, to_miners, apply_balances-paid, apply_payouts-paid, paid_history_rows,
}
use blitzpool.Pplns.Rows.{
  row_addresses, AtHeight, history_rows-AtHeight, history_rows-AllFresh, history_rows-among,
  history_rows-written,
}
use blitzpool.Pplns.Repeated.{repeated_fails}
use blitzpool.Pplns.Replay.{processed-rows, replay}
use blitzpool.Pplns.Fresh.{AllFresh, repeats}
use blitzpool.Pplns.Balances.{balance_in, balance-applied, balance-payouts}

same_reward : (n : ℕ) → (n == n) ≡ true
same_reward n = ground arith

module _ (config : PplnsConfig) (now height : ℕ) (s : PplnsState) (snap : Snapshot)
    (enabled : config.enabled ≡ true) (new : is_processed height s.history ≡ false)
    (at : s.snapshot ≡ some snap) where
  abbrev found_block : PplnsState
  found_block = on_pplns_block_found config now height snap.block_reward_sats s

  abbrev with_ledger : List PayoutRow → PplnsState
  with_ledger history = record s {
    window = record s.window { is_cached = false };
    ledger =
        apply_payouts now config.fee_address snap.distribution
          (apply_balances now (read_window_by_address s.window) snap.balance_after s.ledger);
    history = history;
    snapshot = none;
  }

  -- With an output, the block is processed from the snapshot.
  found_block-snapshot :
      (e : CoinbaseDistributionEntry) (es : List CoinbaseDistributionEntry)
      → snap.distribution ≡ e ∷ es
      → found_block
        ≡ delete_snapshot (
            apply_distribution config now height snap
              (read_window_by_address s.window)
              (invalidate_distribution s))
  unfolding on_pplns_block_found read_window_by_address
  found_block-snapshot e es paying =
      simp (enabled, new, at, paying, same_reward snap.block_reward_sats) refl

  found_block-state :
      (e : CoinbaseDistributionEntry) (es : List CoinbaseDistributionEntry)
      → snap.distribution ≡ e ∷ es
      → AllFresh [] (addresses snap.distribution)
      → found_block
        ≡ with_ledger (s.history ++ history_rows height snap (read_window_by_address s.window))
  unfolding apply_distribution
  found_block-state e es paying apart =
      let window = read_window_by_address s.window in
      let s' = invalidate_distribution s in
      let ledger =
        apply_payouts now config.fee_address snap.distribution
          (apply_balances now window snap.balance_after s.ledger) in
      found_block-snapshot e es paying
      ∙ ap (λ o. delete_snapshot (commit o ledger s'))
          (history_rows-written height snap window s.history new apart)

  -- A new block with a snapshot for its reward, whose outputs have different addresses, is booked in
  -- full: the rows added to the history are worth the outputs, the payments in the ledger grow by
  -- what of them does not go to the fee address, and the snapshot is used up.
  pub found_block-booked :
      (e : CoinbaseDistributionEntry) (es : List CoinbaseDistributionEntry)
      → snap.distribution ≡ e ∷ es
      → AllFresh [] (addresses snap.distribution)
      → (paid_rows found_block.history ≡ paid_rows s.history + emitted snap.distribution)
        × (paid_total found_block.ledger
            ≡ paid_total s.ledger + to_miners config.fee_address snap.distribution)
        × (found_block.snapshot ≡ none)
  found_block-booked e es paying apart =
      let window = read_window_by_address s.window in
      let state = found_block-state e es paying apart in
      let balances = apply_balances now window snap.balance_after s.ledger in
      (
        ap (λ t. paid_rows t.history) state
            ∙ sum_of-append (λ r. r.paid_sats) s.history (history_rows height snap window)
            ∙ ap (λ n. paid_rows s.history + n) (paid_history_rows height snap window),
        ap (λ t. paid_total t.ledger) state
            ∙ apply_payouts-paid now config.fee_address snap.distribution balances
            ∙ ap (λ n. n + to_miners config.fee_address snap.distribution)
                (apply_balances-paid now window snap.balance_after s.ledger),
        ap (λ t. t.snapshot) state,
      )

  -- A new block with a snapshot for its reward, whose outputs have different addresses, adds one row
  -- of its height to the history, and only one, for each address that has an output, or a new
  -- balance, or that is in the share window and was not considered in the snapshot, and no other
  -- rows.
  pub found_block-rows :
      (e : CoinbaseDistributionEntry) (es : List CoinbaseDistributionEntry) (a : Address)
      → snap.distribution ≡ e ∷ es
      → AllFresh [] (addresses snap.distribution)
      → (rows : List PayoutRow) × (found_block.history ≡ s.history ++ rows)
        × AtHeight height rows
        × AllFresh [] (row_addresses rows)
        × (is_among a (row_addresses rows)
            ≡ is_among a (addresses snap.distribution)
              || is_among a (keys snap.balance_after)
              || (is_among a (keys (read_window_by_address s.window))
                  && not (is_among a snap.considered_addresses)))
  found_block-rows e es a paying apart =
      let window = read_window_by_address s.window in
      (
        history_rows height snap window,
        ap (λ t. t.history) (found_block-state e es paying apart),
        history_rows-AtHeight height snap window,
        history_rows-AllFresh height snap window apart,
        history_rows-among height snap window a,
      )

  -- After a new block with a snapshot for its reward, whose outputs have different addresses, as
  -- have its new balances, the ledger has for an address the balance that the snapshot has for it,
  -- if the snapshot has one.
  pub found_block-balance :
      (e : CoinbaseDistributionEntry) (es : List CoinbaseDistributionEntry) (k : Address) {b : ℤ}
      → snap.distribution ≡ e ∷ es
      → AllFresh [] (addresses snap.distribution)
      → AllFresh [] (keys snap.balance_after)
      → get k snap.balance_after ≡ some b
      → balance_in k found_block.ledger ≡ some b
  found_block-balance e es k paying apart once found =
      let window = read_window_by_address s.window in
      ap (λ t. balance_in k t.ledger) (found_block-state e es paying apart)
      ∙ balance-payouts now config.fee_address k snap.distribution
          (apply_balances now window snap.balance_after s.ledger)
          (balance-applied now window snap.balance_after [] k s.ledger once found)

  -- After a new block with a snapshot for its reward, whose outputs have different addresses, a
  -- second call for the same height, whatever its reward, changes nothing.
  pub found_block-twice :
      (e : CoinbaseDistributionEntry) (es : List CoinbaseDistributionEntry) (later reward : ℕ)
      → snap.distribution ≡ e ∷ es
      → AllFresh [] (addresses snap.distribution)
      → on_pplns_block_found config later height reward found_block ≡ found_block
  found_block-twice e es later reward paying apart =
      let state = found_block-state e es paying apart in
      let rows = history_rows height snap (read_window_by_address s.window) in
      let processed : is_processed height (s.history ++ rows) ≡ true =
        processed-rows height snap (read_window_by_address s.window) s.history e es paying in
      ap (on_pplns_block_found config later height reward) state
      ∙ replay config later height reward (with_ledger (s.history ++ rows)) enabled processed
      ∙ sym state

  -- Where two outputs of the snapshot have one address, a new block with a snapshot for its reward
  -- is not booked at all, the ledger and the history stay, and the snapshot is used up all the same.
  pub found_block-unbooked :
      (e : CoinbaseDistributionEntry) (es : List CoinbaseDistributionEntry)
      → snap.distribution ≡ e ∷ es
      → repeats (addresses snap.distribution) ≡ true
      → (found_block.ledger ≡ s.ledger)
        × (found_block.history ≡ s.history)
        × (found_block.snapshot ≡ none)
  unfolding apply_distribution history_rows
  found_block-unbooked e es paying twice =
      let window = read_window_by_address s.window in
      let s' = invalidate_distribution s in
      let ledger =
        apply_payouts now config.fee_address snap.distribution
          (apply_balances now window snap.balance_after s.ledger) in
      let changed = unemitted (addresses snap.distribution) (keys snap.balance_after) in
      let late =
        unemitted (changed ++ addresses snap.distribution)
          (late_arrivals snap.considered_addresses window) in
      let state : found_block ≡ delete_snapshot s' =
        found_block-snapshot e es paying
        ∙ ap (λ o. delete_snapshot (commit o ledger s'))
            (repeated_fails height snap.distribution
              (pending_rows height changed ++ pending_rows height late) s.history twice) in
      (ap (λ t. t.ledger) state, ap (λ t. t.history) state, ap (λ t. t.snapshot) state)
