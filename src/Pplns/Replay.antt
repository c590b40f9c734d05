-- ===== src/Pplns/Replay.antt =====
-- A block that is in the history already, in src/services/pplns.service.ts (onBlockFound): its height
-- is processed, and a second call books nothing.
use blitzpool.Prelude.{ℕ, ◌≡◌, refl, ap, ◌∙◌, true, List, [], ◌∷◌, ◌++◌, arith}
use blitzpool.Coinbase.Weight.{Address}
use blitzpool.Coinbase.Input.{CoinbaseDistributionEntry}
use blitzpool.Pplns.Block.{is_processed, on_pplns_block_found, invalidate_distribution}
use blitzpool.Pplns.Books.{
  PayoutRow, Snapshot, PplnsConfig, PplnsState, coinbase_rows, history_rows, addresses, keys,
  unemitted, late_arrivals, pending_rows, coinbase_row,
}

processed-append :
    (height : ℕ) (history rows : List PayoutRow)
    → is_processed height rows ≡ true
    → is_processed height (history ++ rows) ≡ true
unfolding is_processed
processed-append height [] rows h = h
processed-append height (r ∷ rs) rows h = ground (arith, processed-append height rs rows h)

processed-first :
    (height : ℕ) (e : CoinbaseDistributionEntry) (rows : List PayoutRow)
    → is_processed height (coinbase_row height e ∷ rows) ≡ true
unfolding is_processed
processed-first height e rows = ground arith

-- The rows of a block with an output process its height.
pub processed-rows :
    (height : ℕ) (snap : Snapshot) (window : List (Address × ℕ)) (history : List PayoutRow)
    (e : CoinbaseDistributionEntry) (es : List CoinbaseDistributionEntry)
    → snap.distribution ≡ e ∷ es
    → is_processed height (history ++ history_rows height snap window) ≡ true
unfolding history_rows
processed-rows height snap window history e es paying =
    let changed = unemitted (addresses snap.distribution) (keys snap.balance_after) in
    let late =
      unemitted (changed ++ addresses snap.distribution)
        (late_arrivals snap.considered_addresses window) in
    let more = pending_rows height changed ++ pending_rows height late in
    processed-append height history (coinbase_rows height snap.distribution ++ more) (
      ap (λ ds. is_processed height (coinbase_rows height ds ++ more)) paying
      ∙ processed-first height e (coinbase_rows height es ++ more))

pub replay :
    (config : PplnsConfig) (now height reward : ℕ) (s : PplnsState)
    → config.enabled ≡ true
    → is_processed height s.history ≡ true
    → on_pplns_block_found config now height reward s ≡ invalidate_distribution s
unfolding on_pplns_block_found
replay config now height reward s enabled processed = simp (enabled, processed) refl
