-- ===== src/Pplns/Booked.antt =====
-- What applyDistribution of src/services/pplns.service.ts writes: the rows of a block and the sums of
-- the ledger.
use mathlib.Core.List.{append-nil, append_assoc}
use blitzpool.Prelude.{
  none-some, ℕ, ◌+◌, ◌≡◌, refl, ap, ◌∙◌, Bool, List, [], ◌∷◌, ◌++◌, some, str_eq, if◌then◌else◌,
  arith, Bool-cases, inl, inr,
}
use blitzpool.Prelude.Sort.{sum_of, sum_of-append}
use blitzpool.Coinbase.Weight.{Address}
use blitzpool.Prelude.Int.{ℤ}
use blitzpool.Coinbase.Input.{has, CoinbaseDistributionEntry}
use blitzpool.Coinbase.Build.Emission.{emitted}
use blitzpool.Pplns.Books.{
  BalanceRow, PayoutRow, Snapshot, set_balance, apply_balances, add_paid, apply_payouts,
  coinbase_rows, pending_rows, history_rows, has_row, insert_rows, addresses, keys, unemitted,
  late_arrivals,
}

-- What the rows of the history paid, what the ledger says was paid, and what of a distribution goes
-- to others than the pool.
abbrev pub paid_rows : List PayoutRow → ℕ
paid_rows = sum_of (λ r. r.paid_sats)

abbrev pub paid_total : List BalanceRow → ℕ
paid_total = sum_of (λ r. r.total_paid_sats)

unfoldable pub to_miners : Address → List CoinbaseDistributionEntry → ℕ
to_miners fee_address [] = 0
to_miners fee_address (e ∷ es) =
    (if str_eq e.address fee_address then 0 else e.sats) + to_miners fee_address es

set_balance-paid :
    (now : ℕ) (b : Bool) (a : Address) (v : ℤ) (rows : List BalanceRow)
    → paid_total (set_balance now b a v rows) ≡ paid_total rows
unfolding set_balance
set_balance-paid now b a v [] = refl
set_balance-paid now b a v (r ∷ rs) = elim (Bool-cases (str_eq r.address a)) [
  | inl e ↦ rw e refl
  | inr e ↦ rw e (ap (λ n. r.total_paid_sats + n) (set_balance-paid now b a v rs))
]

pub apply_balances-paid :
    (now : ℕ) (window : List (Address × ℕ)) (m : List (Address × ℤ)) (rows : List BalanceRow)
    → paid_total (apply_balances now window m rows) ≡ paid_total rows
unfolding apply_balances
apply_balances-paid now window [] rows = refl
apply_balances-paid now window ((a, b) ∷ m) rows =
    apply_balances-paid now window m (set_balance now (has a window) a b rows)
    ∙ set_balance-paid now (has a window) a b rows

add_paid-paid :
    (now : ℕ) (a : Address) (sats : ℕ) (rows : List BalanceRow)
    → paid_total (add_paid now a sats rows) ≡ paid_total rows + sats
unfolding add_paid
add_paid-paid now a sats [] = omega arith
add_paid-paid now a sats (r ∷ rs) = elim (Bool-cases (str_eq r.address a)) [
  | inl e ↦ rw e (omega arith)
  | inr e ↦ rw e (omega (arith, add_paid-paid now a sats rs))
]

pub apply_payouts-paid :
    (now : ℕ) (fee_address : Address) (es : List CoinbaseDistributionEntry) (rows : List BalanceRow)
    → paid_total (apply_payouts now fee_address es rows)
      ≡ paid_total rows + to_miners fee_address es
unfolding apply_payouts to_miners
apply_payouts-paid now fee_address [] rows = omega arith
apply_payouts-paid now fee_address (e ∷ es) rows =
    elim (Bool-cases (str_eq e.address fee_address)) [
      | inl k ↦ rw k (omega (arith, apply_payouts-paid now fee_address es rows))
      | inr k ↦ rw k (
          omega (
            arith,
            apply_payouts-paid now fee_address es (add_paid now e.address e.sats rows),
            add_paid-paid now e.address e.sats rows,
          ))
    ]

paid_coinbase_rows :
    (height : ℕ) (es : List CoinbaseDistributionEntry)
    → paid_rows (coinbase_rows height es) ≡ emitted es
paid_coinbase_rows height [] = refl
paid_coinbase_rows height (e ∷ es) = ap (λ n. e.sats + n) (paid_coinbase_rows height es)

paid_pending_rows : (height : ℕ) (late : List Address) → paid_rows (pending_rows height late) ≡ 0
paid_pending_rows height [] = refl
paid_pending_rows height (a ∷ rest) = omega (arith, paid_pending_rows height rest)

pub paid_history_rows :
    (height : ℕ) (s : Snapshot) (window : List (Address × ℕ))
    → paid_rows (history_rows height s window) ≡ emitted s.distribution
unfolding history_rows
paid_history_rows height s window =
    let emitted_rows = coinbase_rows height s.distribution in
    let changed = unemitted (addresses s.distribution) (keys s.balance_after) in
    let late =
      unemitted (changed ++ addresses s.distribution)
        (late_arrivals s.considered_addresses window) in
    sum_of-append (λ (r : PayoutRow). r.paid_sats) emitted_rows
      (pending_rows height changed ++ pending_rows height late)
    ∙ omega (
      arith,
      sum_of-append (λ (r : PayoutRow). r.paid_sats) (pending_rows height changed)
          (pending_rows height late),
      paid_coinbase_rows height s.distribution,
      paid_pending_rows height changed,
      paid_pending_rows height late,
    )

-- Rows are written all together, behind those that are there.
pub insert_rows-append :
    (rows history : List PayoutRow) {h : List PayoutRow}
    → insert_rows rows history ≡ some h
    → h ≡ history ++ rows
unfolding insert_rows
insert_rows-append [] history e = cc (append-nil history)
insert_rows-append (r ∷ rows) history {h} e =
    elim (Bool-cases (has_row r.block_height r.address history)) [
      | inl k ↦ absurd (none-some (rw k at e))
      | inr k ↦
          insert_rows-append rows (history ++ r ∷ []) (rw k at e)
          ∙ append_assoc history (r ∷ []) rows
    ]
