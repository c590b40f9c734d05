-- ===== src/Pplns/Balances.antt =====
-- The balance of an address in the ledger while src/services/pplns.service.ts books a block.
use text.Mathlib.TextEquality.{eq_iff}
use blitzpool.Prelude.{
  true-false, ℕ, ◌≡◌, refl, sym, ap, ◌∙◌, Bool, true, false, List, [], ◌∷◌, Option, none, some,
  str_eq, if◌then◌else◌, arith, Bool-cases, inl, inr,
}
use blitzpool.Prelude.Int.{ℤ}
use blitzpool.Coinbase.Weight.{Address}
use blitzpool.Coinbase.Input.{CoinbaseDistributionEntry, has, get}
use blitzpool.Pplns.Books.{
  BalanceRow, set_balance, apply_balances, add_paid, apply_payouts, keys, is_among,
}
use blitzpool.Pplns.Fresh.{AllFresh}

unfoldable pub balance_in : Address → List BalanceRow → Option ℤ
balance_in a [] = none
balance_in a (r ∷ rs) = if str_eq r.address a then some r.balance_sats else balance_in a rs

pub balance-set :
    (now : ℕ) (active : Bool) (a k : Address) (b : ℤ) (rows : List BalanceRow)
    → balance_in k (set_balance now active a b rows)
      ≡ (if str_eq a k then some b else balance_in k rows)
unfolding balance_in set_balance
balance-set now active a k b [] = refl
balance-set now active a k b (r ∷ rs) =
    ground
      (arith, eq_iff a k, eq_iff r.address k, eq_iff r.address a, balance-set now active a k b rs)

-- A balance that the ledger is given stays, if no later one is for the same address.
pub balance-kept :
    (now : ℕ) (window : List (Address × ℕ)) (m : List (Address × ℤ)) (k : Address)
    (rows : List BalanceRow)
    → is_among k (keys m) ≡ false
    → balance_in k (apply_balances now window m rows) ≡ balance_in k rows
unfolding apply_balances is_among
balance-kept now window [] k rows h = refl
balance-kept now window ((a, b) ∷ m) k rows h = elim (Bool-cases (str_eq a k)) [
  | inl e ↦ absurd (true-false (rw e at h))
  | inr e ↦
      balance-kept now window m k (set_balance now (has a window) a b rows) (rw e at h)
      ∙ balance-set now (has a window) a k b rows
      ∙ rw e refl
]

pub fresh-unseen :
    (k : Address) (seen all : List Address)
    → is_among k seen ≡ true
    → AllFresh seen all
    → is_among k all ≡ false
unfolding is_among
fresh-unseen k seen [] among h = refl
fresh-unseen k seen (a ∷ rest) among h = elim (Bool-cases (str_eq a k)) [
  | inl e ↦
      absurd (true-false (sym among ∙ ap (λ x. is_among x seen) (sym ((eq_iff a k).0 e)) ∙ h.0))
  | inr e ↦ rw e (fresh-unseen k (a ∷ seen) rest (rw e among) h.1)
]

pub balance-applied :
    (now : ℕ) (window : List (Address × ℕ)) (m : List (Address × ℤ)) (seen : List Address)
    (k : Address) (rows : List BalanceRow) {b : ℤ}
    → AllFresh seen (keys m)
    → get k m ≡ some b
    → balance_in k (apply_balances now window m rows) ≡ some b
unfolding apply_balances get is_among
balance-applied now window [] seen k rows h found = cc
balance-applied now window ((a, v) ∷ m) seen k rows h found = elim (Bool-cases (str_eq a k)) [
  | inl e ↦
      let kept : is_among k (keys m) ≡ false = fresh-unseen k (a ∷ seen) (keys m) (rw e refl) h.1 in
      balance-kept now window m k (set_balance now (has a window) a v rows) kept
      ∙ balance-set now (has a window) a k v rows
      ∙ rw e (rw e at found)
  | inr e ↦
      balance-applied now window m (a ∷ seen) k (set_balance now (has a window) a v rows) h.1
        (rw e at found)
]

pub balance-add_paid :
    (now : ℕ) (a k : Address) (sats : ℕ) (rows : List BalanceRow) {b : ℤ}
    → balance_in k rows ≡ some b
    → balance_in k (add_paid now a sats rows) ≡ some b
unfolding balance_in add_paid
balance-add_paid now a k sats [] h = cc
balance-add_paid now a k sats (r ∷ rs) {b} h = elim (Bool-cases (str_eq r.address a)) [
  | inl e ↦ rw e h
  | inr e ↦ elim (Bool-cases (str_eq r.address k)) [
    | inl i ↦ rw (e, i) (rw i at h)
    | inr i ↦ rw (e, i) (balance-add_paid now a k sats rs (rw i at h))
  ]
]

pub balance-payouts :
    (now : ℕ) (fee_address k : Address) (es : List CoinbaseDistributionEntry)
    (rows : List BalanceRow) {b : ℤ}
    → balance_in k rows ≡ some b
    → balance_in k (apply_payouts now fee_address es rows) ≡ some b
unfolding apply_payouts
balance-payouts now fee_address k [] rows h = h
balance-payouts now fee_address k (e ∷ es) rows {b} h =
    elim (Bool-cases (str_eq e.address fee_address)) [
      | inl i ↦ rw i (balance-payouts now fee_address k es rows h)
      | inr i ↦ rw i (
          balance-payouts now fee_address k es (add_paid now e.address e.sats rows)
            (balance-add_paid now e.address k e.sats rows h))
    ]
