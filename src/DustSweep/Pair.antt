-- ===== src/DustSweep/Pair.antt =====
-- The transaction of one pair in src/services/dust-sweep.service.ts: its effect on the sum of the
-- ledger and on the rows in memory.
use blitzpool.Prelude.{◌≡◌, ◌≢◌, sym, ◌∙◌, false, List, [], ◌∷◌, Option, some, arith, All}
use blitzpool.Prelude.Int.{ℤ, pos, ◌+ℤ◌, ◌-ℤ◌, Agree, int_laws, one_sign}
use blitzpool.DustSweep.{PplnsBalance, write_balance, is_zero, amount_of}
use blitzpool.DustSweep.Rounds.{IsCredit, IsDebit}
use blitzpool.DustSweep.Rows.{
  balance_of, total_balance, IsSynced, total_balance-write_balance, balance_of-write_balance-other,
  balance_of-write_balance,
}

same_balance : {o : Option ℤ} {a b : ℤ} → o ≡ some a → o ≡ some b → a ≡ b
same_balance h k = cc

-- A credit and a debit in step with one ledger are of two addresses.
differ :
    (ledger : List PplnsBalance) (c d : PplnsBalance)
    → IsSynced ledger c
    → IsSynced ledger d
    → IsCredit c
    → IsDebit d
    → c.address ≢ d.address
differ ledger c d sc sd hc hd p =
    let same : c.balance_sats ≡ d.balance_sats = same_balance (rw p at sc) sd in
    absurd (omega (arith, one_sign c.balance_sats, (rw (sym same) at hd)))

abbrev pub credit_after : PplnsBalance → PplnsBalance → ℤ
credit_after c d = c.balance_sats -ℤ pos (amount_of c d)

abbrev pub debit_after : PplnsBalance → PplnsBalance → ℤ
debit_after c d = d.balance_sats +ℤ pos (amount_of c d)

abbrev credit_written : List PplnsBalance → PplnsBalance → PplnsBalance → List PplnsBalance
credit_written ledger c d = write_balance c.address (credit_after c d) ledger

-- The ledger after the transaction.
abbrev pub cancelled : List PplnsBalance → PplnsBalance → PplnsBalance → List PplnsBalance
cancelled ledger c d = write_balance d.address (debit_after c d) (credit_written ledger c d)

module _ (ledger : List PplnsBalance) (c d : PplnsBalance) (sc : IsSynced ledger c)
    (sd : IsSynced ledger d) (hc : IsCredit c) (hd : IsDebit d) where
  debit_still : balance_of d.address (credit_written ledger c d) ≡ some d.balance_sats
  debit_still =
      balance_of-write_balance-other c.address d.address (credit_after c d) ledger
        (differ ledger c d sc sd hc hd)
      ∙ sd

  pub cancelled-total : Agree (total_balance (cancelled ledger c d)) (total_balance ledger)
  cancelled-total = omega (
    int_laws,
    total_balance-write_balance c.address (credit_after c d) c.balance_sats ledger sc,
    total_balance-write_balance d.address (debit_after c d) d.balance_sats
        (credit_written ledger c d) debit_still,
  )

  -- The rows of other addresses stay in step.
  pub others-IsSynced :
      (rs : List PplnsBalance)
      → All (λ s. c.address ≢ s.address) rs
      → All (λ s. d.address ≢ s.address) rs
      → All (IsSynced ledger) rs
      → All (IsSynced (cancelled ledger c d)) rs
  others-IsSynced [] h k s = tt
  others-IsSynced (r ∷ rs) h k s = (
    balance_of-write_balance-other d.address r.address (debit_after c d) (credit_written ledger c d)
          k.0
        ∙ balance_of-write_balance-other c.address r.address (credit_after c d) ledger h.0
        ∙ s.0,
    others-IsSynced rs h.1 k.1 s.1,
  )

  pub credit-IsSynced :
      is_zero (credit_after c d) ≡ false
      → IsSynced (cancelled ledger c d) (record c { balance_sats = (credit_after c d) })
  credit-IsSynced z =
      balance_of-write_balance-other d.address c.address (debit_after c d)
        (credit_written ledger c d) (λ p. differ ledger c d sc sd hc hd (sym p))
      ∙ balance_of-write_balance c.address (credit_after c d) c.balance_sats ledger z sc

  pub debit-IsSynced :
      is_zero (debit_after c d) ≡ false
      → IsSynced (cancelled ledger c d) (record d { balance_sats = (debit_after c d) })
  debit-IsSynced z =
      balance_of-write_balance d.address (debit_after c d) d.balance_sats
        (credit_written ledger c d) z debit_still

  pub All-differ_credit :
      (ds : List PplnsBalance)
      → All (IsSynced ledger) ds
      → All IsDebit ds
      → All (λ s. c.address ≢ s.address) ds
  All-differ_credit [] s k = tt
  All-differ_credit (r ∷ rs) s k = (differ ledger c r sc s.0 hc k.0, All-differ_credit rs s.1 k.1)

  pub All-differ_debit :
      (cs : List PplnsBalance)
      → All (IsSynced ledger) cs
      → All IsCredit cs
      → All (λ s. d.address ≢ s.address) cs
  All-differ_debit [] s k = tt
  All-differ_debit (r ∷ rs) s k =
      (λ p. differ ledger r d s.0 sd k.0 hd (sym p), All-differ_debit rs s.1 k.1)
