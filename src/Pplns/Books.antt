-- ===== src/Pplns/Books.antt =====
-- What the block-found handler of src/services/pplns.service.ts keeps: the ledger, the history with
-- its unique index, the snapshot, and the functions on them.
use blitzpool.Prelude.{
  ℕ, ◌+◌, Bool, true, false, ◌&&◌, ◌||◌, List, [], ◌∷◌, ◌++◌, Option, none, some, str_eq, ltb, ◌==◌,
  if◌then◌else◌,
}
use blitzpool.Prelude.Int.{ℤ, pos, pos_part, neg_part}
use blitzpool.Coinbase.Weight.{Address, AddressInfo}
use blitzpool.Coinbase.Input.{CoinbaseDistributionEntry, Percent, has}
use blitzpool.Pplns.{ShareWindow, Aggregate, Bucket, sum_buckets}

pub record BalanceRow : Type 0 where
  pub address : Address
  pub balance_sats : ℤ
  pub total_paid_sats : ℕ
  pub last_accepted_share_at : Option ℕ

pub data RowType : Type 0 where
  coinbase pending : RowType

pub record PayoutRow : Type 0 where
  pub block_height : ℕ
  pub address : Address
  pub paid_sats : ℕ
  pub row_type : RowType

pub record Snapshot : Type 0 where
  pub distribution : List CoinbaseDistributionEntry
  pub block_reward_sats : ℕ
  pub considered_addresses : List Address
  pub balance_after : List (Address × ℤ)

pub record PplnsConfig : Type 0 where
  pub enabled : Bool
  pub fee_address : Address
  pub fee_percent : Percent
  pub coinbase_weight_budget : ℕ
  pub min_payout_sats : Option ℕ
  pub address_info : AddressInfo

pub record PplnsState : Type 0 where
  pub window : ShareWindow
  pub ledger : List BalanceRow
  pub history : List PayoutRow
  pub snapshot : Option Snapshot
  pub last_distribution : Option (List CoinbaseDistributionEntry)

-- The fields of a hash of differences that are above 0.
unfoldable pub positives : Aggregate → List (Address × ℕ)
positives [] = []
positives ((a, d) ∷ m) =
    let rest = positives m in if ltb 0 (pos_part d) then (a, pos_part d) ∷ rest else rest

abbrev pub or_buckets : List (Address × ℕ) → List (ℕ × Bucket) → List (Address × ℕ)
or_buckets [] buckets = positives (sum_buckets buckets [])
or_buckets (x ∷ xs) buckets = x ∷ xs

unfoldable pub read_window_by_address : ShareWindow → List (Address × ℕ)
read_window_by_address w = or_buckets (positives w.by_address) w.buckets

-- `getAllWithBalance`, as a map.
unfoldable pub open_balances : List BalanceRow → List (Address × ℤ)
open_balances [] = []
open_balances (r ∷ rs) =
    let rest = open_balances rs in
    if pos_part r.balance_sats == 0 && neg_part r.balance_sats == 0
    then rest
    else (r.address, r.balance_sats) ∷ rest

-- A row of the ledger is set to its new balance; a miner of the window has his clock set.
unfoldable pub set_balance : ℕ → Bool → Address → ℤ → List BalanceRow → List BalanceRow
set_balance now is_active a b [] =
    record {
      address = a;
      balance_sats = b;
      total_paid_sats = 0;
      last_accepted_share_at = if is_active then some now else none;
    }
    ∷ []
set_balance now is_active a b (r ∷ rs) =
    let rest = set_balance now is_active a b rs in
    if str_eq r.address a
    then record r {
      balance_sats = b;
      last_accepted_share_at = if is_active then some now else r.last_accepted_share_at;
    }
      ∷ rs
    else r ∷ rest

unfoldable pub apply_balances :
    ℕ → List (Address × ℕ) → List (Address × ℤ) → List BalanceRow → List BalanceRow
unfolding set_balance
apply_balances now window [] rows = rows
apply_balances now window ((a, b) ∷ m) rows =
    apply_balances now window m (set_balance now (has a window) a b rows)

-- `totalPaidSats += sats`.
unfoldable pub add_paid : ℕ → Address → ℕ → List BalanceRow → List BalanceRow
add_paid now a sats [] =
    record {
      address = a;
      balance_sats = pos 0;
      total_paid_sats = sats;
      last_accepted_share_at = some now;
    }
    ∷ []
add_paid now a sats (r ∷ rs) =
    let rest = add_paid now a sats rs in
    if str_eq r.address a
    then record r { total_paid_sats = r.total_paid_sats + sats } ∷ rs
    else r ∷ rest

-- What goes to the fee address is in no row of the ledger.
unfoldable pub apply_payouts :
    ℕ → Address → List CoinbaseDistributionEntry → List BalanceRow → List BalanceRow
unfolding add_paid
apply_payouts now fee_address [] rows = rows
apply_payouts now fee_address (e ∷ es) rows =
    apply_payouts now fee_address es
      (if str_eq e.address fee_address then rows else add_paid now e.address e.sats rows)

unfoldable pub is_among : Address → List Address → Bool
is_among a [] = false
is_among a (b ∷ bs) = str_eq b a || is_among a bs

-- The addresses that have no row of this block yet, each once.
unfoldable pub unemitted : List Address → List Address → List Address
unfolding is_among
unemitted emitted [] = []
unemitted emitted (a ∷ rest) =
    let passed = unemitted emitted rest in
    let taken = unemitted (a ∷ emitted) rest in if is_among a emitted then passed else a ∷ taken

-- The addresses of the window that the snapshot did not consider.
unfoldable pub late_arrivals : List Address → List (Address × ℕ) → List Address
unfolding is_among
late_arrivals considered [] = []
late_arrivals considered ((a, d) ∷ w) =
    let rest = late_arrivals considered w in if is_among a considered then rest else a ∷ rest

abbrev pub coinbase_row : ℕ → CoinbaseDistributionEntry → PayoutRow
coinbase_row height e = record {
  block_height = height;
  address = e.address;
  paid_sats = e.sats;
  row_type = coinbase;
}

abbrev pub pending_row : ℕ → Address → PayoutRow
pending_row height a = record {
  block_height = height;
  address = a;
  paid_sats = 0;
  row_type = pending;
}

abbrev pub coinbase_rows : ℕ → List CoinbaseDistributionEntry → List PayoutRow
coinbase_rows height [] = []
coinbase_rows height (e ∷ es) = coinbase_row height e ∷ coinbase_rows height es

abbrev pub pending_rows : ℕ → List Address → List PayoutRow
pending_rows height [] = []
pending_rows height (a ∷ rest) = pending_row height a ∷ pending_rows height rest

abbrev pub addresses : List CoinbaseDistributionEntry → List Address
addresses [] = []
addresses (e ∷ es) = e.address ∷ addresses es

abbrev pub keys {ℓ} : {V : Type ℓ} → List (Address × V) → List Address
keys [] = []
keys ((a, v) ∷ m) = a ∷ keys m

-- The rows of a block: its outputs, the changed balances, the late arrivals.
unfoldable pub history_rows : ℕ → Snapshot → List (Address × ℕ) → List PayoutRow
history_rows height s window =
    let emitted = addresses s.distribution in
    let changed = unemitted emitted (keys s.balance_after) in
    let late = unemitted (changed ++ emitted) (late_arrivals s.considered_addresses window) in
    coinbase_rows height s.distribution ++ (pending_rows height changed ++ pending_rows height late)

-- The unique index on the height and the address.
unfoldable pub has_row : ℕ → Address → List PayoutRow → Bool
has_row height a [] = false
has_row height a (r ∷ rs) = r.block_height == height && str_eq r.address a || has_row height a rs

abbrev pub append_if : Bool → PayoutRow → List PayoutRow → Option (List PayoutRow)
append_if true row history = none
append_if false row history = some (history ++ row ∷ [])

abbrev pub bind {ℓ} : {A : Type ℓ} → Option A → (A → Option A) → Option A
bind none f = none
bind (some a) f = f a

-- `historyRepo.insert`: `none` is the error 23505.
unfoldable pub insert_rows : List PayoutRow → List PayoutRow → Option (List PayoutRow)
insert_rows [] history = some history
insert_rows (row ∷ rows) history =
    bind (append_if (has_row row.block_height row.address history) row history) (insert_rows rows)
