-- ===== src/Coinbase/Input.antt =====
-- The input and the result of buildCoinbaseDistribution in src/services/coinbase-distribution.ts,
-- and its first part: what is set aside for the fee and the finder, and what each miner has earned.
-- Maps are lists of pairs in the order of insertion. Share counts are exact: counts with a
-- fractional part are multiplied by a common denominator, which no quotient here depends on. A
-- percentage is a fraction.
pub mod Laws
use blitzpool.Prelude.{
  ℕ, ◌+◌, ◌-◌, ◌*◌, ◌/◌, min, max, Bool, true, false, not, ◌&&◌, ◌||◌, List, [], ◌∷◌, ◌++◌, map,
  Option, none, some, str_eq, ltb, leb, ◌==◌, if◌then◌else◌,
}
use blitzpool.Prelude.Int.{ℤ, pos, negsuc, ◌+ℤ◌, pos_part, neg_part, ltb_ℤ}
use blitzpool.Coinbase.Weight.{Address, dust_limit_sats, or_default}
use blitzpool.Coinbase.Miner.{Miner}

pub record Percent : Type 0 where
  pub num : ℕ
  pub den : ℕ

pub record CoinbaseDistributionInput : Type 0 where
  pub address_shares : List (Address × ℕ)
  pub balances : List (Address × ℤ)
  pub block_reward_sats : ℕ
  pub fee_percent : Percent
  pub fee_address : Address
  pub coinbase_weight_budget : ℕ
  pub suppress_matching_debits : Bool
  pub min_payout_sats : Option ℕ
  pub finder_bonus_sats : Option ℕ
  pub finder_address : Option Address

-- A `percent` is for display, and follows from `sats` and the reward.
pub record CoinbaseDistributionEntry : Type 0 where
  pub address : Address
  pub sats : ℕ

pub record CoinbaseDistributionResult : Type 0 where
  pub payouts : List CoinbaseDistributionEntry
  pub considered_addresses : List Address
  pub balance_after : List (Address × ℤ)

-- `Map.has`, `Map.get`.
unfoldable pub has {ℓ} : {V : Type ℓ} → Address → List (Address × V) → Bool
has a [] = false
has a ((b, v) ∷ m) = str_eq b a || has a m

unfoldable pub get {ℓ} : {V : Type ℓ} → Address → List (Address × V) → Option V
get a [] = none
get a ((b, v) ∷ m) = if str_eq b a then some v else get a m

abbrev pub is_set : Address → Bool
is_set a = not (str_eq a "")

-- `minPayout`: an absent or zero setting stands for the dust limit, the floor of all.
unfoldable pub min_payout : Option ℕ → ℕ
min_payout setting =
    max dust_limit_sats
      (elim setting [ some m ↦ if ltb 0 m then m else dust_limit_sats | none ↦ dust_limit_sats ])

unfoldable pub total_shares : List (Address × ℕ) → ℕ
total_shares [] = 0
total_shares ((a, s) ∷ m) = s + total_shares m

-- The addresses of the balances that have no shares.
unfoldable pub pending_addresses : List (Address × ℕ) → List (Address × ℤ) → List Address
pending_addresses shares [] = []
pending_addresses shares ((a, b) ∷ m) =
    let rest = pending_addresses shares m in if has a shares then rest else a ∷ rest

unfoldable pub considered_addresses : CoinbaseDistributionInput → List Address
unfolding pending_addresses
considered_addresses i =
    map (λ e. e.0) i.address_shares ++ pending_addresses i.address_shares i.balances

pub record Reward : Type 0 where
  pub fee_emitted : Bool
  pub fee_sats : ℕ
  pub bonus_emitted : Bool
  pub bonus_sats : ℕ
  pub reward_for_miners : ℕ

unfoldable pub wanted_fee : CoinbaseDistributionInput → ℕ
wanted_fee i = i.fee_percent.num * i.block_reward_sats / (100 * i.fee_percent.den)

unfoldable pub wanted_bonus : CoinbaseDistributionInput → ℕ
wanted_bonus i = elim i.finder_address [
  | some a ↦ if is_set a then or_default i.finder_bonus_sats 0 else 0
  | none ↦ 0
]

-- The fee is at most the reward, so the difference does not stop at 0.
unfoldable pub split_reward : CoinbaseDistributionInput → Reward
split_reward i =
    let floor = min_payout i.min_payout_sats in
    let wanted = wanted_fee i in
    let fee_emitted = is_set i.fee_address && leb floor wanted in
    let fee : ℕ = if fee_emitted then wanted else 0 in
    let after_fee = i.block_reward_sats - fee in
    let capped = min (wanted_bonus i) (after_fee * 95 / 100) in
    let bonus_emitted = leb floor capped in
    let bonus : ℕ = if bonus_emitted then capped else 0 in
    record {
      fee_emitted = fee_emitted;
      fee_sats = fee;
      bonus_emitted = bonus_emitted;
      bonus_sats = bonus;
      reward_for_miners = after_fee - bonus;
    }

-- Phases 1 and 2 for one miner.
unfoldable pub compute : ℕ → Address → ℕ → ℕ → ℤ → Miner
compute floor a shares raw_fair balance_old =
    let target = pos raw_fair +ℤ balance_old in
    record {
      address = a;
      shares = shares;
      raw_fair = raw_fair;
      balance_old = balance_old;
      target = target;
      eligible = not (ltb_ℤ target (pos floor));
      on_chain = pos 0;
      balance_new = target;
    }

-- The miners with shares in this round.
unfoldable pub compute_active : ℕ → ℕ → ℕ → List (Address × ℤ) → List (Address × ℕ) → List Miner
unfolding compute
compute_active floor reward total balances [] = []
compute_active floor reward total balances ((a, s) ∷ m) =
    compute floor a s (s * reward / total) (or_default (get a balances) (pos 0))
    ∷ compute_active floor reward total balances m

-- Those with a balance only.
unfoldable pub compute_pending : ℕ → List (Address × ℕ) → List (Address × ℤ) → List Miner
unfolding compute
compute_pending floor shares [] = []
compute_pending floor shares ((a, b) ∷ m) =
    let rest = compute_pending floor shares m in
    if has a shares || (pos_part b == 0 && neg_part b == 0)
    then rest
    else compute floor a 0 0 b ∷ rest

unfoldable pub computations : CoinbaseDistributionInput → Reward → List Miner
unfolding compute_active compute_pending
computations i r =
    let floor = min_payout i.min_payout_sats in
    compute_active floor r.reward_for_miners (total_shares i.address_shares) i.balances
      i.address_shares
    ++ compute_pending floor i.address_shares i.balances
