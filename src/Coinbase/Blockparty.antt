-- ===== src/Coinbase/Blockparty.antt =====
-- buildBlockpartyDistribution of src/services/blockparty-distribution.ts: a block is split by fixed
-- percentages. A percentage is in basis points, the fee a fraction.
pub mod Sums
use blitzpool.Prelude.{
  ℕ, ◌+◌, ◌-◌, ◌*◌, ◌/◌, max, Bool, true, false, ◌&&◌, List, [], ◌∷◌, ◌++◌, map, ltb, ◌==◌,
  if◌then◌else◌,
}
use blitzpool.Prelude.Int.{ℤ, pos, ◌-ℤ◌, pos_part}
use blitzpool.Prelude.Sort.{sum_of}
use blitzpool.Coinbase.Weight.{Address, dust_limit_sats}
use blitzpool.Coinbase.Input.{Percent, CoinbaseDistributionEntry, is_set}

pub record BlockpartyMemberInput : Type 0 where
  pub address : Address
  pub percent_bp : ℕ

pub record BlockpartyDistributionInput : Type 0 where
  pub members : List BlockpartyMemberInput
  pub block_reward_sats : ℕ
  pub pool_fee_address : Address
  pub pool_fee_percent : Percent
  pub min_payout_sats : ℕ

pub record BlockpartyDistributionSplit : Type 0 where
  pub address : Address
  pub percent_bp : ℕ
  pub sats : ℕ
  pub trimmed : Bool

-- The fee is below 0 where the members' percentages add up to more than a hundred.
pub record BlockpartyDistributionResult : Type 0 where
  pub splits : List BlockpartyDistributionSplit
  pub pool_fee_sats : ℤ
  pub payouts : List CoinbaseDistributionEntry

-- The fee is at most the reward, so the difference does not stop at 0.
unfoldable pub miner_cut : BlockpartyDistributionInput → ℕ
miner_cut i =
    i.block_reward_sats
    - i.block_reward_sats * i.pool_fee_percent.num / (100 * i.pool_fee_percent.den)

unfoldable pub split_member : ℕ → ℕ → BlockpartyMemberInput → BlockpartyDistributionSplit
split_member cut threshold m =
    let nominal = cut * m.percent_bp / 10000 in
    if ltb nominal threshold
    then record { address = m.address; percent_bp = m.percent_bp; sats = 0; trimmed = true }
    else record { address = m.address; percent_bp = m.percent_bp; sats = nominal; trimmed = false }

unfoldable pub split_members : BlockpartyDistributionInput → List BlockpartyDistributionSplit
split_members i = map (split_member (miner_cut i) (max i.min_payout_sats dust_limit_sats)) i.members

abbrev pub paid_to_members : List BlockpartyDistributionSplit → ℕ
paid_to_members = sum_of (λ s. s.sats)

unfoldable pub member_entries : List BlockpartyDistributionSplit → List CoinbaseDistributionEntry
member_entries [] = []
member_entries (s ∷ ss) =
    let rest = member_entries ss in
    if ltb 0 s.sats then record { address = s.address; sats = s.sats } ∷ rest else rest

unfoldable pub fee_entry : Address → ℤ → List CoinbaseDistributionEntry
fee_entry a fee =
    if is_set a && ltb 0 (pos_part fee)
    then record { address = a; sats = pos_part fee } ∷ []
    else []

unfoldable pub split_block : BlockpartyDistributionInput → BlockpartyDistributionResult
split_block i =
    let splits = split_members i in
    let fee = pos i.block_reward_sats -ℤ pos (paid_to_members splits) in
    record {
      splits = splits;
      pool_fee_sats = fee;
      payouts = fee_entry i.pool_fee_address fee ++ member_entries splits;
    }

-- The whole block is the pool's where there is no member.
unfoldable pub without_members : BlockpartyDistributionInput → BlockpartyDistributionResult
without_members i = record {
  splits = [];
  pool_fee_sats = pos i.block_reward_sats;
  payouts =
      if is_set i.pool_fee_address
      then record { address = i.pool_fee_address; sats = i.block_reward_sats } ∷ []
      else [];
}

abbrev pub by_members :
    BlockpartyDistributionInput → List BlockpartyMemberInput → BlockpartyDistributionResult
by_members i [] = without_members i
by_members i (m ∷ ms) = split_block i

unfoldable pub build_blockparty_distribution :
    BlockpartyDistributionInput → BlockpartyDistributionResult
build_blockparty_distribution i =
    if i.block_reward_sats == 0
    then record { splits = []; pool_fee_sats = pos 0; payouts = [] }
    else by_members i i.members
