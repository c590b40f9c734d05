-- ===== src/Coinbase/Build.antt =====
-- buildCoinbaseDistribution of src/services/coinbase-distribution.ts from its phase 3 on: who gets
-- an output of the block, what is paid, and what the ledger keeps.
-- The source changes the miners of `kept` in place, which are those of `computations`. The model
-- splits the computations three ways, into the kept, the trimmed and those that wait, and only the
-- kept ever change. The new balances, a map read by address, stand in the order of the three parts.
pub mod Trim
pub mod Settle
pub mod Emission
pub mod Claims
pub mod Ledger
pub mod Neutral
use blitzpool.Prelude.{
  ℕ, ◌+◌, ◌*◌, Bool, true, false, not, ◌&&◌, ◌||◌, List, [], ◌∷◌, ◌++◌, map, Option, none, some,
  ltb, leb, ◌==◌, if◌then◌else◌,
}
use blitzpool.Prelude.Int.{ℤ, pos, pos_part, neg_part, ◌+ℤ◌, ◌-ℤ◌, ltb_ℤ}
use blitzpool.Prelude.Sort.{sort}
use blitzpool.Coinbase.Weight.{
  Address, AddressInfo, output_weight, default_coinbase_weight_budget, coinbase_base_weight,
  coinbase_witness_commitment_weight, budget_safety_margin_wu, or_default,
}
use blitzpool.Coinbase.Miner.{Miner, is_active, on_chain_total}
use blitzpool.Coinbase.Share.{distribute}
use blitzpool.Coinbase.Cap.{solvency_cap}
use blitzpool.Coinbase.Input.{
  CoinbaseDistributionInput, CoinbaseDistributionEntry, CoinbaseDistributionResult, Reward,
  split_reward, computations, total_shares, considered_addresses, is_set,
}

pub record Split : Type 0 where
  pub kept : List Miner
  pub trimmed : List Miner
  pub waiting : List Miner

abbrev pub has_larger_target : Miner → Miner → Bool
has_larger_target a b = ltb_ℤ b.target a.target

abbrev pub pays_more : Miner → Miner → Bool
pays_more a b = ltb_ℤ b.on_chain a.on_chain

unfoldable pub filter_eligible : Bool → List Miner → List Miner
filter_eligible b [] = []
filter_eligible b (c ∷ cs) =
    let rest = filter_eligible b cs in
    if c.eligible then if b then c ∷ rest else rest else if b then rest else c ∷ rest

-- The miner goes to the block with his whole target, and owes or is owed nothing.
unfoldable pub settle : Miner → Miner
settle c = record c { on_chain = c.target; balance_new = pos 0 }

abbrev pub place : Bool → Miner → List Miner × List Miner → List Miner × List Miner
place true c (kept, trimmed) = (settle c ∷ kept, trimmed)
place false c (kept, trimmed) = (kept, c ∷ trimmed)

-- The greedy loop: an output that does not fit is passed over, and the loop goes on.
unfoldable pub trim : (Address → ℕ) → ℕ → ℕ → List Miner → List Miner × List Miner
trim weight budget used [] = ([], [])
trim weight budget used (c ∷ cs) =
    let fits = leb (used + weight c.address + budget_safety_margin_wu) budget in
    place fits c (trim weight budget (if fits then used + weight c.address else used) cs)

unfoldable pub fixed_weight : AddressInfo → CoinbaseDistributionInput → Reward → ℕ
fixed_weight info i r =
    coinbase_base_weight
    + coinbase_witness_commitment_weight
    + (if r.fee_emitted then output_weight info i.fee_address else 0)
    + (if r.bonus_emitted
        then elim i.finder_address [ some a ↦ output_weight info a | none ↦ 0 ]
        else 0)

unfoldable pub weight_budget : CoinbaseDistributionInput → ℕ
weight_budget i =
    if ltb 0 i.coinbase_weight_budget
    then i.coinbase_weight_budget
    else default_coinbase_weight_budget

unfoldable pub split_miners : AddressInfo → CoinbaseDistributionInput → Reward → Split
unfolding filter_eligible
split_miners info i r =
    let all = computations i r in
    let (kept, trimmed) =
      trim (output_weight info) (weight_budget i) (fixed_weight info i r)
        (sort has_larger_target (filter_eligible true all)) in
    record { kept = kept; trimmed = trimmed; waiting = filter_eligible false all }

-- What the trimmed earned in this block.
unfoldable pub trimmed_total : List Miner → ℤ
trimmed_total [] = pos 0
trimmed_total (c ∷ cs) = (if is_active c then c.target else pos 0) +ℤ trimmed_total cs

-- Phase 5a: it goes to the kept, or to the fee. A distribution with nobody active changes nothing.
unfoldable pub redistribute : Bool → ℤ → List Miner → List Miner × ℕ
redistribute suppress total kept =
    if ltb 0 (pos_part total)
    then if suppress then (kept, pos_part total) else (distribute (pos_part total) kept, 0)
    else (kept, 0)

-- Phase 5b: what is left of the reward goes to the kept, or to the fee. `none` is the fallback.
unfoldable pub distribute_residuum : Bool → ℤ → List Miner → ℕ → Option (List Miner × ℕ)
distribute_residuum suppress residuum kept fee_bonus =
    if ltb 0 (pos_part residuum)
    then if suppress
      then some (kept, fee_bonus + pos_part residuum)
      else some (distribute (pos_part residuum) kept, fee_bonus)
    else if ltb 0 (neg_part residuum)
    then none
    else some (kept, fee_bonus)

-- The sum of `onChain` over all computations.
abbrev pub block_total : Split → List Miner → ℤ
block_total s kept = on_chain_total (kept ++ s.trimmed ++ s.waiting)

unfoldable pub settle_capped : Bool → ℕ → Split → ℕ → Option (List Miner) → Option (List Miner × ℕ)
settle_capped suppress reward s fee_bonus none = none
settle_capped suppress reward s fee_bonus (some capped) =
    distribute_residuum suppress
      (pos reward -ℤ block_total s capped -ℤ pos (if suppress then fee_bonus else 0)) capped
      fee_bonus

-- Phases 5a to 5b: the kept miners as the block pays them, and what the fee has on top.
unfoldable pub settle_block : Bool → ℕ → Split → Option (List Miner × ℕ)
unfolding settle_capped
settle_block suppress reward s =
    let (first, fee_bonus) = redistribute suppress (trimmed_total s.trimmed) s.kept in
    settle_capped suppress reward s fee_bonus
      (solvency_cap (block_total s first -ℤ pos reward) first)

unfoldable pub entry : Address → ℕ → CoinbaseDistributionEntry
entry a n = record { address = a; sats = n }

-- The whole block to the fee address, and no change of the ledger.
unfoldable pub fee_only : CoinbaseDistributionInput → List CoinbaseDistributionEntry
unfolding entry
fee_only i = if is_set i.fee_address then entry i.fee_address i.block_reward_sats ∷ [] else []

unfoldable pub fallback : CoinbaseDistributionInput → CoinbaseDistributionResult
unfolding fee_only
fallback i = record {
  payouts = fee_only i;
  considered_addresses = considered_addresses i;
  balance_after = [];
}

unfoldable pub miner_entries : List Miner → List CoinbaseDistributionEntry
unfolding entry
miner_entries [] = []
miner_entries (c ∷ cs) =
    let rest = miner_entries cs in
    if ltb 0 (pos_part c.on_chain) then entry c.address (pos_part c.on_chain) ∷ rest else rest

unfoldable pub balance_changes : List Miner → List (Address × ℤ)
balance_changes [] = []
balance_changes (c ∷ cs) =
    let rest = balance_changes cs in
    if (pos_part c.balance_old == 0 && neg_part c.balance_old == 0)
      && (pos_part c.balance_new == 0 && neg_part c.balance_new == 0)
    then rest
    else (c.address, c.balance_new) ∷ rest

unfoldable pub entry_if : Bool → Address → ℕ → List CoinbaseDistributionEntry
unfolding entry
entry_if true a n = entry a n ∷ []
entry_if false a n = []

-- Phase 6.
unfoldable pub all_entries :
    CoinbaseDistributionInput → Reward → List Miner → ℕ → List CoinbaseDistributionEntry
unfolding entry_if
all_entries i r kept fee_bonus =
    entry_if r.fee_emitted i.fee_address
      (r.fee_sats + (if i.suppress_matching_debits then fee_bonus else 0))
    ++ entry_if r.bonus_emitted (or_default i.finder_address "") r.bonus_sats
    ++ miner_entries (sort pays_more kept)

abbrev pub or_fee_only :
    CoinbaseDistributionInput → List CoinbaseDistributionEntry → List CoinbaseDistributionEntry
or_fee_only i [] = fee_only i
or_fee_only i (e ∷ es) = e ∷ es

unfoldable pub emit :
    CoinbaseDistributionInput → Reward → Split → List Miner × ℕ → CoinbaseDistributionResult
unfolding all_entries balance_changes
emit i r s (kept, fee_bonus) = record {
  payouts = or_fee_only i (all_entries i r kept fee_bonus);
  considered_addresses = considered_addresses i;
  balance_after = balance_changes (kept ++ s.trimmed ++ s.waiting);
}

-- The result for a block of the kept miners, or the fallback.
unfoldable pub finish :
    AddressInfo → CoinbaseDistributionInput → Option (List Miner × ℕ) → CoinbaseDistributionResult
unfolding fallback emit
finish info i none = fallback i
finish info i (some block) = emit i (split_reward i) (split_miners info i (split_reward i)) block

unfoldable pub build_coinbase_distribution :
    AddressInfo → CoinbaseDistributionInput → CoinbaseDistributionResult
unfolding finish
build_coinbase_distribution info i =
    let r = split_reward i in
    if total_shares i.address_shares == 0
    then fallback i
    else finish info i
        (settle_block i.suppress_matching_debits r.reward_for_miners (split_miners info i r))
