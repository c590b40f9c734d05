-- ===== src/Coinbase/Build/Emission.antt =====
-- The sum of the outputs of a block, in src/services/coinbase-distribution.ts.
use blitzpool.Prelude.{
  ℕ, sym, ◌+◌, ◌≤◌, ◌≡◌, refl, List, [], ◌∷◌, ◌++◌, Option, none, some, arith, true, false, Bool,
  Bool-cases, inl, inr, All, if◌then◌else◌, ltb, ltb→ge, ◌==◌,
}
use blitzpool.Prelude.Int.{pos, pos_part, Agree, one_sign, int_laws}
use blitzpool.Prelude.Sort.{sort, sum_of, sum_of-append, sum_of-sort}
use blitzpool.Coinbase.Weight.{Address, AddressInfo, or_default}
use blitzpool.Coinbase.Miner.{Miner, on_chain_total}
use blitzpool.Coinbase.Cap.Bounds.{IsCapped}
use blitzpool.Coinbase.Input.{
  CoinbaseDistributionInput, CoinbaseDistributionEntry, Reward, split_reward, total_shares,
}
use blitzpool.Coinbase.Input.Laws.{IsPercent, split_reward-sum, split_reward-unemitted}
use blitzpool.Coinbase.Build.Trim.{split_miners-All}
use blitzpool.Coinbase.Build.Settle.{Settles, Settled, settle_block-Settled}
use blitzpool.Coinbase.Build.{
  pays_more, split_miners, settle_block, finish, entry, entry_if, fee_only, fallback, miner_entries,
  all_entries, or_fee_only, emit, build_coinbase_distribution,
}

-- The sats of all outputs.
abbrev pub emitted : List CoinbaseDistributionEntry → ℕ
emitted = sum_of (λ e. e.sats)

abbrev pub paid_sats : Miner → ℕ
paid_sats c = pos_part c.on_chain

miner_entries-emitted : (cs : List Miner) → emitted (miner_entries cs) ≡ sum_of paid_sats cs
unfolding miner_entries entry
miner_entries-emitted [] = refl
miner_entries-emitted (c ∷ cs) = elim (Bool-cases (ltb 0 (pos_part c.on_chain))) [
  | inl e ↦ rw e (omega (arith, miner_entries-emitted cs))
  | inr e ↦ rw e (omega (arith, ltb→ge 0 _ e, miner_entries-emitted cs))
]

-- With no negative amount among them nothing is lost by the filter.
pub paid-total :
    (cs : List Miner) → All IsCapped cs → Agree (pos (sum_of paid_sats cs)) (on_chain_total cs)
unfolding on_chain_total
paid-total [] h = refl
paid-total (c ∷ cs) h = omega (int_laws, h.0.1, one_sign c.on_chain, paid-total cs h.1)

emitted-entry_if :
    (b : Bool) (a : Address) (n : ℕ) → emitted (entry_if b a n) ≡ (if b then n else 0)
unfolding entry_if entry
emitted-entry_if true a n = omega arith
emitted-entry_if false a n = refl

pub emitted-all_entries :
    (i : CoinbaseDistributionInput) (r : Reward) (kept : List Miner) (fee_bonus : ℕ)
    → emitted (all_entries i r kept fee_bonus)
      ≡ (if r.fee_emitted
          then r.fee_sats + (if i.suppress_matching_debits then fee_bonus else 0)
          else 0)
        + (if r.bonus_emitted then r.bonus_sats else 0)
        + sum_of paid_sats kept
unfolding all_entries
emitted-all_entries i r kept fee_bonus =
    let fee = r.fee_sats + (if i.suppress_matching_debits then fee_bonus else 0) in
    let fees = entry_if r.fee_emitted i.fee_address fee in
    let bonus = entry_if r.bonus_emitted (or_default i.finder_address "") r.bonus_sats in
    omega (
      arith,
      sum_of-append (λ (e : CoinbaseDistributionEntry). e.sats) (fees ++ bonus)
          (miner_entries (sort pays_more kept)),
      sum_of-append (λ (e : CoinbaseDistributionEntry). e.sats) fees bonus,
      emitted-entry_if r.fee_emitted i.fee_address fee,
      emitted-entry_if r.bonus_emitted (or_default i.finder_address "") r.bonus_sats,
      miner_entries-emitted (sort pays_more kept),
      sum_of-sort pays_more paid_sats kept,
    )

pub zero_unless : (b : Bool) (n : ℕ) → ((b ≡ false) → n ≡ 0) → (if b then n else 0) ≡ n
zero_unless true n h = refl
zero_unless false n h = sym (h refl)

pub fee_split :
    (b c : Bool) (n m : ℕ)
    → ((b ≡ false) → n ≡ 0)
    → (if b then n + (if c then m else 0) else 0) ≡ n + (if b then if c then m else 0 else 0)
fee_split true c n m h = refl
fee_split false c n m h = omega (arith, h refl)

fee_part_le : (b : Bool) (n : ℕ) → (if b then n else 0) ≤ n
fee_part_le true n = omega arith
fee_part_le false n = omega arith

module _ (info : AddressInfo) (i : CoinbaseDistributionInput) where
  pub settles : Settled i.suppress_matching_debits (split_reward i).reward_for_miners (
      settle_block i.suppress_matching_debits
        (split_reward i).reward_for_miners
        (split_miners info i (split_reward i)))
  settles =
      let (kept, trimmed, waiting) = split_miners-All info i (split_reward i) in
      settle_block-Settled (split_miners info i (split_reward i)) trimmed waiting
        i.suppress_matching_debits (split_reward i).reward_for_miners kept

module _ (info : AddressInfo) (i : CoinbaseDistributionInput)
    (percent : IsPercent i.fee_percent) where
  -- A block that settles emits at most the reward.
  block_emitted :
      (kept : List Miner) (fee_bonus : ℕ)
      → Settles i.suppress_matching_debits (split_reward i).reward_for_miners kept fee_bonus
      → emitted (all_entries i (split_reward i) kept fee_bonus) ≤ i.block_reward_sats
  block_emitted kept fee_bonus h =
      let r = split_reward i in
      let none_set = split_reward-unemitted i in
      omega (
        int_laws,
        emitted-all_entries i r kept fee_bonus,
        fee_split r.fee_emitted i.suppress_matching_debits r.fee_sats fee_bonus none_set.0,
        fee_part_le r.fee_emitted (if i.suppress_matching_debits then fee_bonus else 0),
        zero_unless r.bonus_emitted r.bonus_sats none_set.1,
        split_reward-sum i percent,
        paid-total kept h.capped,
        h.within,
      )

  fee_only-emitted : emitted (fee_only i) ≤ i.block_reward_sats
  unfolding fee_only entry
  fee_only-emitted = ground arith

  or_fee_only-emitted :
      (es : List CoinbaseDistributionEntry)
      → emitted es ≤ i.block_reward_sats
      → emitted (or_fee_only i es) ≤ i.block_reward_sats
  or_fee_only-emitted [] h = fee_only-emitted
  or_fee_only-emitted (e ∷ es) h = h

  Settled-emitted :
      (o : Option (List Miner × ℕ))
      → Settled i.suppress_matching_debits (split_reward i).reward_for_miners o
      → emitted (finish info i o).payouts ≤ i.block_reward_sats
  unfolding finish emit fallback
  Settled-emitted none h = fee_only-emitted
  Settled-emitted (some (kept, fee_bonus)) h =
      or_fee_only-emitted _ (block_emitted kept fee_bonus h)

  -- The outputs of the result are worth at most the block reward, on every branch, the fallbacks
  -- included, if the fee is at most a hundred percent.
  pub emitted-le-block_reward :
      emitted (build_coinbase_distribution info i).payouts ≤ i.block_reward_sats
  unfolding build_coinbase_distribution fallback
  emitted-le-block_reward = elim (Bool-cases (total_shares i.address_shares == 0)) [
    | inl e ↦ rw e fee_only-emitted
    | inr e ↦ rw e (Settled-emitted _ (settles info i))
  ]
