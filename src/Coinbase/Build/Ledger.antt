-- ===== src/Coinbase/Build/Ledger.antt =====
-- The claims of the miners, in src/services/coinbase-distribution.ts, in the block and the ledger.
use mathlib.Core.List.{Perm}
use blitzpool.Prelude.{
  map, ℕ, ◌<◌, ◌≡◌, List, [], ◌∷◌, ◌++◌, Option, some, arith, true, false, Bool, inl, inr, ◌⊎◌, All,
  All-append, if◌then◌else◌, ◌==◌,
}
use blitzpool.Prelude.Int.{ℤ, pos, neg_part, ◌+ℤ◌, ◌≤ℤ◌, Agree, eq_of_parts, int_laws}
use blitzpool.Coinbase.Weight.{AddressInfo}
use blitzpool.Coinbase.Miner.{Miner, on_chain_total, active_shares}
use blitzpool.Coinbase.Input.{
  CoinbaseDistributionInput, CoinbaseDistributionEntry, split_reward, total_shares,
}
use blitzpool.Coinbase.Input.Laws.{IsPercent, split_reward-sum, split_reward-unemitted}
use blitzpool.Coinbase.Build.Trim.{IsIdle, split_miners-All}
use blitzpool.Coinbase.Build.Claims.{claim_of, claims_of, after_block-Perm}
use blitzpool.Coinbase.Build.Settle.{Settles, Settled}
use blitzpool.Coinbase.Build.Emission.{
  emitted, emitted-all_entries, paid-total, fee_split, zero_unless, settles,
}
use blitzpool.Coinbase.Build.{
  split_miners, settle_block, all_entries, or_fee_only, fee_only, emit, finish, entry,
  build_coinbase_distribution,
}

-- The claim of a miner is met: what he is paid and what the ledger keeps for him make up his part
-- of this block and his old balance.
abbrev pub ClaimIsKept : Miner → Type 0
ClaimIsKept c = c.on_chain +ℤ c.balance_new ≡ pos c.raw_fair +ℤ c.balance_old

-- What a miner worked for is in the block but for what he owed.
abbrev pub WorkIsPaid : Miner → Type 0
WorkIsPaid c = pos c.raw_fair ≤ℤ c.on_chain +ℤ pos (neg_part c.balance_old)

idle-ClaimIsKept : (c : Miner) → IsIdle c → ClaimIsKept c
idle-ClaimIsKept c h = eq_of_parts _ _ (omega (int_laws, h.claims, h.unpaid, h.keeps))

All-map_of :
    {P Q : Miner → Type 0} → ((c : Miner) → P c → Q c) → (cs : List Miner) → All P cs → All Q cs
All-map_of f [] h = tt
All-map_of f (c ∷ cs) h = (f c h.0, All-map_of f cs h.1)

whole_if :
    (s f : Bool) (n : ℕ) (total reward : ℤ)
    → Agree (total +ℤ pos (if s then n else 0)) reward
    → (s ≡ false) ⊎ (f ≡ true)
    → Agree (total +ℤ pos (if f then if s then n else 0 else 0)) reward
whole_if false true n total reward h k = h
whole_if false false n total reward h k = h
whole_if true true n total reward h k = h
whole_if true false n total reward h (inl k) = cc
whole_if true false n total reward h (inr k) = cc

pub pos_ne_zero : (n : ℕ) → 0 < n → (n == 0) ≡ false
pos_ne_zero n h = ground arith

module _ (info : AddressInfo) (i : CoinbaseDistributionInput) where
  -- The block of an input, if it is not the fallback.
  abbrev pub block_of : Option (List Miner × ℕ)
  block_of =
      settle_block i.suppress_matching_debits (split_reward i).reward_for_miners
        (split_miners info i (split_reward i))

  -- All miners after a block: the kept as it pays them, and the others.
  abbrev pub after_block : List Miner → List Miner
  after_block kept = let s = split_miners info i (split_reward i) in kept ++ s.trimmed ++ s.waiting

  pub claims_met :
      (kept : List Miner) (fee_bonus : ℕ)
      → block_of ≡ some (kept, fee_bonus)
      → All ClaimIsKept (after_block kept)
  claims_met kept fee_bonus e =
      let (whole, trimmed, waiting) = split_miners-All info i (split_reward i) in
      let h : Settled i.suppress_matching_debits (split_reward i).reward_for_miners
          (some (kept, fee_bonus)) =
        rw e at (settles info i) in
      All-append ClaimIsKept _ _
        (All-append ClaimIsKept kept _ (All-map_of (λ c k. eq_of_parts _ _ k.2) kept h.capped)
          (All-map_of idle-ClaimIsKept _ trimmed))
        (All-map_of idle-ClaimIsKept _ waiting)

  -- Whatever the block does with trims, bonuses, cuts and residuum, no claim is lost or made up.
  -- Where the block is not the fallback, the miners after it are, once each, the addresses of the
  -- input's shares, with their floor part of the reward and their old balance, and the other
  -- addresses of its balances that are not 0; and of every one of them the sats in the block and
  -- the new balance make up exactly his part of the reward and his old balance.
  pub claims_kept :
      (kept : List Miner) (fee_bonus : ℕ)
      → block_of ≡ some (kept, fee_bonus)
      → Perm (map claim_of (after_block kept)) (claims_of i) × All ClaimIsKept (after_block kept)
  claims_kept kept fee_bonus e =
      (after_block-Perm info i kept fee_bonus e, claims_met kept fee_bonus e)

  -- A miner in a block that is not the fallback is paid all that he worked for in this round, less
  -- a debt of his and nothing else, whatever the solvency cap cuts.
  pub work_paid :
      (kept : List Miner) (fee_bonus : ℕ) → block_of ≡ some (kept, fee_bonus) → All WorkIsPaid kept
  work_paid kept fee_bonus e =
      let h : Settled i.suppress_matching_debits (split_reward i).reward_for_miners
          (some (kept, fee_bonus)) =
        rw e at (settles info i) in
      All-map_of (λ c k. omega (int_laws, k.0)) kept h.capped

  -- Somebody who mined is in the block, or what is left goes to a fee output.
  abbrev pub IsAssigned : List Miner → Type 0
  IsAssigned kept =
      ((i.suppress_matching_debits ≡ false) × (0 < active_shares kept))
      ⊎ ((i.suppress_matching_debits ≡ true) × ((split_reward i).fee_emitted ≡ true))

  assigned_whole :
      (kept : List Miner) (fee_bonus : ℕ)
      → Settles i.suppress_matching_debits (split_reward i).reward_for_miners kept fee_bonus
      → IsAssigned kept
      → Agree
          (on_chain_total kept
            +ℤ pos (
                if (split_reward i).fee_emitted
                then if i.suppress_matching_debits then fee_bonus else 0
                else 0))
          (pos (split_reward i).reward_for_miners)
  assigned_whole kept fee_bonus h (inl (off, someone)) =
      whole_if i.suppress_matching_debits (split_reward i).fee_emitted fee_bonus
        (on_chain_total kept) (pos (split_reward i).reward_for_miners) (h.whole (inr someone))
        (inl off)
  assigned_whole kept fee_bonus h (inr (on, fee)) =
      whole_if i.suppress_matching_debits (split_reward i).fee_emitted fee_bonus
        (on_chain_total kept) (pos (split_reward i).reward_for_miners) (h.whole (inl on)) (inr fee)

  entries_exact :
      (kept : List Miner) (fee_bonus : ℕ)
      → IsPercent i.fee_percent
      → Settles i.suppress_matching_debits (split_reward i).reward_for_miners kept fee_bonus
      → IsAssigned kept
      → emitted (all_entries i (split_reward i) kept fee_bonus) ≡ i.block_reward_sats
  entries_exact kept fee_bonus percent h assigned =
      let r = split_reward i in
      let none_set = split_reward-unemitted i in
      omega (
        int_laws,
        emitted-all_entries i r kept fee_bonus,
        fee_split r.fee_emitted i.suppress_matching_debits r.fee_sats fee_bonus none_set.0,
        zero_unless r.bonus_emitted r.bonus_sats none_set.1,
        split_reward-sum i percent,
        paid-total kept h.capped,
        assigned_whole kept fee_bonus h assigned,
      )

  or_fee_only-exact :
      (es : List CoinbaseDistributionEntry)
      → emitted es ≡ i.block_reward_sats
      → emitted (or_fee_only i es) ≡ i.block_reward_sats
  unfolding fee_only entry
  or_fee_only-exact [] h = ground arith
  or_fee_only-exact (e ∷ es) h = h

  -- Not a sat of the reward is left out: where the block is not the fallback and somebody who
  -- mined is in it (or, with the debits suppressed, a fee output is), the outputs are worth the
  -- block reward exactly.
  pub emitted-eq-block_reward :
      (kept : List Miner) (fee_bonus : ℕ)
      → IsPercent i.fee_percent
      → 0 < total_shares i.address_shares
      → block_of ≡ some (kept, fee_bonus)
      → IsAssigned kept
      → emitted (build_coinbase_distribution info i).payouts ≡ i.block_reward_sats
  unfolding build_coinbase_distribution finish emit
  emitted-eq-block_reward kept fee_bonus percent shares e assigned =
      let h : Settled i.suppress_matching_debits (split_reward i).reward_for_miners
          (some (kept, fee_bonus)) =
        rw e at (settles info i) in
      rw (pos_ne_zero _ shares, e)
        (or_fee_only-exact _ (entries_exact kept fee_bonus percent h assigned))
