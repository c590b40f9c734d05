-- ===== src/Coinbase/Tests.antt =====
-- The coinbase distribution on small inputs.
use mathlib.Core.List.{Perm}
use blitzpool.Coinbase.Build.Claims.{claim_of, claims_of}
use blitzpool.Prelude.{
  map, ℕ, ◌≡◌, refl, ◌≤◌, Bool, true, false, List, [], ◌∷◌, Option, none, some, arith, All, inl,
  inr,
}
use blitzpool.Prelude.Int.{ℤ, pos, negsuc, ◌+ℤ◌, ◌-ℤ◌}
use blitzpool.Coinbase.Weight.{Address, AddressInfo, AddressType}
use blitzpool.Prelude.Sort.{sort}
use blitzpool.Prelude.Pick.{split_best}
use blitzpool.Prelude.{◌+◌, ◌⊎◌}
use blitzpool.Prelude.Sort.{sum_of}
use blitzpool.Coinbase.Weight.{Cache, output_weight, output_weight_for_address}
use blitzpool.Coinbase.Weight.Cached.{IsFaithful, output_weight_for_address-eq-output_weight}
use blitzpool.Coinbase.Build.{fixed_weight, weight_budget}
use blitzpool.Coinbase.Miner.{on_chain_total}
use blitzpool.Coinbase.Build.Neutral.{balance_total, old_total, part_total, balance_after-total}
use blitzpool.Coinbase.Build.Trim.{split_miners-weight}
use blitzpool.Coinbase.Blockparty.{BlockpartyDistributionInput, build_blockparty_distribution}
use blitzpool.Coinbase.Blockparty.Sums.{blockparty-exact}
use blitzpool.Coinbase.Miner.{Miner, grant, cut}
use blitzpool.Coinbase.Cap.{solvency_cap}
use blitzpool.Coinbase.Cap.Gap.{solvency_cap-three_equal}
use blitzpool.Coinbase.Input.{
  CoinbaseDistributionInput, CoinbaseDistributionEntry, has, split_reward, compute,
}
use blitzpool.Coinbase.Build.{build_coinbase_distribution, fee_only, settle_block, split_miners}
use blitzpool.Coinbase.Build.Emission.{emitted, emitted-le-block_reward}
use blitzpool.Coinbase.Build.Ledger.{
  block_of, after_block, claims_kept, work_paid, emitted-eq-block_reward, ClaimIsKept, WorkIsPaid,
}

abbrev segwit : AddressInfo
segwit a = some AddressType.p2wpkh

-- Two active miners, and a third with an old credit.
abbrev two_miners : CoinbaseDistributionInput
two_miners = record {
  address_shares = ("a", 3) ∷ ("b", 1) ∷ [];
  balances = ("b", negsuc 99) ∷ ("c", pos 700) ∷ [];
  block_reward_sats = 1000001;
  fee_percent = record { num = 2; den = 1 };
  fee_address = "fee";
  coinbase_weight_budget = 4000;
  suppress_matching_debits = false;
  min_payout_sats = none;
  finder_bonus_sats = none;
  finder_address = none;
}

abbrev entry_of : Address → ℕ → CoinbaseDistributionEntry
entry_of a n = record { address = a; sats = n }

-- The line opens all that a run goes through.
payouts_of : CoinbaseDistributionInput → List CoinbaseDistributionEntry
unfolding build_coinbase_distribution settle_block solvency_cap ◌-ℤ◌
    blitzpool.Coinbase.Miner.on_chain_total blitzpool.Coinbase.Build.redistribute
    blitzpool.Coinbase.Build.trimmed_total split_miners blitzpool.Coinbase.Build.trim sort
    blitzpool.Coinbase.Input.computations ◌+ℤ◌ blitzpool.Coinbase.Input.get split_reward
    blitzpool.Coinbase.Input.min_payout blitzpool.Coinbase.Input.wanted_fee
    blitzpool.Coinbase.Input.wanted_bonus blitzpool.Coinbase.Input.total_shares
    blitzpool.Coinbase.Build.all_entries blitzpool.Coinbase.Build.balance_changes
    blitzpool.Coinbase.Build.distribute_residuum blitzpool.Coinbase.Build.emit
    blitzpool.Coinbase.Build.entry blitzpool.Coinbase.Build.entry_if
    blitzpool.Coinbase.Build.fallback fee_only blitzpool.Coinbase.Build.filter_eligible
    blitzpool.Coinbase.Build.finish blitzpool.Coinbase.Build.fixed_weight
    blitzpool.Coinbase.Build.miner_entries blitzpool.Coinbase.Build.settle
    blitzpool.Coinbase.Build.settle_capped blitzpool.Coinbase.Build.weight_budget
    blitzpool.Coinbase.Cap.cut_at blitzpool.Coinbase.Cap.cut_claimers
    blitzpool.Coinbase.Cap.cut_floor blitzpool.Coinbase.Cap.floor_cut
    blitzpool.Coinbase.Cap.floor_cuts compute blitzpool.Coinbase.Input.compute_active
    blitzpool.Coinbase.Input.compute_pending blitzpool.Coinbase.Input.considered_addresses has
    blitzpool.Coinbase.Input.pending_addresses blitzpool.Coinbase.Miner.active_shares cut grant
    blitzpool.Coinbase.Miner.total_credit blitzpool.Coinbase.Share.assigned
    blitzpool.Coinbase.Share.bonus blitzpool.Coinbase.Share.distribute
    blitzpool.Coinbase.Share.grant_at blitzpool.Coinbase.Share.grant_largest
    blitzpool.Coinbase.Share.share_bonus blitzpool.Coinbase.Weight.computed_weight
    blitzpool.Coinbase.Weight.output_weight blitzpool.Coinbase.Weight.output_weight_by_type
    split_best blitzpool.Prelude.Sort.insert
payouts_of i = (build_coinbase_distribution segwit i).payouts

emitted-le-block_reward_example :
    emitted (build_coinbase_distribution segwit two_miners).payouts ≤ 1000001
emitted-le-block_reward_example = emitted-le-block_reward segwit two_miners (omega arith)

abbrev mined : Address → ℕ → ℕ → ℤ → Miner
mined a shares raw old = record {
  address = a;
  shares = shares;
  raw_fair = raw;
  balance_old = old;
  target = pos raw +ℤ old;
  eligible = true;
  on_chain = pos raw +ℤ old;
  balance_new = pos 0;
}

-- The third miner's credit is cut to what the two others leave.
abbrev two_miners_kept : List Miner
two_miners_kept =
    mined "a" 3 735000 (pos 0)
    ∷ mined "b" 1 245000 (negsuc 99)
    ∷ record (mined "c" 0 0 (pos 700)) { on_chain = pos 101; balance_new = pos 599 }
    ∷ []

two_miners_block : block_of segwit two_miners ≡ some (two_miners_kept, 0)
unfolding payouts_of
two_miners_block = refl

-- A miner below the threshold, and a balance of nobody who mined.
claims-run :
    claims_of (record two_miners { address_shares = ("a", 999999) ∷ ("e", 1) ∷ [] })
    ≡ ("a", 980000, pos 0) ∷ ("e", 0, pos 0) ∷ ("b", 0, negsuc 99) ∷ ("c", 0, pos 700) ∷ []
unfolding payouts_of
claims-run = refl

claims_kept_example :
    Perm (map claim_of (after_block segwit two_miners two_miners_kept)) (claims_of two_miners)
    × All ClaimIsKept (after_block segwit two_miners two_miners_kept)
claims_kept_example = claims_kept segwit two_miners two_miners_kept 0 two_miners_block

work_paid_example : All WorkIsPaid two_miners_kept
work_paid_example = work_paid segwit two_miners two_miners_kept 0 two_miners_block

emitted-eq-block_reward_example :
    emitted (build_coinbase_distribution segwit two_miners).payouts ≡ 1000001
emitted-eq-block_reward_example =
    emitted-eq-block_reward segwit two_miners two_miners_kept 0 (omega arith)
      (unfold payouts_of in omega arith) two_miners_block
      (inl (refl, unfold payouts_of in omega arith))

-- Three miners with equal shares and equal credits, whose debtor is gone, and one sat that the
-- floors leave: the whole block goes to the fee address.
abbrev debtor_gone : CoinbaseDistributionInput
debtor_gone = record two_miners {
  address_shares = ("a", 1) ∷ ("b", 1) ∷ ("c", 1) ∷ [];
  balances = ("a", pos 10) ∷ ("b", pos 10) ∷ ("c", pos 10) ∷ ("d", negsuc 29) ∷ [];
  block_reward_sats = 30001;
  fee_percent = record { num = 0; den = 1 };
}

debtor_gone-run : payouts_of debtor_gone ≡ entry_of "fee" 30001 ∷ []
unfolding payouts_of
debtor_gone-run = refl

solvency_cap-three_equal_example :
    solvency_cap
      (pos 29)
      (mined "a" 1 10000 (pos 10) ∷ mined "b" 1 10000 (pos 10) ∷ mined "c" 1 10000 (pos 10) ∷ [])
    ≡ none
solvency_cap-three_equal_example =
    solvency_cap-three_equal (mined "a" 1 10000 (pos 10)) (mined "b" 1 10000 (pos 10))
      (mined "c" 1 10000 (pos 10)) 9 refl refl refl

-- A trimmed miner's credit is given to the kept, who have none to cut: the same.
abbrev credit_trimmed : CoinbaseDistributionInput
credit_trimmed = record two_miners {
  address_shares = ("a", 9) ∷ ("b", 1) ∷ [];
  balances = ("b", pos 1000) ∷ [];
  fee_percent = record { num = 0; den = 1 };
  coinbase_weight_budget = 900;
}

credit_trimmed-run : payouts_of credit_trimmed ≡ entry_of "fee" 1000001 ∷ []
unfolding payouts_of
credit_trimmed-run = refl

split_miners-weight_example :
    (((split_miners segwit two_miners (split_reward two_miners)).kept ≡ [])
      ⊎ (fixed_weight segwit two_miners (split_reward two_miners)
            + sum_of
                (λ c. output_weight segwit c.address)
                (split_miners segwit two_miners (split_reward two_miners)).kept
            + 200
          ≤ weight_budget two_miners))
split_miners-weight_example = split_miners-weight segwit two_miners (split_reward two_miners)

abbrev warm : Cache
warm = ("a", 124) ∷ []

output_weight_for_address-eq-output_weight_example :
    ((output_weight_for_address segwit warm "b").0 ≡ output_weight segwit "b")
    × IsFaithful segwit (output_weight_for_address segwit warm "b").1
output_weight_for_address-eq-output_weight_example =
    output_weight_for_address-eq-output_weight segwit warm "b" (unfold payouts_of in (refl, tt))

-- Two members, the second under the threshold.
abbrev party : BlockpartyDistributionInput
party = record {
  members =
      record { address = "a"; percent_bp = 9990 } ∷ record { address = "b"; percent_bp = 10 } ∷ [];
  block_reward_sats = 100001;
  pool_fee_address = "fee";
  pool_fee_percent = record { num = 1; den = 2 };
  min_payout_sats = 5000;
}

blockparty-exact_example : emitted (build_blockparty_distribution party).payouts ≡ 100001
blockparty-exact_example = blockparty-exact party (omega arith) refl

balance_after-total_example :
    on_chain_total (after_block segwit two_miners two_miners_kept)
      +ℤ balance_total (build_coinbase_distribution segwit two_miners).balance_after
    ≡ pos (part_total (claims_of two_miners)) +ℤ old_total (claims_of two_miners)
balance_after-total_example =
    balance_after-total segwit two_miners two_miners_kept 0 (unfold payouts_of in omega arith)
      two_miners_block
