-- ===== src/Coinbase/Blockparty/Sums.antt =====
-- The sums of a block in src/services/blockparty-distribution.ts.
use blitzpool.Prelude.{
  ℕ, ◌*◌, ◌/◌, ◌≤◌, ◌≡◌, refl, max, true, false, List, [], ◌∷◌, map, arith, ltb, ltb→ge, Bool-cases,
  inl, inr, ◌==◌, ◌⊎◌, All,
}
use blitzpool.Prelude.Int.{ℤ, pos, pos_part, ◌-ℤ◌, one_sign, int_laws}
use blitzpool.Prelude.Sort.{sum_of, sum_of-append}
use blitzpool.Coinbase.Weight.{dust_limit_sats}
use blitzpool.Coinbase.Input.{CoinbaseDistributionEntry, is_set}
use blitzpool.Coinbase.Build.Emission.{emitted}
use blitzpool.Coinbase.Blockparty.{
  BlockpartyMemberInput, BlockpartyDistributionInput, BlockpartyDistributionSplit, miner_cut,
  split_member, split_members, paid_to_members, member_entries, fee_entry, split_block,
  without_members, by_members, build_blockparty_distribution,
}

abbrev pub total_bp : List BlockpartyMemberInput → ℕ
total_bp = sum_of (λ m. m.percent_bp)

floor_scaled : (cut bp : ℕ) → cut * bp / 10000 * 10000 ≤ cut * bp
floor_scaled cut bp = omega arith

split_member_le :
    (cut threshold : ℕ) (m : BlockpartyMemberInput)
    → (split_member cut threshold m).sats * 10000 ≤ cut * m.percent_bp
unfolding split_member
split_member_le cut threshold m = ground (arith, floor_scaled cut m.percent_bp)

paid_scaled :
    (cut threshold : ℕ) (ms : List BlockpartyMemberInput)
    → paid_to_members (map (split_member cut threshold) ms) * 10000 ≤ cut * total_bp ms
paid_scaled cut threshold [] = omega arith
paid_scaled cut threshold (m ∷ ms) =
    grind (arith, split_member_le cut threshold m, paid_scaled cut threshold ms)

paid_le :
    (cut threshold : ℕ) (ms : List BlockpartyMemberInput)
    → total_bp ms ≤ 10000
    → paid_to_members (map (split_member cut threshold) ms) ≤ cut
paid_le cut threshold ms h = grind (arith, paid_scaled cut threshold ms)

member_entries-emitted :
    (ss : List BlockpartyDistributionSplit) → emitted (member_entries ss) ≡ paid_to_members ss
unfolding member_entries
member_entries-emitted [] = refl
member_entries-emitted (s ∷ ss) = elim (Bool-cases (ltb 0 s.sats)) [
  | inl e ↦ simp e (omega (arith, member_entries-emitted ss))
  | inr e ↦ simp e (omega (arith, ltb→ge 0 _ e, member_entries-emitted ss))
]

module _ (i : BlockpartyDistributionInput) where
  fee_entry-emitted :
      (fee : ℤ)
      → is_set i.pool_fee_address ≡ true
      → emitted (fee_entry i.pool_fee_address fee) ≡ pos_part fee
  unfolding fee_entry
  fee_entry-emitted fee e = rw e (ground arith)

  paid-le-reward :
      total_bp i.members ≤ 10000 → paid_to_members (split_members i) ≤ i.block_reward_sats
  unfolding split_members miner_cut
  paid-le-reward h =
      let paid = paid_le (miner_cut i) (max i.min_payout_sats dust_limit_sats) i.members h in
      omega (arith, paid)

  split_block-exact :
      total_bp i.members ≤ 10000
      → is_set i.pool_fee_address ≡ true
      → emitted (split_block i).payouts ≡ i.block_reward_sats
  unfolding split_block
  split_block-exact h set =
      let splits = split_members i in
      let fee = pos i.block_reward_sats -ℤ pos (paid_to_members splits) in
      omega (
        int_laws,
        sum_of-append (λ (e : CoinbaseDistributionEntry). e.sats) (fee_entry i.pool_fee_address fee)
            (member_entries splits),
        fee_entry-emitted fee set,
        member_entries-emitted splits,
        paid-le-reward h,
        one_sign fee,
      )

  without_members-exact :
      is_set i.pool_fee_address ≡ true → emitted (without_members i).payouts ≡ i.block_reward_sats
  unfolding without_members
  without_members-exact set = rw set (omega arith)

  by_members-exact :
      (ms : List BlockpartyMemberInput)
      → total_bp i.members ≤ 10000
      → is_set i.pool_fee_address ≡ true
      → emitted (by_members i ms).payouts ≡ i.block_reward_sats
  by_members-exact [] h set = without_members-exact set
  by_members-exact (m ∷ ms) h set = split_block-exact h set

  -- With a fee address, and percentages that add up to at most a hundred, the outputs are worth
  -- the block reward exactly: what the floors and the trimmed members leave goes to the pool.
  pub blockparty-exact :
      total_bp i.members ≤ 10000
      → is_set i.pool_fee_address ≡ true
      → emitted (build_blockparty_distribution i).payouts ≡ i.block_reward_sats
  unfolding build_blockparty_distribution
  blockparty-exact h set = elim (Bool-cases (i.block_reward_sats == 0)) [
    | inl e ↦ rw e (ground arith)
    | inr e ↦ rw e (by_members-exact i.members h set)
  ]

-- Of a split of a member under a threshold.
abbrev pub IsPaidOrTrimmed : ℕ → BlockpartyDistributionSplit → Type 0
IsPaidOrTrimmed threshold s =
    ((s.trimmed ≡ true) × (s.sats ≡ 0)) ⊎ ((s.trimmed ≡ false) × (threshold ≤ s.sats))

split_member-IsPaidOrTrimmed :
    (cut threshold : ℕ) (m : BlockpartyMemberInput)
    → IsPaidOrTrimmed threshold (split_member cut threshold m)
unfolding split_member
split_member-IsPaidOrTrimmed cut threshold m =
    elim (Bool-cases (ltb (cut * m.percent_bp / 10000) threshold)) [
      | inl e ↦ rw e (inl (refl, refl))
      | inr e ↦ rw e (inr (refl, ltb→ge _ _ e))
    ]

All-split :
    (cut threshold : ℕ) (ms : List BlockpartyMemberInput)
    → All (IsPaidOrTrimmed threshold) (map (split_member cut threshold) ms)
All-split cut threshold [] = tt
All-split cut threshold (m ∷ ms) =
    (split_member-IsPaidOrTrimmed cut threshold m, All-split cut threshold ms)

-- A member of a block is either trimmed, and paid nothing, or paid at least the minimum payout
-- and the dust limit.
pub split_members-IsPaidOrTrimmed :
    (i : BlockpartyDistributionInput)
    → All (IsPaidOrTrimmed (max i.min_payout_sats dust_limit_sats)) (split_members i)
unfolding split_members
split_members-IsPaidOrTrimmed i =
    All-split (miner_cut i) (max i.min_payout_sats dust_limit_sats) i.members
