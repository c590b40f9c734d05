-- ===== src/Coinbase/Input/Laws.antt =====
-- The parts of the reward, and the miners at the start, in src/services/coinbase-distribution.ts.
use blitzpool.Prelude.{
  ℕ, ◌+◌, ◌*◌, ◌/◌, ◌≤◌, ◌≡◌, refl, ap, List, [], ◌∷◌, arith, true, false, Bool-cases, inl, inr,
  All, All-append, ◌&&◌, not, ltb→ge, ◌||◌, ◌==◌,
}
use blitzpool.Prelude.Int.{ℤ, pos, pos_part, neg_part, ◌+ℤ◌, ◌≤ℤ◌, ltb_ℤ, Agree, int_laws}
use blitzpool.Coinbase.Weight.{Address}
use blitzpool.Coinbase.Miner.{Miner}
use blitzpool.Coinbase.Input.{
  Percent, CoinbaseDistributionInput, Reward, wanted_fee, split_reward, compute, compute_active,
  compute_pending, computations, total_shares, has,
}

-- The fee is a percentage of at most a hundred.
abbrev pub IsPercent : Percent → Type 0
IsPercent p = p.num ≤ 100 * p.den

pub part_le : (a r n : ℕ) → a ≤ n → a * r / n ≤ r
part_le a r n h = grind arith

pub wanted_fee_le :
    (i : CoinbaseDistributionInput) → IsPercent i.fee_percent → wanted_fee i ≤ i.block_reward_sats
unfolding wanted_fee
wanted_fee_le i h = part_le i.fee_percent.num i.block_reward_sats (100 * i.fee_percent.den) h

pub split_reward-sum :
    (i : CoinbaseDistributionInput)
    → IsPercent i.fee_percent
    → let r = split_reward i in
      r.fee_sats + r.bonus_sats + r.reward_for_miners ≡ i.block_reward_sats
unfolding split_reward
split_reward-sum i h = ground (arith, wanted_fee_le i h)

-- What is not emitted is not set aside.
pub split_reward-unemitted :
    (i : CoinbaseDistributionInput)
    → let r = split_reward i in
      ((r.fee_emitted ≡ false) → r.fee_sats ≡ 0) × ((r.bonus_emitted ≡ false) → r.bonus_sats ≡ 0)
unfolding split_reward
split_reward-unemitted i = (λ e. ground arith, λ e. ground arith)

-- A miner before phase 3.
pub record IsFresh (c : Miner) : Type 0 where
  pub claims : Agree c.target (pos c.raw_fair +ℤ c.balance_old)
  pub unpaid : Agree c.on_chain (pos 0)
  pub keeps : Agree c.balance_new c.target
  pub clears : (c.eligible ≡ true) → pos 0 ≤ℤ c.target

not_below : (a : ℤ) (floor : ℕ) → not (ltb_ℤ a (pos floor)) ≡ true → pos 0 ≤ℤ a
not_below a floor e = elim (Bool-cases (ltb_ℤ a (pos floor))) [
  | inl f ↦ cc (ap not f)
  | inr f ↦ omega (int_laws, ltb→ge _ _ f)
]

compute-IsFresh : (floor : ℕ) (a : Address) (s raw : ℕ) (b : ℤ) → IsFresh (compute floor a s raw b)
unfolding compute
compute-IsFresh floor a s raw b = record {
  claims = refl;
  unpaid = refl;
  keeps = refl;
  clears = λ e. not_below (pos raw +ℤ b) floor e;
}

compute_active-All :
    (floor reward total : ℕ) (balances : List (Address × ℤ)) (m : List (Address × ℕ))
    → All IsFresh (compute_active floor reward total balances m)
unfolding compute_active
compute_active-All floor reward total balances [] = tt
compute_active-All floor reward total balances ((a, s) ∷ m) =
    (compute-IsFresh floor a s _ _, compute_active-All floor reward total balances m)

compute_pending-All :
    (floor : ℕ) (shares : List (Address × ℕ)) (m : List (Address × ℤ))
    → All IsFresh (compute_pending floor shares m)
unfolding compute_pending
compute_pending-All floor shares [] = tt
compute_pending-All floor shares ((a, b) ∷ m) =
    elim (Bool-cases (has a shares || (pos_part b == 0 && neg_part b == 0))) [
      | inl e ↦ rw e (compute_pending-All floor shares m)
      | inr e ↦ rw e (compute-IsFresh floor a 0 0 b, compute_pending-All floor shares m)
    ]

pub computations-All : (i : CoinbaseDistributionInput) (r : Reward) → All IsFresh (computations i r)
unfolding computations
computations-All i r =
    All-append IsFresh _ _
      (compute_active-All _ r.reward_for_miners (total_shares i.address_shares) i.balances
        i.address_shares)
      (compute_pending-All _ i.address_shares i.balances)
