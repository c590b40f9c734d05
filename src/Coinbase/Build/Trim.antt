-- ===== src/Coinbase/Build/Trim.antt =====
-- The choice of phases 3 and 4 of src/services/coinbase-distribution.ts, and its weight.
use blitzpool.Prelude.{
  ℕ, ◌+◌, ◌≤◌, ◌≡◌, refl, ap, List, [], ◌∷◌, arith, true, false, leb, Bool-cases, inl, inr, All,
  leb→le, ◌⊎◌,
}
use blitzpool.Prelude.Int.{pos, ◌+ℤ◌, ◌≤ℤ◌, Agree, int_laws}
use blitzpool.Prelude.Sort.{All-sort, sum_of}
use blitzpool.Coinbase.Weight.{Address, AddressInfo, output_weight, budget_safety_margin_wu}
use blitzpool.Coinbase.Miner.{Miner}
use blitzpool.Coinbase.Cap.Bounds.{IsWhole}
use blitzpool.Coinbase.Input.{CoinbaseDistributionInput, Reward}
use blitzpool.Coinbase.Input.Laws.{IsFresh, computations-All}
use blitzpool.Coinbase.Build.{
  filter_eligible, settle, trim, has_larger_target, split_miners, fixed_weight, weight_budget,
}

-- A miner of phase 4.
abbrev IsEligible : Miner → Type 0
IsEligible c = IsFresh c × (pos 0 ≤ℤ c.target)

filter_eligible-All : (cs : List Miner) → All IsFresh cs → All IsEligible (filter_eligible true cs)
unfolding filter_eligible
filter_eligible-All [] h = tt
filter_eligible-All (c ∷ cs) h = elim (Bool-cases c.eligible) [
  | inl e ↦ simp e ((h.0, h.0.clears e), filter_eligible-All cs h.1)
  | inr e ↦ simp e (filter_eligible-All cs h.1)
]

-- A miner who is not paid in this block keeps his claim.
pub record IsIdle (c : Miner) : Type 0 where
  pub claims : Agree c.target (pos c.raw_fair +ℤ c.balance_old)
  pub unpaid : Agree c.on_chain (pos 0)
  pub keeps : Agree c.balance_new c.target

IsFresh-IsIdle : {c : Miner} → IsFresh c → IsIdle c
IsFresh-IsIdle h = record { claims = h.claims; unpaid = h.unpaid; keeps = h.keeps }

filter_waiting-All : (cs : List Miner) → All IsFresh cs → All IsIdle (filter_eligible false cs)
unfolding filter_eligible
filter_waiting-All [] h = tt
filter_waiting-All (c ∷ cs) h = elim (Bool-cases c.eligible) [
  | inl e ↦ simp e (filter_waiting-All cs h.1)
  | inr e ↦ simp e (IsFresh-IsIdle h.0, filter_waiting-All cs h.1)
]

settle-IsWhole : (c : Miner) → IsEligible c → IsWhole (settle c)
unfolding settle
settle-IsWhole c h =
    let claims = h.0.claims in
    (omega (int_laws, claims), omega (int_laws, h.1), omega (int_laws, claims))

trim-All :
    (weight : Address → ℕ) (budget used : ℕ) (cs : List Miner)
    → All IsEligible cs
    → All IsWhole (trim weight budget used cs).0 × All IsIdle (trim weight budget used cs).1
unfolding trim
trim-All weight budget used [] h = (tt, tt)
trim-All weight budget used (c ∷ cs) h =
    elim (Bool-cases (leb (used + weight c.address + budget_safety_margin_wu) budget)) [
      | inl e ↦
          let rest = trim-All weight budget (used + weight c.address) cs h.1 in
          rw e ((settle-IsWhole c h.0, rest.0), rest.1)
      | inr e ↦
          let rest = trim-All weight budget used cs h.1 in
          rw e (rest.0, (IsFresh-IsIdle h.0.0, rest.1))
    ]

module _ (info : AddressInfo) (i : CoinbaseDistributionInput) (r : Reward) where
  -- The kept have their whole claim in the block, the others none.
  pub split_miners-All :
      let s = split_miners info i r in
      All IsWhole s.kept × All IsIdle s.trimmed × All IsIdle s.waiting
  unfolding split_miners
  split_miners-All =
      let fresh = computations-All i r in
      let two =
        trim-All (output_weight info) (weight_budget i) (fixed_weight info i r) _
          (All-sort has_larger_target IsEligible _ (filter_eligible-All _ fresh)) in
      (two.0, two.1, filter_waiting-All _ fresh)

-- The outputs that the loop takes fit beside what was there, with the margin.
trim-weight :
    (weight : Address → ℕ) (budget used : ℕ) (cs : List Miner)
    → let kept = (trim weight budget used cs).0 in
      (kept ≡ []) ⊎ (used + sum_of (λ c. weight c.address) kept + budget_safety_margin_wu ≤ budget)
unfolding trim settle
trim-weight weight budget used [] = inl refl
trim-weight weight budget used (c ∷ cs) =
    elim (Bool-cases (leb (used + weight c.address + budget_safety_margin_wu) budget)) [
      | inl e ↦ rw e (elim (trim-weight weight budget (used + weight c.address) cs) [
        | inl none_left ↦
            inr
              (omega (arith, leb→le _ _ e, ap (sum_of (λ (d : Miner). weight d.address)) none_left))
        | inr fits ↦ inr (omega (arith, fits))
      ])
      | inr e ↦ rw e (trim-weight weight budget used cs)
    ]

-- The weight of a block of these outputs, in the worst of orders, stays in the budget: the fixed
-- part and the kept outputs, with the safety margin.
pub split_miners-weight :
    (info : AddressInfo) (i : CoinbaseDistributionInput) (r : Reward)
    → let kept = (split_miners info i r).kept in
      (kept ≡ [])
      ⊎ (fixed_weight info i r
            + sum_of (λ c. output_weight info c.address) kept
            + budget_safety_margin_wu
          ≤ weight_budget i)
unfolding split_miners
split_miners-weight info i r =
    trim-weight (output_weight info) (weight_budget i) (fixed_weight info i r) _
