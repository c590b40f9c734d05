-- ===== src/Coinbase/Build/Neutral.antt =====
-- The sum of the new balances of a block, in src/services/coinbase-distribution.ts.
use mathlib.Core.List.{Perm, foldr}
use mathlib.Core.List.Perm
use blitzpool.Coinbase.Build.Claims.{Claim, claim_of, claims_of}
use blitzpool.Prelude.{
  ◌+◌, sym, map, ℕ, ◌<◌, ◌≡◌, refl, inl, inr, true, ◌&&◌, List, [], ◌∷◌, some, arith, All,
  Bool-cases, ◌==◌,
}
use blitzpool.Prelude.Int.{
  ℤ, pos, pos_part, neg_part, ◌+ℤ◌, Agree, eq_of_parts, parts_of_eq, int_laws,
}
use blitzpool.Coinbase.Weight.{Address, AddressInfo}
use blitzpool.Coinbase.Miner.{Miner, on_chain_total}
use blitzpool.Coinbase.Input.{CoinbaseDistributionInput, total_shares}
use blitzpool.Coinbase.Build.{build_coinbase_distribution, balance_changes, finish, emit}
use blitzpool.Coinbase.Build.Ledger.{block_of, after_block, claims_kept, ClaimIsKept, pos_ne_zero}

-- The sum of a list of balances, of the old balances of claims, and of the new balances of miners.
unfoldable pub balance_total : List (Address × ℤ) → ℤ
balance_total [] = pos 0
balance_total (b ∷ bs) = b.1 +ℤ balance_total bs

abbrev pub old_total : List Claim → ℤ
old_total cs = foldr (λ c t. c.2 +ℤ t) (pos 0) cs

-- The sum of the parts of a reward.
abbrev pub part_total : List Claim → ℕ
part_total cs = foldr (λ c n. c.1 + n) 0 cs

unfoldable pub new_total : List Miner → ℤ
new_total [] = pos 0
new_total (c ∷ cs) = c.balance_new +ℤ new_total cs

-- Who is left out of the changes has no new balance.
nothing_new :
    (old new : ℤ)
    → ((pos_part old == 0 && neg_part old == 0) && (pos_part new == 0 && neg_part new == 0)) ≡ true
    → Agree new (pos 0)
nothing_new old new h = ground arith

balance_total-balance_changes :
    (cs : List Miner) → Agree (balance_total (balance_changes cs)) (new_total cs)
unfolding balance_total balance_changes new_total
balance_total-balance_changes [] = refl
balance_total-balance_changes (c ∷ cs) =
    elim (Bool-cases (
      (pos_part c.balance_old == 0 && neg_part c.balance_old == 0)
      && (pos_part c.balance_new == 0 && neg_part c.balance_new == 0))) [
        | inl e ↦ rw e (
            omega (
              int_laws,
              balance_total-balance_changes cs,
              nothing_new c.balance_old c.balance_new e,
            ))
        | inr e ↦ rw e (omega (int_laws, balance_total-balance_changes cs))
      ]

claims-total :
    (cs : List Miner)
    → All ClaimIsKept cs
    → Agree
        (on_chain_total cs +ℤ new_total cs)
        (pos (part_total (map claim_of cs)) +ℤ old_total (map claim_of cs))
unfolding on_chain_total new_total
claims-total [] h = omega int_laws
claims-total (c ∷ cs) h = omega (int_laws, parts_of_eq h.0, claims-total cs h.1)

part_total-Perm : {xs ys : List Claim} → Perm xs ys → part_total xs ≡ part_total ys
part_total-Perm p = Perm.foldr-eq (hlevel) (λ c n. c.1 + n) (λ a b n. omega arith) p 0

old_total-Perm : {xs ys : List Claim} → Perm xs ys → old_total xs ≡ old_total ys
old_total-Perm p =
    Perm.foldr-eq (hlevel) (λ c t. c.2 +ℤ t) (λ a b t. eq_of_parts _ _ (omega int_laws)) p (pos 0)

module _ (info : AddressInfo) (i : CoinbaseDistributionInput) where
  -- The ledger is neutral over all claims of the input, where there are shares and the block is not
  -- the fallback: what the block pays the miners and the balances that the result lists are together
  -- the parts of the reward of the addresses with shares, and the old balances of these and of the
  -- others.
  pub balance_after-total :
      (kept : List Miner) (fee_bonus : ℕ)
      → 0 < total_shares i.address_shares
      → block_of info i ≡ some (kept, fee_bonus)
      → on_chain_total (after_block info i kept)
          +ℤ balance_total (build_coinbase_distribution info i).balance_after
        ≡ pos (part_total (claims_of i)) +ℤ old_total (claims_of i)
  unfolding build_coinbase_distribution finish emit
  balance_after-total kept fee_bonus shares e =
      let (all, met) = claims_kept info i kept fee_bonus e in
      rw (pos_ne_zero _ shares, e, sym (part_total-Perm all), sym (old_total-Perm all))
        (eq_of_parts _ _ (
          omega (
            int_laws,
            balance_total-balance_changes (after_block info i kept),
            claims-total (after_block info i kept) met,
          )))
