-- ===== src/Coinbase/Build/Claims.antt =====
-- Whose claims a block of src/services/coinbase-distribution.ts settles: the miners through its phases
-- against the maps of its input.
use mathlib.Core.List.{Perm, perm_middle, map-append}
use mathlib.Core.List.Perm
use blitzpool.Prelude.{
  ℕ, ◌+◌, ◌-◌, ◌*◌, ◌/◌, ◌≡◌, refl, sym, ap, ◌∙◌, Bool, true, false, ◌||◌, ◌&&◌, List, [], ◌∷◌,
  ◌++◌, map, Option, none, some, arith, ltb, leb, Bool-cases, inl, inr, if◌then◌else◌, ◌==◌,
}
use blitzpool.Prelude.Int.{ℤ, pos, pos_part, neg_part, ◌-ℤ◌}
use blitzpool.Prelude.Pick.{split_best, Splits, split_best-Splits}
use blitzpool.Prelude.Sort.{sort, insert}
use blitzpool.Coinbase.Weight.{
  Address, AddressInfo, output_weight, budget_safety_margin_wu, or_default,
}
use blitzpool.Coinbase.Miner.{Miner, is_active, grant, cut, active_shares, total_credit}
use blitzpool.Coinbase.Share.{
  share_bonus, has_more_shares, grant_at, grant_largest, distribute, assigned,
}
use blitzpool.Coinbase.Cap.{
  is_claimer, has_more_credit, cut_floor, cut_at, cut_claimers, solvency_cap,
}
use blitzpool.Coinbase.Input.{
  CoinbaseDistributionInput, split_reward, computations, compute_active, compute_pending, compute,
  total_shares, has, get, min_payout,
}
use blitzpool.Coinbase.Build.{
  Split, filter_eligible, settle, trim, has_larger_target, split_miners, fixed_weight,
  weight_budget, redistribute, distribute_residuum, block_total, settle_capped, settle_block,
  trimmed_total,
}

-- An address, its part of the reward, and its old balance.
abbrev pub Claim : Type 0
Claim = Address × ℕ × ℤ

abbrev pub claim_of : Miner → Claim
claim_of c = (c.address, c.raw_fair, c.balance_old)

-- Of the addresses with shares: the part of the reward that is theirs, rounded down, and the balance.
abbrev pub worked_claims : ℕ → ℕ → List (Address × ℤ) → List (Address × ℕ) → List Claim
worked_claims reward total balances [] = []
worked_claims reward total balances ((a, s) ∷ shares) =
    (a, s * reward / total, or_default (get a balances) (pos 0))
    ∷ worked_claims reward total balances shares

-- Of the others: a balance that is not 0.
abbrev pub old_claims : List (Address × ℕ) → List (Address × ℤ) → List Claim
old_claims shares [] = []
old_claims shares ((a, b) ∷ balances) =
    let rest = old_claims shares balances in
    if has a shares || (pos_part b == 0 && neg_part b == 0) then rest else (a, 0, b) ∷ rest

-- The claims of an input, read from its maps.
abbrev pub claims_of : CoinbaseDistributionInput → List Claim
claims_of i =
    worked_claims (split_reward i).reward_for_miners (total_shares i.address_shares) i.balances
      i.address_shares
    ++ old_claims i.address_shares i.balances

computed_active :
    (floor reward total : ℕ) (balances : List (Address × ℤ)) (shares : List (Address × ℕ))
    → map claim_of (compute_active floor reward total balances shares)
      ≡ worked_claims reward total balances shares
unfolding compute_active compute
computed_active floor reward total balances [] = refl
computed_active floor reward total balances ((a, s) ∷ shares) =
    ap (◌∷◌ (a, s * reward / total, or_default (get a balances) (pos 0)))
      (computed_active floor reward total balances shares)

computed_pending :
    (floor : ℕ) (shares : List (Address × ℕ)) (balances : List (Address × ℤ))
    → map claim_of (compute_pending floor shares balances) ≡ old_claims shares balances
unfolding compute_pending compute
computed_pending floor shares [] = refl
computed_pending floor shares ((a, b) ∷ balances) =
    elim (Bool-cases (has a shares || (pos_part b == 0 && neg_part b == 0))) [
      | inl e ↦ simp e (computed_pending floor shares balances)
      | inr e ↦ simp e (ap (◌∷◌ (a, 0, b)) (computed_pending floor shares balances))
    ]

computations-claims :
    (i : CoinbaseDistributionInput) → map claim_of (computations i (split_reward i)) ≡ claims_of i
unfolding computations
computations-claims i =
    let floor = min_payout i.min_payout_sats in
    let r = split_reward i in
    let total = total_shares i.address_shares in
    map-append claim_of (compute_active floor r.reward_for_miners total i.balances i.address_shares)
      (compute_pending floor i.address_shares i.balances)
    ∙ ap (λ l. l ++ map claim_of (compute_pending floor i.address_shares i.balances))
        (computed_active floor r.reward_for_miners total i.balances i.address_shares)
    ∙ ap (λ l. worked_claims r.reward_for_miners total i.balances i.address_shares ++ l)
        (computed_pending floor i.address_shares i.balances)

module _ {A : Type 0} (precedes : A → A → Bool) where
  insert-Perm : (x : A) (ys : List A) → Perm (insert precedes x ys) (x ∷ ys)
  unfolding insert
  insert-Perm x [] = Perm.refl (x ∷ [])
  insert-Perm x (y ∷ ys) = elim (Bool-cases (precedes y x)) [
    | inl e ↦ rw e (Perm.trans (Perm.cons y (insert-Perm x ys)) (Perm.swap x y ys))
    | inr e ↦ rw e (Perm.refl (x ∷ y ∷ ys))
  ]

  sort-Perm : (xs : List A) → Perm (sort precedes xs) xs
  unfolding sort
  sort-Perm [] = Perm.nil
  sort-Perm (x ∷ xs) = Perm.trans (insert-Perm x (sort precedes xs)) (Perm.cons x (sort-Perm xs))

-- The eligible and the others are all.
eligible-Perm : (cs : List Miner) → Perm (filter_eligible true cs ++ filter_eligible false cs) cs
unfolding filter_eligible
eligible-Perm [] = Perm.nil
eligible-Perm (c ∷ cs) = elim (Bool-cases c.eligible) [
  | inl e ↦ simp e (Perm.cons c (eligible-Perm cs))
  | inr e ↦ simp e (
      Perm.trans (perm_middle (filter_eligible true cs) (filter_eligible false cs))
        (Perm.cons c (eligible-Perm cs)))
]

-- The loop loses nobody.
trim-Perm :
    (weight : Address → ℕ) (budget used : ℕ) (cs : List Miner)
    → let (kept, trimmed) = trim weight budget used cs in
      Perm (map claim_of kept ++ map claim_of trimmed) (map claim_of cs)
unfolding trim settle
trim-Perm weight budget used [] = Perm.nil
trim-Perm weight budget used (c ∷ cs) =
    elim (Bool-cases (leb (used + weight c.address + budget_safety_margin_wu) budget)) [
      | inl e ↦ rw e (Perm.cons (claim_of c) (trim-Perm weight budget (used + weight c.address) cs))
      | inr e ↦
          let (kept, trimmed) = trim weight budget used cs in
          rw e (
            Perm.trans (perm_middle (map claim_of kept) (map claim_of trimmed))
              (Perm.cons (claim_of c) (trim-Perm weight budget used cs)))
    ]

-- Granting and cutting leave a miner's claim.
module _ (amount total : ℕ) where
  claims-shared :
      (cs : List Miner) → map claim_of (map (share_bonus amount total) cs) ≡ map claim_of cs
  unfolding share_bonus grant
  claims-shared [] = refl
  claims-shared (c ∷ cs) = elim (Bool-cases (is_active c)) [
    | inl e ↦ rw e (ap (◌∷◌ (claim_of c)) (claims-shared cs))
    | inr e ↦ rw e (ap (◌∷◌ (claim_of c)) (claims-shared cs))
  ]

  claims-cut_floor :
      (cs : List Miner) → map claim_of (map (cut_floor amount total) cs) ≡ map claim_of cs
  unfolding cut_floor cut
  claims-cut_floor [] = refl
  claims-cut_floor (c ∷ cs) = elim (Bool-cases (is_claimer c)) [
    | inl e ↦ rw e (ap (◌∷◌ (claim_of c)) (claims-cut_floor cs))
    | inr e ↦ rw e (ap (◌∷◌ (claim_of c)) (claims-cut_floor cs))
  ]

claims-replaced :
    (before behind : List Miner) (m m' : Miner)
    → claim_of m' ≡ claim_of m
    → map claim_of (before ++ m' ∷ behind) ≡ map claim_of (before ++ m ∷ behind)
claims-replaced [] behind m m' e = ap (λ x. x ∷ map claim_of behind) e
claims-replaced (b ∷ before) behind m m' e =
    ap (◌∷◌ (claim_of b)) (claims-replaced before behind m m' e)

claims-grant_at :
    (n : ℕ) (cs : List Miner) (r : Option (List Miner × Miner × List Miner))
    → Splits is_active has_more_shares cs r
    → map claim_of (grant_at n cs r) ≡ map claim_of cs
unfolding grant_at grant
claims-grant_at n cs none s = refl
claims-grant_at n cs (some (before, m, behind)) s =
    claims-replaced before behind m (grant n m) refl ∙ ap (map claim_of) (sym s.0)

claims-distribute :
    (amount : ℕ) (cs : List Miner) → map claim_of (distribute amount cs) ≡ map claim_of cs
unfolding distribute grant_largest
claims-distribute amount cs =
    let total = active_shares cs in
    let shared = map (share_bonus amount total) cs in
    let one =
      claims-grant_at (amount - assigned amount total cs) shared
        (split_best is_active has_more_shares shared)
        (split_best-Splits is_active has_more_shares shared)
      ∙ claims-shared amount total cs in
    elim (Bool-cases (ltb 0 total)) [
      | inr e ↦ rw e refl
      | inl e ↦ elim (Bool-cases (ltb 0 (amount - assigned amount total cs))) [
        | inl k ↦ rw (e, k) one
        | inr k ↦ rw (e, k) (claims-shared amount total cs)
      ]
    ]

claims-cut_at :
    (o t : ℕ) (cs : List Miner) (r : Option (List Miner × Miner × List Miner))
    → Splits is_claimer has_more_credit cs r
    → map claim_of (cut_at o t cs r).0 ≡ map claim_of cs
unfolding cut_at cut
claims-cut_at o t cs none s = refl
claims-cut_at o t cs (some (before, m, behind)) s =
    map-append claim_of (map (cut_floor o t) before) _
    ∙ ap (λ l. l ++ claim_of m ∷ map claim_of (map (cut_floor o t) behind))
        (claims-cut_floor o t before)
    ∙ ap (λ l. map claim_of before ++ claim_of m ∷ l) (claims-cut_floor o t behind)
    ∙ sym (map-append claim_of before (m ∷ behind))
    ∙ ap (map claim_of) (sym s.0)

-- Of what the cap returns, and of a block.
abbrev CapKeeps : List Claim → Option (List Miner) → Type 0
CapKeeps all none = Unit
CapKeeps all (some kept) = map claim_of kept ≡ all

abbrev pub BlockKeeps : List Claim → Option (List Miner × ℕ) → Type 0
BlockKeeps all none = Unit
BlockKeeps all (some (kept, fee_bonus)) = map claim_of kept ≡ all

solvency_cap-CapKeeps :
    (overshoot : ℤ) (cs : List Miner) → CapKeeps (map claim_of cs) (solvency_cap overshoot cs)
unfolding solvency_cap cut_claimers
solvency_cap-CapKeeps overshoot cs =
    let kept =
      claims-cut_at (pos_part overshoot) (total_credit cs) cs
        (split_best is_claimer has_more_credit cs)
        (split_best-Splits is_claimer has_more_credit cs) in
    ground (arith, kept)

claims-redistribute :
    (suppress : Bool) (total : ℤ) (cs : List Miner)
    → map claim_of (redistribute suppress total cs).0 ≡ map claim_of cs
unfolding redistribute
claims-redistribute suppress total cs = ground (arith, claims-distribute (pos_part total) cs)

residuum-BlockKeeps :
    (suppress : Bool) (residuum : ℤ) (cs : List Miner) (fee_bonus : ℕ)
    → BlockKeeps (map claim_of cs) (distribute_residuum suppress residuum cs fee_bonus)
unfolding distribute_residuum
residuum-BlockKeeps suppress residuum cs fee_bonus =
    ground (arith, claims-distribute (pos_part residuum) cs)

capped-BlockKeeps :
    (all : List Claim) (suppress : Bool) (reward : ℕ) (s : Split) (fee_bonus : ℕ)
    (o : Option (List Miner))
    → CapKeeps all o
    → BlockKeeps all (settle_capped suppress reward s fee_bonus o)
unfolding settle_capped
capped-BlockKeeps all suppress reward s fee_bonus none h = tt
capped-BlockKeeps all suppress reward s fee_bonus (some capped) h =
    rw (sym h) (residuum-BlockKeeps suppress _ capped fee_bonus)

settle_block-BlockKeeps :
    (suppress : Bool) (reward : ℕ) (s : Split)
    → BlockKeeps (map claim_of s.kept) (settle_block suppress reward s)
unfolding settle_block
settle_block-BlockKeeps suppress reward s =
    let first = redistribute suppress (trimmed_total s.trimmed) s.kept in
    capped-BlockKeeps (map claim_of s.kept) suppress reward s first.1 _ (
      rw (sym (claims-redistribute suppress (trimmed_total s.trimmed) s.kept))
        (solvency_cap-CapKeeps (block_total s first.0 -ℤ pos reward) first.0))

split_miners-Perm :
    (info : AddressInfo) (i : CoinbaseDistributionInput)
    → let s = split_miners info i (split_reward i) in
      Perm (map claim_of s.kept ++ map claim_of s.trimmed ++ map claim_of s.waiting) (claims_of i)
unfolding split_miners
split_miners-Perm info i =
    let r = split_reward i in
    let all = computations i r in
    let eligible = filter_eligible true all in
    let waiting = filter_eligible false all in
    let sorted = sort has_larger_target eligible in
    let trimmed = trim-Perm (output_weight info) (weight_budget i) (fixed_weight info i r) sorted in
    let others = map claim_of waiting in
    Perm.trans (Perm.append_right others trimmed) (
      Perm.trans
        (Perm.append_right others (Perm.map claim_of (sort-Perm has_larger_target eligible)))
        (rw (sym (map-append claim_of eligible waiting), sym (computations-claims i))
          (Perm.map claim_of (eligible-Perm all))))

-- The miners of a block and those left out of it are the input's.
pub after_block-Perm :
    (info : AddressInfo) (i : CoinbaseDistributionInput) (kept : List Miner) (fee_bonus : ℕ)
    → let s = split_miners info i (split_reward i) in
      settle_block i.suppress_matching_debits (split_reward i).reward_for_miners s
        ≡ some (kept, fee_bonus)
      → Perm (map claim_of (kept ++ s.trimmed ++ s.waiting)) (claims_of i)
after_block-Perm info i kept fee_bonus e =
    let s = split_miners info i (split_reward i) in
    let same : map claim_of kept ≡ map claim_of s.kept =
      rw e at
        (settle_block-BlockKeeps i.suppress_matching_debits (split_reward i).reward_for_miners s) in
    rw (map-append claim_of (kept ++ s.trimmed) s.waiting, map-append claim_of kept s.trimmed, same)
      (split_miners-Perm info i)
