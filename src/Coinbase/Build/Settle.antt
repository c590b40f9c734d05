-- ===== src/Coinbase/Build/Settle.antt =====
-- The miners of a block through phases 5a to 5b of src/services/coinbase-distribution.ts.
use blitzpool.Prelude.{
  ℕ, ◌+◌, ◌<◌, ◌≡◌, refl, List, [], ◌∷◌, ◌++◌, Option, none, some, arith, true, false, Bool,
  Bool-cases, ◌⊎◌, inl, inr, All, if◌then◌else◌, ltb, ltb→lt, ltb→ge,
}
use blitzpool.Prelude.Int.{ℤ, pos, pos_part, neg_part, ◌+ℤ◌, ◌-ℤ◌, ◌≤ℤ◌, Agree, one_sign, int_laws}
use blitzpool.Coinbase.Miner.{
  Miner, grant, on_chain_total, on_chain_total-append, active_shares, grant-IsBooked,
}
use blitzpool.Coinbase.Share.Totals.{
  distribute-All, on_chain_total-distribute, on_chain_total-distribute_le, active_shares-distribute,
}
use blitzpool.Coinbase.Cap.Bounds.{IsWhole, IsCapped, AllCapped, solvency_cap-AllCapped}
use blitzpool.Coinbase.Build.Trim.{IsIdle}
use blitzpool.Coinbase.Build.{
  Split, trimmed_total, redistribute, distribute_residuum, block_total, settle_capped, settle_block,
}

grant-IsWhole : (n : ℕ) (c : Miner) → IsWhole c → IsWhole (grant n c)
unfolding grant
grant-IsWhole n c h =
    let (paid, there, booked) = h in
    (omega (int_laws, paid), omega (int_laws, there), grant-IsBooked n c booked)

grant-IsCapped : (n : ℕ) (c : Miner) → IsCapped c → IsCapped (grant n c)
unfolding grant
grant-IsCapped n c h =
    let (paid, there, booked) = h in
    (omega (int_laws, paid), omega (int_laws, there), grant-IsBooked n c booked)

redistribute-All :
    (suppress : Bool) (total : ℤ) (kept : List Miner)
    → All IsWhole kept
    → All IsWhole (redistribute suppress total kept).0
unfolding redistribute
redistribute-All suppress total kept h =
    ground (arith, distribute-All IsWhole grant-IsWhole (pos_part total) kept h)

-- Of a result of phase 5b.
pub record Settles (suppress : Bool) (reward : ℕ) (kept : List Miner) (fee_bonus : ℕ) : Type 0 where
  pub capped : All IsCapped kept
  pub within : on_chain_total kept +ℤ pos (if suppress then fee_bonus else 0) ≤ℤ pos reward
  pub whole :
      (suppress ≡ true) ⊎ (0 < active_shares kept)
      → Agree (on_chain_total kept +ℤ pos (if suppress then fee_bonus else 0)) (pos reward)

abbrev pub Settled : Bool → ℕ → Option (List Miner × ℕ) → Type 0
Settled suppress reward none = Unit {0}
Settled suppress reward (some (kept, fee_bonus)) = Settles suppress reward kept fee_bonus

-- With a residuum of 0, or the fallback.
exact :
    (suppress : Bool) (reward : ℕ) (residuum : ℤ) (kept : List Miner) (fee_bonus : ℕ)
    → Agree
        (residuum +ℤ on_chain_total kept +ℤ pos (if suppress then fee_bonus else 0))
        (pos reward)
    → All IsCapped kept
    → ltb 0 (pos_part residuum) ≡ false
    → Settled suppress reward (if ltb 0 (neg_part residuum) then none else some (kept, fee_bonus))
exact suppress reward residuum kept fee_bonus sum all e =
    elim (Bool-cases (ltb 0 (neg_part residuum))) [
      | inl f ↦ rw f tt
      | inr f ↦
          let total : Agree (on_chain_total kept +ℤ pos (if suppress then fee_bonus else 0))
              (pos reward) =
            omega (int_laws, sum, ltb→ge 0 _ e, ltb→ge 0 _ f) in
          rw f (record { capped = all; within = omega (arith, total); whole = λ _. total })
    ]

distribute_residuum-Settled :
    (suppress : Bool) (reward : ℕ) (residuum : ℤ) (kept : List Miner) (fee_bonus : ℕ)
    → Agree
        (residuum +ℤ on_chain_total kept +ℤ pos (if suppress then fee_bonus else 0))
        (pos reward)
    → All IsCapped kept
    → Settled suppress reward (distribute_residuum suppress residuum kept fee_bonus)
unfolding distribute_residuum
distribute_residuum-Settled true reward residuum kept fee_bonus sum all =
    elim (Bool-cases (ltb 0 (pos_part residuum))) [
      | inl e ↦
          let total : Agree (on_chain_total kept +ℤ pos (fee_bonus + pos_part residuum))
              (pos reward) =
            omega (int_laws, sum, one_sign residuum, ltb→lt 0 _ e) in
          rw e (record { capped = all; within = omega (arith, total); whole = λ _. total })
      | inr e ↦ rw e (exact true reward residuum kept fee_bonus sum all e)
    ]
distribute_residuum-Settled false reward residuum kept fee_bonus sum all =
    let amount = pos_part residuum in
    elim (Bool-cases (ltb 0 amount)) [
      | inl e ↦ rw e (record {
        capped = distribute-All IsCapped grant-IsCapped amount kept all;
        within = omega (
          int_laws,
          sum,
          one_sign residuum,
          ltb→lt 0 _ e,
          on_chain_total-distribute_le amount kept,
        );
        whole = λ h. elim h [
          | inl impossible ↦ cc
          | inr someone ↦ omega (
            int_laws,
            sum,
            one_sign residuum,
            ltb→lt 0 _ e,
            on_chain_total-distribute amount kept
                (rw (active_shares-distribute amount kept) at someone),
          )
        ];
      })
      | inr e ↦ rw e (exact false reward residuum kept fee_bonus sum all e)
    ]

idle_total : (cs : List Miner) → All IsIdle cs → Agree (on_chain_total cs) (pos 0)
unfolding on_chain_total
idle_total [] h = refl
idle_total (c ∷ cs) h = omega (int_laws, h.0.unpaid, idle_total cs h.1)

residuum_sum :
    (reward total kept : ℤ) (f : ℕ)
    → Agree total kept
    → Agree (reward -ℤ total -ℤ pos f +ℤ kept +ℤ pos f) reward
residuum_sum reward total kept f h = omega int_laws

module _ (s : Split) (trimmed : All IsIdle s.trimmed) (waiting : All IsIdle s.waiting) where
  total-kept :
      (kept : List Miner)
      → Agree (on_chain_total (kept ++ s.trimmed ++ s.waiting)) (on_chain_total kept)
  total-kept kept = omega (
    int_laws,
    on_chain_total-append (kept ++ s.trimmed) s.waiting,
    on_chain_total-append kept s.trimmed,
    idle_total s.trimmed trimmed,
    idle_total s.waiting waiting,
  )

  -- The sum over all computations is that over the kept.
  pub block_total-kept : (kept : List Miner) → Agree (block_total s kept) (on_chain_total kept)
  block_total-kept kept = total-kept kept

  settle_capped-Settled :
      (suppress : Bool) (reward fee_bonus : ℕ) (o : Option (List Miner))
      → AllCapped o
      → Settled suppress reward (settle_capped suppress reward s fee_bonus o)
  unfolding settle_capped
  settle_capped-Settled suppress reward fee_bonus none h = tt
  settle_capped-Settled suppress reward fee_bonus (some capped) h =
      distribute_residuum-Settled suppress reward _ capped fee_bonus
        (residuum_sum (pos reward) (block_total s capped) (on_chain_total capped)
          (if suppress then fee_bonus else 0) (block_total-kept capped))
        h

  -- A block that is no fallback pays at most the reward, all of it if somebody active is in it or
  -- what is left goes to the fee.
  pub settle_block-Settled :
      (suppress : Bool) (reward : ℕ)
      → All IsWhole s.kept
      → Settled suppress reward (settle_block suppress reward s)
  unfolding settle_block
  settle_block-Settled suppress reward kept =
      let first = redistribute suppress (trimmed_total s.trimmed) s.kept in
      settle_capped-Settled suppress reward first.1 _ (
        solvency_cap-AllCapped (block_total s first.0 -ℤ pos reward) first.0
          (redistribute-All suppress (trimmed_total s.trimmed) s.kept kept))
