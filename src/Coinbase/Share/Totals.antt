-- ===== src/Coinbase/Share/Totals.antt =====
-- The sums of a distribution of an amount, in src/services/coinbase-distribution.ts.
use blitzpool.Prelude.{
  ℕ, ◌+◌, ltb→lt, ◌-◌, ◌*◌, ◌/◌, ◌≤◌, ◌<◌, ◌≡◌, refl, List, [], ◌∷◌, ◌++◌, map, Option, none, some,
  arith, ltb, Bool-cases, inl, inr, false, All, All-append, All-left, All-right, lt→ltb, ltb→ge,
  sym,
}
use blitzpool.Prelude.Int.{pos, ◌+ℤ◌, ◌≤ℤ◌, Agree, int_laws}
use blitzpool.Prelude.Pick.{split_best, Splits, split_best-Splits}
use blitzpool.Coinbase.Miner.{
  Miner, is_active, grant, on_chain_total, on_chain_total-append, active_shares,
}
use blitzpool.Coinbase.Share.{
  bonus, share_bonus, assigned, has_more_shares, grant_at, grant_largest, distribute,
}

floor_le : (a s t : ℕ) → a * s / t * t ≤ a * s
floor_le a s t = omega arith

assigned_scaled :
    (amount total : ℕ) (cs : List Miner)
    → assigned amount total cs * total ≤ amount * active_shares cs
unfolding assigned active_shares bonus
assigned_scaled amount total [] = omega arith
assigned_scaled amount total (c ∷ cs) =
    grind (arith, floor_le amount c.shares total, assigned_scaled amount total cs)

assigned_le :
    (amount : ℕ) (cs : List Miner)
    → 0 < active_shares cs
    → assigned amount (active_shares cs) cs ≤ amount
assigned_le amount cs h = grind (arith, assigned_scaled amount (active_shares cs) cs)

active_shares-shared :
    (amount total : ℕ) (cs : List Miner)
    → active_shares (map (share_bonus amount total) cs) ≡ active_shares cs
unfolding active_shares share_bonus grant
active_shares-shared amount total [] = refl
active_shares-shared amount total (c ∷ cs) = ground (arith, active_shares-shared amount total cs)

on_chain_total-shared :
    (amount total : ℕ) (cs : List Miner)
    → Agree
        (on_chain_total (map (share_bonus amount total) cs))
        (on_chain_total cs +ℤ pos (assigned amount total cs))
unfolding on_chain_total share_bonus assigned grant
on_chain_total-shared amount total [] = omega int_laws
on_chain_total-shared amount total (c ∷ cs) = elim (Bool-cases (is_active c)) [
  | inl e ↦ rw e (omega (int_laws, on_chain_total-shared amount total cs))
  | inr e ↦ rw e (omega (int_laws, on_chain_total-shared amount total cs))
]

none_active : (cs : List Miner) → All (λ c. is_active c ≡ false) cs → active_shares cs ≡ 0
unfolding active_shares
none_active [] h = refl
none_active (c ∷ cs) h = rw h.0 (omega (arith, none_active cs h.1))

-- The tail goes to one active miner, if there is one.
on_chain_total-grant_at :
    (n : ℕ) (cs : List Miner) (r : Option (List Miner × Miner × List Miner))
    → Splits is_active has_more_shares cs r
    → 0 < active_shares cs
    → Agree (on_chain_total (grant_at n cs r)) (on_chain_total cs +ℤ pos n)
on_chain_total-grant_at n cs none h k = absurd (omega (arith, none_active cs h))
on_chain_total-grant_at n cs (some (before, m, behind)) h k = rw (h.0) (
    unfold grant_at on_chain_total grant in
    omega (
      int_laws,
      on_chain_total-append before (m ∷ behind),
      on_chain_total-append before (grant n m ∷ behind),
    ))

on_chain_total-grant_largest :
    (n : ℕ) (cs : List Miner)
    → 0 < active_shares cs
    → Agree (on_chain_total (grant_largest n cs)) (on_chain_total cs +ℤ pos n)
unfolding grant_largest
on_chain_total-grant_largest n cs =
    on_chain_total-grant_at n cs (split_best is_active has_more_shares cs)
      (split_best-Splits is_active has_more_shares cs)

-- All of the amount is given, if any active miner is there.
pub on_chain_total-distribute :
    (amount : ℕ) (cs : List Miner)
    → 0 < active_shares cs
    → Agree (on_chain_total (distribute amount cs)) (on_chain_total cs +ℤ pos amount)
unfolding distribute
on_chain_total-distribute amount cs h =
    let total = active_shares cs in
    let shared = map (share_bonus amount total) cs in
    let residual = amount - assigned amount total cs in
    let bound = assigned_le amount cs h in
    let floors = on_chain_total-shared amount total cs in
    let tail =
      on_chain_total-grant_largest residual shared (rw (active_shares-shared amount total cs) h) in
    elim (Bool-cases (ltb 0 residual)) [
      | inl e ↦ rw (lt→ltb 0 _ h, e) (omega (int_laws, bound, floors, tail))
      | inr e ↦ rw (lt→ltb 0 _ h, e) (omega (int_laws, ltb→ge 0 _ e, bound, floors))
    ]

-- With no active miner nothing is given.
pub distribute-no_active :
    (amount : ℕ) (cs : List Miner) → active_shares cs ≡ 0 → distribute amount cs ≡ cs
unfolding distribute
distribute-no_active amount cs h = rw h

-- What a grant keeps of each miner a distribution keeps of all.
module _ (P : Miner → Type 0) (keep : (n : ℕ) (c : Miner) → P c → P (grant n c)) where
  share_bonus-All :
      (amount total : ℕ) (cs : List Miner) → All P cs → All P (map (share_bonus amount total) cs)
  unfolding share_bonus
  share_bonus-All amount total [] h = tt
  share_bonus-All amount total (c ∷ cs) h =
      ground (arith, keep (bonus amount total c) c, share_bonus-All amount total cs)

  grant_at-All :
      (n : ℕ) (cs : List Miner) (r : Option (List Miner × Miner × List Miner))
      → Splits is_active has_more_shares cs r
      → All P cs
      → All P (grant_at n cs r)
  unfolding grant_at
  grant_at-All n cs none s h = h
  grant_at-All n cs (some (before, m, behind)) s h =
      let k : All P (before ++ m ∷ behind) = rw (sym s.0) h in
      let rest = All-right P before (m ∷ behind) k in
      All-append P before (grant n m ∷ behind) (All-left P before (m ∷ behind) k)
        (keep n m rest.0, rest.1)

  pub distribute-All : (amount : ℕ) (cs : List Miner) → All P cs → All P (distribute amount cs)
  unfolding distribute grant_largest
  distribute-All amount cs h =
      let total = active_shares cs in
      let shared = share_bonus-All amount total cs h in
      ground (
        arith,
        shared,
        grant_at-All (amount - assigned amount total cs) (map (share_bonus amount total) cs)
            (split_best is_active has_more_shares (map (share_bonus amount total) cs))
            (split_best-Splits is_active has_more_shares _) shared,
      )

-- In no case is more given than the amount.
pub on_chain_total-distribute_le :
    (amount : ℕ) (cs : List Miner)
    → on_chain_total (distribute amount cs) ≤ℤ on_chain_total cs +ℤ pos amount
on_chain_total-distribute_le amount cs = elim (Bool-cases (ltb 0 (active_shares cs))) [
  | inl e ↦ omega (int_laws, on_chain_total-distribute amount cs (ltb→lt 0 _ e))
  | inr e ↦ rw (distribute-no_active amount cs (omega (arith, ltb→ge 0 _ e))) (omega int_laws)
]

active_shares-append :
    (xs ys : List Miner) → active_shares (xs ++ ys) ≡ active_shares xs + active_shares ys
unfolding active_shares
active_shares-append [] ys = omega arith
active_shares-append (x ∷ xs) ys = omega (arith, active_shares-append xs ys)

active_shares-grant_at :
    (n : ℕ) (cs : List Miner) (r : Option (List Miner × Miner × List Miner))
    → Splits is_active has_more_shares cs r
    → active_shares (grant_at n cs r) ≡ active_shares cs
unfolding grant_at
active_shares-grant_at n cs none h = refl
active_shares-grant_at n cs (some (before, m, behind)) h = rw h.0 (
    unfold active_shares grant in
    omega (
      arith,
      active_shares-append before (m ∷ behind),
      active_shares-append before (grant n m ∷ behind),
    ))

-- Shares are not touched.
pub active_shares-distribute :
    (amount : ℕ) (cs : List Miner) → active_shares (distribute amount cs) ≡ active_shares cs
unfolding distribute grant_largest
active_shares-distribute amount cs =
    let shared = map (share_bonus amount (active_shares cs)) cs in
    ground (
      arith,
      active_shares-shared amount (active_shares cs) cs,
      active_shares-grant_at (amount - assigned amount (active_shares cs) cs) shared
          (split_best is_active has_more_shares shared)
          (split_best-Splits is_active has_more_shares shared),
    )
