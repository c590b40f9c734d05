-- ===== src/Coinbase/Cap/Bounds.antt =====
-- The cuts of the solvency cap in src/services/coinbase-distribution.ts.
use blitzpool.Prelude.{
  ℕ, ◌+◌, ◌-◌, ◌≤◌, min, sym, List, [], ◌∷◌, ◌++◌, map, Option, none, some, arith, ltb, leb, ltb→ge,
  inl, inr, Bool-cases, ◌&&◌, All, All-append, All-left, All-right,
}
use blitzpool.Prelude.Int.{ℤ, pos, pos_part, neg_part, ◌+ℤ◌, ◌≤ℤ◌, Agree, one_sign, int_laws}
use blitzpool.Prelude.Pick.{split_best, Splits, split_best-Splits}
use blitzpool.Coinbase.Miner.{
  Miner, credit, cut, on_chain_total, on_chain_total-append, total_credit, IsPaid, IsBooked,
  cut-IsBooked,
}
use blitzpool.Coinbase.Cap.{
  is_claimer, has_more_credit, floor_cut, cut_floor, floor_cuts, cut_at, cut_claimers, solvency_cap,
}

on_chain_total-cut_floor :
    (o t : ℕ) (cs : List Miner)
    → Agree (on_chain_total (map (cut_floor o t) cs) +ℤ pos (floor_cuts o t cs)) (on_chain_total cs)
unfolding on_chain_total cut_floor floor_cuts cut
on_chain_total-cut_floor o t [] = omega int_laws
on_chain_total-cut_floor o t (c ∷ cs) = elim (Bool-cases (is_claimer c)) [
  | inl e ↦ rw e (omega (int_laws, on_chain_total-cut_floor o t cs))
  | inr e ↦ rw e (omega (int_laws, on_chain_total-cut_floor o t cs))
]

-- What the loop applies is what the block pays less.
on_chain_total-cut_at :
    (o t : ℕ) (cs : List Miner) (r : Option (List Miner × Miner × List Miner))
    → Splits is_claimer has_more_credit cs r
    → Agree (on_chain_total (cut_at o t cs r).0 +ℤ pos (cut_at o t cs r).1) (on_chain_total cs)
unfolding cut_at
on_chain_total-cut_at o t cs none h = omega int_laws
on_chain_total-cut_at o t cs (some (before, m, behind)) h =
    let left = floor_cuts o t before + floor_cuts o t behind in
    let last = min (o - left) (credit m) in
    rw (h.0) (
      unfold on_chain_total cut in
      omega (
        int_laws,
        on_chain_total-append before (m ∷ behind),
        on_chain_total-append (map (cut_floor o t) before)
            (cut last m ∷ map (cut_floor o t) behind),
        on_chain_total-cut_floor o t before,
        on_chain_total-cut_floor o t behind,
      ))

-- A miner of the block before the cap, and after it: what he worked for is his, less a debt.
abbrev pub IsWhole : Miner → Type 0
IsWhole c = IsPaid c × (pos 0 ≤ℤ c.on_chain) × IsBooked c

abbrev pub IsCapped : Miner → Type 0
IsCapped c =
    (pos c.raw_fair ≤ℤ c.on_chain +ℤ pos (neg_part c.balance_old))
    × (pos 0 ≤ℤ c.on_chain)
    × IsBooked c

cut-IsCapped : (n : ℕ) (c : Miner) → n ≤ credit c → IsWhole c → IsCapped (cut n c)
unfolding cut
cut-IsCapped n c h k =
    let (paid, there, booked) = k in
    (
      omega (int_laws, paid, one_sign c.balance_old),
      omega (int_laws, paid, there, one_sign c.balance_old),
      cut-IsBooked n c booked,
    )

whole-IsCapped : (c : Miner) → IsWhole c → IsCapped c
whole-IsCapped c k = (omega (int_laws, k.0), k.1, k.2)

cut_floor-All : (o t : ℕ) (cs : List Miner) → All IsWhole cs → All IsCapped (map (cut_floor o t) cs)
unfolding cut_floor floor_cut
cut_floor-All o t [] h = tt
cut_floor-All o t (c ∷ cs) h = (
  elim (Bool-cases (is_claimer c)) [
    | inl e ↦ rw e (cut-IsCapped (floor_cut o t c) c (unfold floor_cut in omega arith) h.0)
    | inr e ↦ rw e (whole-IsCapped c h.0)
  ],
  cut_floor-All o t cs h.1,
)

All-whole : (cs : List Miner) → All IsWhole cs → All IsCapped cs
All-whole [] h = tt
All-whole (c ∷ cs) h = (whole-IsCapped c h.0, All-whole cs h.1)

cut_at-All :
    (o t : ℕ) (cs : List Miner) (r : Option (List Miner × Miner × List Miner))
    → Splits is_claimer has_more_credit cs r
    → All IsWhole cs
    → All IsCapped (cut_at o t cs r).0
unfolding cut_at
cut_at-All o t cs none s h = All-whole cs h
cut_at-All o t cs (some (before, m, behind)) s h =
    let k : All IsWhole (before ++ m ∷ behind) = rw (sym s.0) h in
    let rest = All-right IsWhole before (m ∷ behind) k in
    All-append IsCapped (map (cut_floor o t) before) _
      (cut_floor-All o t before (All-left IsWhole before (m ∷ behind) k))
      (cut-IsCapped _ m (omega arith) rest.0, cut_floor-All o t behind rest.1)

abbrev pub AllCapped : Option (List Miner) → Type 0
AllCapped none = Unit {0}
AllCapped (some capped) = All IsCapped capped

module _ (overshoot : ℤ) (kept : List Miner) where
  -- Of `solvency_cap`: a success pays at most the overshoot less.
  abbrev pub Fits : Option (List Miner) → Type 0
  Fits none = Unit {0}
  Fits (some capped) =
      on_chain_total capped +ℤ overshoot ≤ℤ on_chain_total kept +ℤ pos (neg_part overshoot)

  pub solvency_cap-Fits : Fits (solvency_cap overshoot kept)
  unfolding solvency_cap cut_claimers
  solvency_cap-Fits =
      let over = pos_part overshoot in
      let best = split_best is_claimer has_more_credit kept in
      let applied = (cut_at over (total_credit kept) kept best).1 in
      let total =
        on_chain_total-cut_at over (total_credit kept) kept best
          (split_best-Splits is_claimer has_more_credit kept) in
      elim (Bool-cases (ltb 0 over)) [
        | inr e ↦ rw e (omega (int_laws, ltb→ge 0 _ e))
        | inl e ↦ elim (Bool-cases (leb over (total_credit kept) && ltb 0 (total_credit kept))) [
          | inr f ↦ rw (e, f) tt
          | inl f ↦ elim (Bool-cases (ltb applied over)) [
            | inl g ↦ rw (e, f, g) tt
            | inr g ↦ rw (e, f, g) (omega (int_laws, total, ltb→ge applied over g))
          ]
        ]
      ]

  pub solvency_cap-AllCapped : All IsWhole kept → AllCapped (solvency_cap overshoot kept)
  unfolding solvency_cap cut_claimers
  solvency_cap-AllCapped h =
      let all =
        cut_at-All (pos_part overshoot) (total_credit kept) kept
          (split_best is_claimer has_more_credit kept)
          (split_best-Splits is_claimer has_more_credit kept) h in
      ground (arith, all, All-whole kept h)
