-- ===== src/DustSweep/Rounds.antt =====
-- The rounds of the pair sweep in src/services/dust-sweep.service.ts, and its audit heights.
use blitzpool.Prelude.{
  ℕ, zero, suc, ◌+◌, ◌≤◌, ◌<◌, ◌≡◌, refl, ◌⊎◌, inl, inr, true, false, List, [], ◌∷◌, some, arith,
  ltb, ltb→lt, leb, leb→le, leb→gt, length, Bool-cases, All,
}
use blitzpool.Prelude.Int.{ℤ, pos, pos_part, neg_part, ◌+ℤ◌, ◌-ℤ◌, ◌≤ℤ◌, one_sign, ltb_ℤ, int_laws}
use blitzpool.Prelude.Sort.{sort, All-sort}
use blitzpool.DustSweep.{
  PplnsBalance, Store, Event, Progress, sweep_block_height, is_zero, advance, amount_of, committed,
  rolled_back, round, is_stuck, pair_loop, credits_of, debits_of, has_more, has_less,
  sweep_pplns_pairs,
}

-- Every height is below the last one, whatever the clock does: no two rounds share one.
pub sweep_block_height-falls :
    (now : ℕ) (last : ℤ) → sweep_block_height now (some last) +ℤ pos 1 ≤ℤ last
unfolding sweep_block_height
sweep_block_height-falls now last = elim (Bool-cases (ltb_ℤ (pos 0 -ℤ pos now) last)) [
  | inl e ↦ rw e (omega (int_laws, ltb→lt _ _ e))
  | inr e ↦ rw e (omega int_laws)
]

-- Rows of the two sides.
abbrev pub IsCredit : PplnsBalance → Type 0
IsCredit r = 0 < pos_part r.balance_sats

abbrev pub IsDebit : PplnsBalance → Type 0
IsDebit r = 0 < neg_part r.balance_sats

is_zero_not : (b : ℤ) → is_zero b ≡ false → 0 < pos_part b + neg_part b
is_zero_not b h = ground arith

zero-is_zero : (b : ℤ) → pos_part b ≡ 0 → neg_part b ≡ 0 → is_zero b ≡ true
zero-is_zero b h k = ground arith

advance-zero :
    (r : PplnsBalance) (b : ℤ) (rest : List PplnsBalance)
    → is_zero b ≡ true
    → advance r b rest ≡ rest
unfolding advance
advance-zero r b rest h = rw h refl

advance-short :
    (r : PplnsBalance) (b : ℤ) (rest : List PplnsBalance)
    → length (advance r b rest) ≤ suc (length rest)
unfolding advance
advance-short r b rest = ground arith

pub advance-All :
    (P : PplnsBalance → Type 0) (r : PplnsBalance) (b : ℤ) (rest : List PplnsBalance)
    → (is_zero b ≡ false → P (record r { balance_sats = b }))
    → All P rest
    → All P (advance r b rest)
unfolding advance
advance-All P r b rest h k = elim (Bool-cases (is_zero b)) [
  | inl e ↦ rw e k
  | inr e ↦ rw e (h e, k)
]

module _ (c d : PplnsBalance) (hc : IsCredit c) (hd : IsDebit d) where
  -- What is left of the two is 0 on one side, and has the sign that it had.
  pub left_of : ℤ × ℤ
  left_of = (c.balance_sats -ℤ pos (amount_of c d), d.balance_sats +ℤ pos (amount_of c d))

  one_zero : (is_zero left_of.0 ≡ true) ⊎ (is_zero left_of.1 ≡ true)
  unfolding left_of
  one_zero = elim (Bool-cases (leb (pos_part c.balance_sats) (neg_part d.balance_sats))) [
    | inl e ↦ inl (
        zero-is_zero left_of.0
          (omega (int_laws, leb→le _ _ e, one_sign c.balance_sats, one_sign left_of.0))
          (omega (int_laws, leb→le _ _ e, one_sign c.balance_sats, one_sign left_of.0)))
    | inr e ↦ inr (
        zero-is_zero left_of.1
          (omega (int_laws, leb→gt _ _ e, one_sign d.balance_sats, one_sign left_of.1))
          (omega (int_laws, leb→gt _ _ e, one_sign d.balance_sats, one_sign left_of.1)))
  ]

  pub credit_left : is_zero left_of.0 ≡ false → 0 < pos_part left_of.0
  unfolding left_of
  credit_left e =
      omega (int_laws, is_zero_not left_of.0 e, one_sign c.balance_sats, one_sign left_of.0)

  pub debit_left : is_zero left_of.1 ≡ false → 0 < neg_part left_of.1
  unfolding left_of
  debit_left e =
      omega (int_laws, is_zero_not left_of.1 e, one_sign d.balance_sats, one_sign left_of.1)

  module _ (height : ℤ) (cs ds : List PplnsBalance) (p : Progress) where
    committed-shorter :
        let q = committed height c d cs ds p in
        length q.credits + length q.debits < suc (length cs) + suc (length ds)
    unfolding committed left_of
    committed-shorter = elim one_zero [
      | inl z ↦ rw (advance-zero c _ cs z) (omega (arith, advance-short d left_of.1 ds))
      | inr z ↦ rw (advance-zero d _ ds z) (omega (arith, advance-short c left_of.0 cs))
    ]

    committed-signs :
        All IsCredit cs
        → All IsDebit ds
        → let q = committed height c d cs ds p in All IsCredit q.credits × All IsDebit q.debits
    unfolding committed left_of
    committed-signs kc kd =
        (advance-All IsCredit c _ cs credit_left kc, advance-All IsDebit d _ ds debit_left kd)

  pub not_stuck : is_stuck c d ≡ false
  not_stuck = ground arith

-- A round takes a row off one side at least, and leaves credits and debits.
round-shorter :
    (e : Event) (c d : PplnsBalance) (cs ds : List PplnsBalance) (p : Progress)
    → IsCredit c
    → IsDebit d
    → let q = round e c d cs ds p in
      length q.credits + length q.debits < suc (length cs) + suc (length ds)
unfolding round rolled_back
round-shorter e c d cs ds p hc hd = elim (Bool-cases e.commits) [
  | inl f ↦ simp f (committed-shorter c d hc hd _ cs ds p)
  | inr f ↦ simp f (omega arith)
]

pub round-signs :
    (e : Event) (c d : PplnsBalance) (cs ds : List PplnsBalance) (p : Progress)
    → IsCredit c
    → IsDebit d
    → All IsCredit cs
    → All IsDebit ds
    → let q = round e c d cs ds p in All IsCredit q.credits × All IsDebit q.debits
unfolding round rolled_back
round-signs e c d cs ds p hc hd kc kd = elim (Bool-cases e.commits) [
  | inl f ↦ simp f (committed-signs c d hc hd _ cs ds p kc kd)
  | inr f ↦ simp f (kc, kd)
]

-- With the fuel of the sweep the loop ends by its test: one side is used up, whatever commits.
pair_loop-ends :
    (fuel : ℕ) (env : ℕ → Event) (cs ds : List PplnsBalance) (p : Progress)
    → length cs + length ds ≤ fuel
    → All IsCredit cs
    → All IsDebit ds
    → p.credits ≡ cs
    → p.debits ≡ ds
    → let q = pair_loop fuel env cs ds p in (q.credits ≡ []) ⊎ (q.debits ≡ [])
unfolding pair_loop
pair_loop-ends zero env [] ds p h kc kd ec ed = inl ec
pair_loop-ends zero env (c ∷ cs) ds p h kc kd ec ed = absurd (omega arith)
pair_loop-ends (suc fuel) env [] ds p h kc kd ec ed = inl ec
pair_loop-ends (suc fuel) env (c ∷ cs) [] p h kc kd ec ed = inr ed
pair_loop-ends (suc fuel) env (c ∷ cs) (d ∷ ds) p h kc kd ec ed =
    let q = round (env fuel) c d cs ds p in
    let shorter = round-shorter (env fuel) c d cs ds p kc.0 kd.0 in
    let signs = round-signs (env fuel) c d cs ds p kc.0 kd.0 kc.1 kd.1 in
    rw (not_stuck c d kc.0 kd.0) (
      pair_loop-ends fuel env q.credits q.debits q (omega (arith, shorter)) signs.0 signs.1 refl
        refl)

pub credits-All : (cutoff : ℕ) (rs : List PplnsBalance) → All IsCredit (credits_of cutoff rs)
unfolding credits_of
credits-All cutoff [] = tt
credits-All cutoff (r ∷ rs) = elim (Bool-cases (ltb 0 (pos_part r.balance_sats))) [
  | inl e ↦ ground (arith, credits-All cutoff rs)
  | inr e ↦ ground (arith, credits-All cutoff rs)
]

pub debits-All : (cutoff : ℕ) (rs : List PplnsBalance) → All IsDebit (debits_of cutoff rs)
unfolding debits_of
debits-All cutoff [] = tt
debits-All cutoff (r ∷ rs) = ground (arith, debits-All cutoff rs)

-- A sweep pairs until the abandoned credits or the abandoned debits are used up (or, of a pair
-- whose transaction failed, passed over).
pub sweep_pplns_pairs-ends :
    (env : ℕ → Event) (cutoff : ℕ) (s : Store)
    → let q = sweep_pplns_pairs env cutoff s in (q.credits ≡ []) ⊎ (q.debits ≡ [])
unfolding sweep_pplns_pairs
sweep_pplns_pairs-ends env cutoff s =
    let credits = sort has_more (credits_of cutoff s.balances) in
    let debits = sort has_less (debits_of cutoff s.balances) in
    pair_loop-ends (length credits + length debits) env credits debits _ (omega arith)
      (All-sort has_more IsCredit _ (credits-All cutoff s.balances))
      (All-sort has_less IsDebit _ (debits-All cutoff s.balances)) refl refl
