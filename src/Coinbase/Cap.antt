-- ===== src/Coinbase/Cap.antt =====
-- The solvency cap, phase 5a.5 of src/services/coinbase-distribution.ts: where the block would pay
-- more than the reward, the credits in it are cut.
-- The loop there runs over the claimers by rising credit. What it does to one of them depends on
-- the others only for the last, which takes what the floors of all others leave; so the model cuts
-- the claimers where they stand and treats that last one, the last of those with the largest
-- credit (the sort is stable), by itself.
pub mod Bounds
pub mod Gap
use blitzpool.Prelude.{
  ℕ, ◌+◌, ◌-◌, ◌*◌, ◌/◌, min, Bool, List, [], ◌∷◌, ◌++◌, map, Option, none, some, ltb, leb, ◌&&◌,
  not, if◌then◌else◌,
}
use blitzpool.Prelude.Int.{ℤ, pos_part}
use blitzpool.Prelude.Pick.{split_best}
use blitzpool.Coinbase.Miner.{Miner, credit, cut, total_credit}

-- `c.balanceOld > 0`.
abbrev pub is_claimer : Miner → Bool
is_claimer c = ltb 0 (credit c)

abbrev pub has_more_credit : Miner → Miner → Bool
has_more_credit c m = ltb (credit m) (credit c)

-- The cut of a claimer that is not the last, with its clamp.
unfoldable pub floor_cut : ℕ → ℕ → Miner → ℕ
floor_cut overshoot total c = min (overshoot * credit c / total) (credit c)

unfoldable pub cut_floor : ℕ → ℕ → Miner → Miner
cut_floor overshoot total c = if is_claimer c then cut (floor_cut overshoot total c) c else c

unfoldable pub floor_cuts : ℕ → ℕ → List Miner → ℕ
floor_cuts overshoot total [] = 0
floor_cuts overshoot total (c ∷ cs) =
    (if is_claimer c then floor_cut overshoot total c else 0) + floor_cuts overshoot total cs

-- The kept miners after the loop, with `applied`. The floors add up to the overshoot at most, so
-- the difference does not stop at 0.
unfoldable pub cut_at :
    ℕ → ℕ → List Miner → Option (List Miner × Miner × List Miner) → List Miner × ℕ
cut_at overshoot total cs none = (cs, 0)
cut_at overshoot total cs (some (before, m, behind)) =
    let applied = floor_cuts overshoot total before + floor_cuts overshoot total behind in
    let last = min (overshoot - applied) (credit m) in
    (
      map (cut_floor overshoot total) before ++ cut last m ∷ map (cut_floor overshoot total) behind,
      applied + last,
    )

unfoldable pub cut_claimers : ℕ → List Miner → List Miner × ℕ
unfolding cut_at
cut_claimers overshoot kept =
    cut_at overshoot (total_credit kept) kept (split_best is_claimer has_more_credit kept)

-- `none` is the fallback that pays the whole block to the fee address.
unfoldable pub solvency_cap : ℤ → List Miner → Option (List Miner)
solvency_cap overshoot kept =
    let over = pos_part overshoot in
    let (capped, applied) = cut_claimers over kept in
    if ltb 0 over
    then if leb over (total_credit kept) && ltb 0 (total_credit kept)
      then if ltb applied over then none else some capped
      else none
    else some kept
