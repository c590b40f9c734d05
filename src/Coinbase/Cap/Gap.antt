-- ===== src/Coinbase/Cap/Gap.antt =====
-- The solvency cap of src/services/coinbase-distribution.ts on three equal credits.
use blitzpool.Prelude.{ℕ, ◌+◌, ◌*◌, ◌/◌, ◌≡◌, [], ◌∷◌, none, arith}
use native.Mathlib.Nat.{div-eq_of_lt-le}
use blitzpool.Prelude.Int.{pos}
use blitzpool.Prelude.Pick.{split_best}
use blitzpool.Coinbase.Miner.{Miner, credit, total_credit}
use blitzpool.Coinbase.Cap.{floor_cut, floor_cuts, cut_at, cut_claimers, solvency_cap}

floor_of_third : (k : ℕ) → (3 * k + 2) * (k + 1) / (3 * (k + 1)) ≡ k
floor_of_third k = div-eq_of_lt-le (3 * (k + 1)) (omega arith) (omega arith)

total : (k : ℕ) → k + 1 + (k + 1 + (k + 1 + 0)) ≡ 3 * (k + 1)
total k = omega arith

-- Three equal credits and an overshoot of one less than their sum: each of the first two is cut by
-- one less than its credit, the last would have to give one more than it has, and the block is
-- given up for the fallback.
pub solvency_cap-three_equal :
    (x y z : Miner) (k : ℕ)
    → credit x ≡ k + 1
    → credit y ≡ k + 1
    → credit z ≡ k + 1
    → solvency_cap (pos (3 * k + 2)) (x ∷ y ∷ z ∷ []) ≡ none
unfolding solvency_cap cut_claimers cut_at floor_cuts floor_cut total_credit split_best
solvency_cap-three_equal x y z k p q r = simp (p, q, r) (ground (arith, total k, floor_of_third k))
