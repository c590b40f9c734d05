-- ===== src/Coinbase/Share.antt =====
-- How an amount goes to the active miners of the block in proportion to their shares, each with a
-- matching debit: phases 5a and 5b of src/services/coinbase-distribution.ts.
pub mod Totals
use blitzpool.Prelude.{
  ℕ, ◌+◌, ◌-◌, ◌*◌, ◌/◌, Bool, List, [], ◌∷◌, ◌++◌, map, Option, none, some, ltb, leb,
  if◌then◌else◌,
}
use blitzpool.Prelude.Pick.{split_best}
use blitzpool.Coinbase.Miner.{Miner, is_active, grant, active_shares}

-- `Math.floor(amount * c.shares / total)`.
unfoldable pub bonus : ℕ → ℕ → Miner → ℕ
bonus amount total c = amount * c.shares / total

unfoldable pub share_bonus : ℕ → ℕ → Miner → Miner
share_bonus amount total c = if is_active c then grant (bonus amount total c) c else c

-- `bonusAssigned`, `assigned`.
unfoldable pub assigned : ℕ → ℕ → List Miner → ℕ
assigned amount total [] = 0
assigned amount total (c ∷ cs) =
    (if is_active c then bonus amount total c else 0) + assigned amount total cs

-- The head of `[...keptActive].sort((a, b) => b.shares - a.shares)`, which is stable, in its place
-- in the list: the first of those with the most shares.
abbrev pub has_more_shares : Miner → Miner → Bool
has_more_shares c m = leb m.shares c.shares

unfoldable pub grant_at : ℕ → List Miner → Option (List Miner × Miner × List Miner) → List Miner
grant_at n cs none = cs
grant_at n cs (some (before, m, behind)) = before ++ grant n m ∷ behind

unfoldable pub grant_largest : ℕ → List Miner → List Miner
unfolding grant_at
grant_largest n cs = grant_at n cs (split_best is_active has_more_shares cs)

-- The floors first, then what they leave to the largest.
unfoldable pub distribute : ℕ → List Miner → List Miner
distribute amount kept =
    let total = active_shares kept in
    let shared = map (share_bonus amount total) kept in
    let residual = amount - assigned amount total kept in
    if ltb 0 total then if ltb 0 residual then grant_largest residual shared else shared else kept
