-- ===== src/Coinbase/Miner.antt =====
-- MinerComputation of src/services/coinbase-distribution.ts: what the algorithm knows of a miner,
-- the writes it makes to one, and the sums it takes over all.
use blitzpool.Prelude.{ℕ, ◌+◌, Bool, List, [], ◌∷◌, ◌++◌, ltb, if◌then◌else◌}
use blitzpool.Prelude.Int.{ℤ, pos, pos_part, ◌+ℤ◌, ◌-ℤ◌, ◌≤ℤ◌, Agree, int_laws}
use blitzpool.Coinbase.Weight.{Address}

pub record Miner : Type 0 where
  pub address : Address
  pub shares : ℕ
  pub raw_fair : ℕ
  pub balance_old : ℤ
  pub target : ℤ
  pub eligible : Bool
  pub on_chain : ℤ
  pub balance_new : ℤ

-- `c.shares > 0`.
abbrev pub is_active : Miner → Bool
is_active c = ltb 0 c.shares

-- The positive part of the old balance: `c.balanceOld` where that is above 0.
abbrev pub credit : Miner → ℕ
credit c = pos_part c.balance_old

-- `c.onChain += n; c.balanceNew -= n`.
unfoldable pub grant : ℕ → Miner → Miner
grant n c = record c { on_chain = c.on_chain +ℤ pos n; balance_new = c.balance_new -ℤ pos n }

-- `c.onChain -= n; c.balanceNew += n`.
unfoldable pub cut : ℕ → Miner → Miner
cut n c = record c { on_chain = c.on_chain -ℤ pos n; balance_new = c.balance_new +ℤ pos n }

-- The sum of `onChain`.
unfoldable pub on_chain_total : List Miner → ℤ
on_chain_total [] = pos 0
on_chain_total (c ∷ cs) = c.on_chain +ℤ on_chain_total cs

-- The sum of `shares` over the active miners of a list.
unfoldable pub active_shares : List Miner → ℕ
active_shares [] = 0
active_shares (c ∷ cs) = (if is_active c then c.shares else 0) + active_shares cs

-- The sum of the credits of a list.
unfoldable pub total_credit : List Miner → ℕ
total_credit [] = 0
total_credit (c ∷ cs) = credit c + total_credit cs

-- Nothing is lost between the block and the ledger: what a miner is paid and what the ledger keeps
-- for him are his part of this block and his old balance.
abbrev pub IsBooked : Miner → Type 0
IsBooked c = Agree (c.on_chain +ℤ c.balance_new) (pos c.raw_fair +ℤ c.balance_old)

-- A miner in the block has all that he worked for in it, less a debt of his, more his credit.
abbrev pub IsPaid : Miner → Type 0
IsPaid c = pos c.raw_fair +ℤ c.balance_old ≤ℤ c.on_chain

pub on_chain_total-append :
    (xs ys : List Miner)
    → Agree (on_chain_total (xs ++ ys)) (on_chain_total xs +ℤ on_chain_total ys)
unfolding on_chain_total
on_chain_total-append [] ys = omega int_laws
on_chain_total-append (x ∷ xs) ys = omega (int_laws, on_chain_total-append xs ys)

pub grant-IsBooked : (n : ℕ) (c : Miner) → IsBooked c → IsBooked (grant n c)
unfolding grant
grant-IsBooked n c h = omega int_laws

pub cut-IsBooked : (n : ℕ) (c : Miner) → IsBooked c → IsBooked (cut n c)
unfolding cut
cut-IsBooked n c h = omega int_laws
