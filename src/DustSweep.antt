-- ===== src/DustSweep.antt =====
-- DustSweepService of src/services/dust-sweep.service.ts: the pair sweep of the PPLNS ledger.
-- The database is a list of rows, one to an address. What the program does not decide is an event
-- for each round of the loop: the clock, and whether the database commits the transaction.
pub mod Rounds
pub mod Rows
pub mod Pair
pub mod Ledger
pub mod Tests
use blitzpool.Prelude.{
  ℕ, zero, suc, ◌+◌, ◌-◌, ◌*◌, min, Bool, true, false, not, ◌&&◌, List, [], ◌∷◌, ◌++◌, Option, none,
  some, String, str_eq, ltb, ◌==◌, if◌then◌else◌, length,
}
use blitzpool.Prelude.Int.{ℤ, pos, negsuc, pos_part, neg_part, ◌+ℤ◌, ◌-ℤ◌, ltb_ℤ}
use blitzpool.Prelude.Sort.{sort}

pub record PplnsBalance : Type 0 where
  pub address : String
  pub balance_sats : ℤ
  pub last_accepted_share_at : Option ℕ

pub record AuditRow : Type 0 where
  pub block_height : ℤ
  pub address : String
  pub paid_sats : ℕ

-- The state that the sweep writes.
pub record Store : Type 0 where
  pub balances : List PplnsBalance
  pub history : List AuditRow
  pub last_sweep_block_height : Option ℤ

pub record Event : Type 0 where
  pub now_seconds : ℕ
  pub commits : Bool

-- The height of an audit row, below 0 and below the last one.
unfoldable pub sweep_block_height : ℕ → Option ℤ → ℤ
sweep_block_height now none = pos 0 -ℤ pos now
sweep_block_height now (some last) =
    if ltb_ℤ (pos 0 -ℤ pos now) last then pos 0 -ℤ pos now else last -ℤ pos 1

-- `balanceSats != 0`, and the last share older than the cutoff; no share is no signal.
unfoldable pub is_candidate : ℕ → PplnsBalance → Bool
is_candidate cutoff r =
    not (pos_part r.balance_sats == 0 && neg_part r.balance_sats == 0)
    && elim r.last_accepted_share_at [ none ↦ false | some at_ms ↦ ltb at_ms cutoff ]

unfoldable pub credits_of : ℕ → List PplnsBalance → List PplnsBalance
credits_of cutoff [] = []
credits_of cutoff (r ∷ rs) =
    let rest = credits_of cutoff rs in
    if is_candidate cutoff r && ltb 0 (pos_part r.balance_sats) then r ∷ rest else rest

unfoldable pub debits_of : ℕ → List PplnsBalance → List PplnsBalance
debits_of cutoff [] = []
debits_of cutoff (r ∷ rs) =
    let rest = debits_of cutoff rs in
    if is_candidate cutoff r && ltb 0 (neg_part r.balance_sats) then r ∷ rest else rest

abbrev pub has_more : PplnsBalance → PplnsBalance → Bool
has_more a b = ltb_ℤ b.balance_sats a.balance_sats

abbrev pub has_less : PplnsBalance → PplnsBalance → Bool
has_less a b = ltb_ℤ a.balance_sats b.balance_sats

abbrev pub is_zero : ℤ → Bool
is_zero b = pos_part b == 0 && neg_part b == 0

-- `balance.delete` at 0, else `balance.update`.
unfoldable pub write_balance : String → ℤ → List PplnsBalance → List PplnsBalance
write_balance a b [] = []
write_balance a b (r ∷ rs) =
    let rest = write_balance a b rs in
    if str_eq r.address a
    then if is_zero b then rs else record r { balance_sats = b } ∷ rs
    else r ∷ rest

-- What the transaction of one pair does.
unfoldable pub cancel_pair :
    ℤ
    → PplnsBalance
    → PplnsBalance
    → ℕ
    → List PplnsBalance
    → List AuditRow
    → List PplnsBalance × List AuditRow
cancel_pair height credit debit amount balances history = (
  write_balance debit.address (debit.balance_sats +ℤ pos amount)
      (write_balance credit.address (credit.balance_sats -ℤ pos amount) balances),
  history
      ++ record { block_height = height; address = credit.address; paid_sats = amount }
        ∷ record { block_height = height; address = debit.address; paid_sats = amount }
        ∷ [],
)

-- A row in memory after its cancellation: the pointer advances if nothing is left.
unfoldable pub advance : PplnsBalance → ℤ → List PplnsBalance → List PplnsBalance
advance r b rest = if is_zero b then rest else record r { balance_sats = b } ∷ rest

pub record Progress : Type 0 where
  pub store : Store
  pub credits : List PplnsBalance
  pub debits : List PplnsBalance
  pub pairs_closed : ℕ
  pub sats_paired : ℕ

-- `Math.min(credit.balanceSats, -debit.balanceSats)`.
abbrev pub amount_of : PplnsBalance → PplnsBalance → ℕ
amount_of credit debit = min (pos_part credit.balance_sats) (neg_part debit.balance_sats)

-- A round whose transaction commits.
unfoldable pub committed :
    ℤ → PplnsBalance → PplnsBalance → List PplnsBalance → List PplnsBalance → Progress → Progress
committed height credit debit credits debits p =
    let amount = amount_of credit debit in
    let written = cancel_pair height credit debit amount p.store.balances p.store.history in
    record {
      store = record {
        balances = written.0;
        history = written.1;
        last_sweep_block_height = some height;
      };
      credits = advance credit (credit.balance_sats -ℤ pos amount) credits;
      debits = advance debit (debit.balance_sats +ℤ pos amount) debits;
      pairs_closed = p.pairs_closed + 2;
      sats_paired = p.sats_paired + amount;
    }

-- A round whose transaction fails changes nothing but the last height, and both pointers go on.
unfoldable pub rolled_back : ℤ → List PplnsBalance → List PplnsBalance → Progress → Progress
rolled_back height credits debits p = record p {
  store = record p.store { last_sweep_block_height = some height };
  credits = credits;
  debits = debits;
}

-- One round of the loop on the two rows at its pointers.
unfoldable pub round :
    Event
    → PplnsBalance
    → PplnsBalance
    → List PplnsBalance
    → List PplnsBalance
    → Progress
    → Progress
round e credit debit credits debits p =
    let height = sweep_block_height e.now_seconds p.store.last_sweep_block_height in
    if e.commits
    then committed height credit debit credits debits p
    else rolled_back height credits debits p

-- `amount <= 0`, the sanity check of the loop.
abbrev pub is_stuck : PplnsBalance → PplnsBalance → Bool
is_stuck c d = amount_of c d == 0

-- The rounds until one side is used up; the fuel is their number at most.
unfoldable pub pair_loop :
    ℕ → (ℕ → Event) → List PplnsBalance → List PplnsBalance → Progress → Progress
pair_loop zero env credits debits p = p
pair_loop (suc fuel) env [] debits p = p
pair_loop (suc fuel) env (c ∷ cs) [] p = p
pair_loop (suc fuel) env (c ∷ cs) (d ∷ ds) p =
    let q = round (env fuel) c d cs ds p in
    let rest = pair_loop fuel env q.credits q.debits q in if is_stuck c d then p else rest

unfoldable pub sweep_pplns_pairs : (ℕ → Event) → ℕ → Store → Progress
unfolding credits_of debits_of
sweep_pplns_pairs env cutoff s =
    let credits = sort has_more (credits_of cutoff s.balances) in
    let debits = sort has_less (debits_of cutoff s.balances) in
    pair_loop (length credits + length debits) env credits debits
      (record { store = s; credits = credits; debits = debits; pairs_closed = 0; sats_paired = 0 })
