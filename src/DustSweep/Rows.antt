-- ===== src/DustSweep/Rows.antt =====
-- The rows of the ledger of src/services/dust-sweep.service.ts: what writing one does to the others.
use text.Mathlib.TextEquality.{eq_iff}
use blitzpool.Prelude.{
  some_eq, ◌≡◌, ◌≢◌, refl, sym, ◌∙◌, inl, inr, Bool, true, false, List, [], ◌∷◌, Option, none, some,
  String, str_eq, arith, Bool-cases, All, if◌then◌else◌,
}
use blitzpool.Prelude.Int.{ℤ, pos, ◌+ℤ◌, Agree, int_laws}
use blitzpool.Prelude.Sort.{insert, sort, All-insert, All-sort}
use blitzpool.DustSweep.{PplnsBalance, write_balance, is_zero}

-- The balance of an address.
unfoldable pub balance_of : String → List PplnsBalance → Option ℤ
balance_of a [] = none
balance_of a (r ∷ rs) = if str_eq r.address a then some r.balance_sats else balance_of a rs

-- The sum of the balances.
unfoldable pub total_balance : List PplnsBalance → ℤ
total_balance [] = pos 0
total_balance (r ∷ rs) = r.balance_sats +ℤ total_balance rs

abbrev pub IsApart : PplnsBalance → PplnsBalance → Type 0
IsApart r s = r.address ≢ s.address

-- No two rows have the same address.
abbrev pub AllApart : List PplnsBalance → Type 0
AllApart [] = Unit {0}
AllApart (r ∷ rs) = All (IsApart r) rs × AllApart rs

-- A row in memory has the balance of the ledger.
abbrev pub IsSynced : List PplnsBalance → PplnsBalance → Type 0
IsSynced ledger r = balance_of r.address ledger ≡ some r.balance_sats

pub other_row : (a b : String) → a ≢ b → str_eq a b ≡ false
other_row a b h = elim (Bool-cases (str_eq a b)) [
  | inl e ↦ absurd (h ((eq_iff a b).0 e))
  | inr e ↦ e
]

zero_parts : (b : ℤ) → is_zero b ≡ true → Agree b (pos 0)
zero_parts b h = ground arith

pub total_balance-write_balance :
    (a : String) (b old : ℤ) (rs : List PplnsBalance)
    → balance_of a rs ≡ some old
    → Agree (total_balance (write_balance a b rs) +ℤ old) (total_balance rs +ℤ b)
unfolding balance_of total_balance write_balance
total_balance-write_balance a b old [] h = cc
total_balance-write_balance a b old (r ∷ rs) h = elim (Bool-cases (str_eq r.address a)) [
  | inl e ↦
      let same : r.balance_sats ≡ old = some_eq (rw e at h) in
      elim (Bool-cases (is_zero b)) [
        | inl z ↦ rw (e, z) (rw same (omega (int_laws, zero_parts b z)))
        | inr z ↦ rw (e, z) (rw same (omega int_laws))
      ]
  | inr e ↦ rw e (omega (int_laws, total_balance-write_balance a b old rs (rw e at h)))
]

pub balance_of-write_balance-other :
    (a c : String) (b : ℤ) (rs : List PplnsBalance)
    → a ≢ c
    → balance_of c (write_balance a b rs) ≡ balance_of c rs
unfolding balance_of write_balance
balance_of-write_balance-other a c b [] h = refl
balance_of-write_balance-other a c b (r ∷ rs) h = elim (Bool-cases (str_eq r.address a)) [
  | inl e ↦
      let other = other_row r.address c (λ p. h (sym ((eq_iff r.address a).0 e) ∙ p)) in
      elim (Bool-cases (is_zero b)) [
        | inl z ↦ rw (e, z, other) refl
        | inr z ↦ rw (e, z, other) refl
      ]
  | inr e ↦ rw (e, balance_of-write_balance-other a c b rs h) refl
]

pub balance_of-write_balance :
    (a : String) (b old : ℤ) (rs : List PplnsBalance)
    → is_zero b ≡ false
    → balance_of a rs ≡ some old
    → balance_of a (write_balance a b rs) ≡ some b
unfolding balance_of write_balance
balance_of-write_balance a b old [] z h = cc
balance_of-write_balance a b old (r ∷ rs) z h = elim (Bool-cases (str_eq r.address a)) [
  | inl e ↦ rw (e, z, e) refl
  | inr e ↦ rw (e, e) (balance_of-write_balance a b old rs z (rw e at h))
]

All-both :
    {P Q R : PplnsBalance → Type 0} (rs : List PplnsBalance)
    → ((r : PplnsBalance) → P r → Q r → R r)
    → All P rs
    → All Q rs
    → All R rs
All-both [] f h k = tt
All-both (r ∷ rs) f h k = (f r h.0 k.0, All-both rs f h.1 k.1)

-- The rows of a ledger are in step with it.
pub AllApart-IsSynced : (rs : List PplnsBalance) → AllApart rs → All (IsSynced rs) rs
unfolding balance_of
AllApart-IsSynced [] h = tt
AllApart-IsSynced (r ∷ rs) h = (
  rw ((eq_iff r.address r.address).1 refl) refl,
  All-both rs (λ s apart synced. rw (other_row r.address s.address apart) synced) h.0
      (AllApart-IsSynced rs h.1),
)

module _ (precedes : PplnsBalance → PplnsBalance → Bool) where
  AllApart-insert :
      (r : PplnsBalance) (rs : List PplnsBalance)
      → All (IsApart r) rs
      → AllApart rs
      → AllApart (insert precedes r rs)
  unfolding insert
  AllApart-insert r [] h k = (tt, tt)
  AllApart-insert r (s ∷ rs) h k = elim (Bool-cases (precedes s r)) [
    | inl e ↦
        rw e (
          All-insert precedes (IsApart s) r rs (λ p. h.0 (sym p)) k.0,
          AllApart-insert r rs h.1 k.1,
        )
    | inr e ↦ rw e (h, k)
  ]

  pub AllApart-sort : (rs : List PplnsBalance) → AllApart rs → AllApart (sort precedes rs)
  unfolding sort
  AllApart-sort [] h = tt
  AllApart-sort (r ∷ rs) h =
      AllApart-insert r (sort precedes rs) (All-sort precedes (IsApart r) rs h.0)
        (AllApart-sort rs h.1)
