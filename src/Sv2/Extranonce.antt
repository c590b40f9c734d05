-- ===== src/Sv2/Extranonce.antt =====
-- Sv2ExtranonceManager of src/models/sv2/sv2-extranonce-manager.ts, which gives each extended
-- channel a prefix. The worker's id is 0 there, so its offset is too, and a local prefix is the
-- global one. A map or a set is a list.
pub mod Unique
pub mod Exhausted
use mathlib.Core.List.{reverse}
use blitzpool.Prelude.{
  ℕ, zero, suc, ◌+◌, ◌-◌, ◌*◌, ◌^◌, ◌%◌, ◌/◌, Bool, true, false, not, ◌||◌, List, [], ◌∷◌, map,
  Option, none, some, ltb, ◌==◌, if◌then◌else◌, length,
}
use blitzpool.Sv2.Codec.{Bytes, le_bytes}

pub record Sv2ExtranonceManager : Type 0 where
  pub next_prefix : ℕ
  pub max_prefix : ℕ
  pub allocated_prefixes : List (ℕ × ℕ)
  pub used_prefixes : List ℕ
  pub prefix_size : ℕ
  pub total_extranonce_size : ℕ

unfoldable pub new_manager : ℕ → ℕ → Sv2ExtranonceManager
new_manager prefix_size total_extranonce_size = record {
  next_prefix = 1;
  max_prefix = 2 ^ ((prefix_size - 1) * 8) - 1;
  allocated_prefixes = [];
  used_prefixes = [];
  prefix_size = prefix_size;
  total_extranonce_size = total_extranonce_size;
}

unfoldable pub miner_extranonce_size : Sv2ExtranonceManager → ℕ
miner_extranonce_size m = m.total_extranonce_size - m.prefix_size

-- `Set.has`.
unfoldable pub mem : ℕ → List ℕ → Bool
mem a [] = false
mem a (b ∷ bs) = b == a || mem a bs

-- `Set.delete`.
unfoldable pub remove : ℕ → List ℕ → List ℕ
remove a [] = []
remove a (b ∷ bs) = let rest = remove a bs in if b == a then rest else b ∷ rest

-- `Map.get`, `Map.delete`.
unfoldable pub prefix_of : ℕ → List (ℕ × ℕ) → Option ℕ
prefix_of c [] = none
prefix_of c ((d, p) ∷ m) = if d == c then some p else prefix_of c m

unfoldable pub forget : ℕ → List (ℕ × ℕ) → List (ℕ × ℕ)
forget c [] = []
forget c ((d, p) ∷ m) = let rest = forget c m in if d == c then m else (d, p) ∷ rest

-- The next prefix, which wraps round to 1.
unfoldable pub next_local : ℕ → ℕ → ℕ
next_local max_prefix p = if ltb max_prefix (p + 1) then 1 else p + 1

-- The loop of `allocate`, with the attempts that it has left.
unfoldable pub find_free : ℕ → ℕ → List ℕ → ℕ → ℕ
find_free zero max_prefix used p = p
find_free (suc attempts) max_prefix used p =
    let further = find_free attempts max_prefix used (next_local max_prefix p) in
    if mem p used then further else p

-- The loop for the other sizes, whose shift `>>> 8` is one of 32 bits; from the last byte on.
generic_bytes : ℕ → ℕ → Bytes
generic_bytes zero value = []
generic_bytes (suc width) value = value % 256 ∷ generic_bytes width (value % 2 ^ 32 / 256)

-- The prefix as `prefix_size` bytes, the most significant first.
unfoldable pub prefix_to_buffer : ℕ → ℕ → Bytes
unfolding generic_bytes
prefix_to_buffer prefix_size p =
    if prefix_size == 4 || prefix_size == 2
    then reverse (le_bytes prefix_size p)
    else reverse (generic_bytes prefix_size p)

-- The part of `allocate` behind the look for the channel.
unfoldable pub allocate_free : ℕ → Sv2ExtranonceManager → Option (Bytes × Sv2ExtranonceManager)
allocate_free channel m =
    let p = find_free (m.max_prefix + 1) m.max_prefix m.used_prefixes m.next_prefix in
    if mem p m.used_prefixes
    then none
    else some (
      prefix_to_buffer m.prefix_size p,
      record m {
        next_prefix = next_local m.max_prefix p;
        allocated_prefixes = (channel, p) ∷ m.allocated_prefixes;
        used_prefixes = p ∷ m.used_prefixes;
      },
    )

abbrev pub allocate_as : ℕ → Sv2ExtranonceManager → Option ℕ → Option (Bytes × Sv2ExtranonceManager)
allocate_as channel m none = allocate_free channel m
allocate_as channel m (some p) = some (prefix_to_buffer m.prefix_size p, m)

-- `none` stands for the error that the prefix space is exhausted.
unfoldable pub allocate : ℕ → Sv2ExtranonceManager → Option (Bytes × Sv2ExtranonceManager)
allocate channel m = allocate_as channel m (prefix_of channel m.allocated_prefixes)

abbrev pub release_as : ℕ → Sv2ExtranonceManager → Option ℕ → Sv2ExtranonceManager
release_as channel m none = m
release_as channel m (some p) = record m {
  allocated_prefixes = forget channel m.allocated_prefixes;
  used_prefixes = remove p m.used_prefixes;
}

unfoldable pub release : ℕ → Sv2ExtranonceManager → Sv2ExtranonceManager
release channel m = release_as channel m (prefix_of channel m.allocated_prefixes)

unfoldable pub get_prefix : ℕ → Sv2ExtranonceManager → Option Bytes
get_prefix channel m = elim (prefix_of channel m.allocated_prefixes) [
  | none ↦ none
  | some p ↦ some (prefix_to_buffer m.prefix_size p)
]

unfoldable pub allocated_count : Sv2ExtranonceManager → ℕ
allocated_count m = length m.allocated_prefixes
