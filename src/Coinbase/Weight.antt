-- ===== src/Coinbase/Weight.antt =====
-- The constants of src/services/coinbase-distribution.ts, its weight of an output, and the cache
-- in front of it. Addresses are texts. What the package bitcoin-address-validation says of an
-- address is a parameter: `none` where `getAddressInfo` throws.
pub mod Cached
use blitzpool.Prelude.{ℕ, List, [], ◌∷◌, Option, none, some, String, str_eq, if◌then◌else◌}

abbrev pub Address : Type 0
Address = String

-- The script types of the package; `other` is one that the table of weights lacks.
pub data AddressType : Type 0 where
  p2pkh p2sh p2wpkh p2wsh p2tr other : AddressType

abbrev pub AddressInfo : Type 0
AddressInfo = Address → Option AddressType

abbrev pub dust_limit_sats : ℕ
dust_limit_sats = 546

abbrev pub default_min_payout_sats : ℕ
default_min_payout_sats = 5000

abbrev pub default_coinbase_weight_budget : ℕ
default_coinbase_weight_budget = 50000

abbrev pub coinbase_base_weight : ℕ
coinbase_base_weight = 328

abbrev pub coinbase_output_weight : ℕ
coinbase_output_weight = 172

abbrev pub coinbase_witness_commitment_weight : ℕ
coinbase_witness_commitment_weight = 188

abbrev pub budget_safety_margin_wu : ℕ
budget_safety_margin_wu = 200

unfoldable pub output_weight_by_type : AddressType → Option ℕ
output_weight_by_type p2wpkh = some 124
output_weight_by_type p2sh = some 128
output_weight_by_type p2pkh = some 136
output_weight_by_type p2wsh = some 172
output_weight_by_type p2tr = some 172
output_weight_by_type other = none

-- `x ?? d`.
abbrev pub or_default {ℓ} : {A : Type ℓ} → Option A → A → A
or_default none d = d
or_default (some a) d = a

-- The weight that a cache miss computes.
unfoldable pub computed_weight : AddressInfo → Address → ℕ
unfolding output_weight_by_type
computed_weight info a = elim (info a) [
  | none ↦ coinbase_output_weight
  | some t ↦ or_default (output_weight_by_type t) coinbase_output_weight
]

abbrev pub Cache : Type 0
Cache = List (Address × ℕ)

unfoldable pub cached : Cache → Address → Option ℕ
cached [] a = none
cached ((b, w) ∷ c) a = if str_eq b a then some w else cached c a

-- The function as it stands, with the cache passed on.
unfoldable pub output_weight_for_address : AddressInfo → Cache → Address → ℕ × Cache
output_weight_for_address info cache a = if str_eq a "" then (0, cache) else elim (cached cache a) [
  | some w ↦ (w, cache)
  | none ↦ let w = computed_weight info a in (w, (a, w) ∷ cache)
]

unfoldable pub clear_address_output_weight_cache_for_tests : Cache → Cache
clear_address_output_weight_cache_for_tests cache = []

-- The same with no cache.
unfoldable pub output_weight : AddressInfo → Address → ℕ
output_weight info a = if str_eq a "" then 0 else computed_weight info a
