-- ===== src/Coinbase/Weight/Cached.antt =====
-- The cache of output weights in src/services/coinbase-distribution.ts.
use text.Mathlib.TextEquality.{eq_iff}
use blitzpool.Prelude.{
  ℕ, ◌≡◌, refl, ◌∙◌, [], ◌∷◌, Option, none, some, str_eq, All, Bool-cases, inl, inr, ap,
}
use blitzpool.Coinbase.Weight.{
  Address, AddressInfo, Cache, cached, computed_weight, output_weight_for_address, output_weight,
}

-- Every entry is what a miss would compute.
abbrev pub IsFaithful : AddressInfo → Cache → Type 0
IsFaithful info = All (λ e. e.1 ≡ computed_weight info e.0)

abbrev Answers : AddressInfo → Address → Option ℕ → Type 0
Answers info a none = Unit {0}
Answers info a (some w) = w ≡ computed_weight info a

cached-Answers :
    (info : AddressInfo) (c : Cache) (a : Address) → IsFaithful info c → Answers info a (cached c a)
unfolding cached
cached-Answers info [] a h = tt
cached-Answers info ((b, w) ∷ c) a h = elim (Bool-cases (str_eq b a)) [
  | inl e ↦ rw e (h.0 ∙ ap (computed_weight info) ((eq_iff b a).0 e))
  | inr e ↦ rw e (cached-Answers info c a h.1)
]

hit_or_miss :
    (info : AddressInfo) (c : Cache) (a : Address) (o : Option ℕ)
    → IsFaithful info c
    → Answers info a o
    → let r : ℕ × Cache = elim o [
      | some w ↦ (w, c)
      | none ↦ (computed_weight info a, (a, computed_weight info a) ∷ c)
    ] in
      (r.0 ≡ computed_weight info a) × IsFaithful info r.1
hit_or_miss info c a none h k = (refl, (refl, h))
hit_or_miss info c a (some w) h k = (k, h)

-- With a cache whose entries are right the function returns what it would return with none, and
-- leaves such a cache.
pub output_weight_for_address-eq-output_weight :
    (info : AddressInfo) (cache : Cache) (a : Address)
    → IsFaithful info cache
    → ((output_weight_for_address info cache a).0 ≡ output_weight info a)
      × IsFaithful info (output_weight_for_address info cache a).1
unfolding output_weight_for_address output_weight
output_weight_for_address-eq-output_weight info cache a h = elim (Bool-cases (str_eq a "")) [
  | inl e ↦ rw e (refl, h)
  | inr e ↦ rw e (hit_or_miss info cache a (cached cache a) h (cached-Answers info cache a h))
]
