-- ===== src/ResultCache.antt =====
-- InflightResultCache of src/utils/inflight-result-cache.ts, which keeps the distributions that
-- Pplns.Block builds. The clock is an argument of a call. A promise is the number of its build; its
-- two callbacks are calls of their own, since other code may run between them.

pub mod Builds
pub mod Single
pub mod Fresh
mod Tests
use blitzpool.Prelude.{
  ℕ, ◌+◌, ◌≡◌, ◌↔◌, Bool, true, false, List, [], ◌∷◌, Option, none, some, ltb, ◌==◌, if◌then◌else◌,
}

-- The keys of a `Map`, which tells them apart.
pub record MapKey {ℓ} (K : Type ℓ) : Type ℓ where
  pub same : K → K → Bool
  pub same_iff : (a b : K) → (same a b ≡ true) ↔ (a ≡ b)

pub record CachedValue {ℓ} (V : Type ℓ) : Type ℓ where
  pub value : V
  pub expires_at : ℕ

pub record InflightResultCache {ℓ κ} (K : Type ℓ) (V : Type κ) : Type (ℓ ⊔ κ) where
  pub cached : List (K × CachedValue V)
  pub inflight : List (K × ℕ)
  pub builds : ℕ

-- What a caller gets: a value from the cache, the promise of a running build, or that of a new one.
pub data Outcome {κ} (V : Type κ) : Type κ where
  hit : V → Outcome V
  joined started : ℕ → Outcome V

-- What invalidate is given.
pub data Target {ℓ} (K : Type ℓ) : Type ℓ where
  everything : Target K
  one : K → Target K
  matching : (K → Bool) → Target K

-- A value whose time is not over.
abbrev pub fresh {κ} : {V : Type κ} → ℕ → Option (CachedValue V) → Option V
fresh now none = none
fresh now (some c) = if ltb now c.expires_at then some c.value else none

abbrev pub is_promise : ℕ → Option ℕ → Bool
is_promise p none = false
is_promise p (some q) = p == q

module _ {ℓ} {K : Type ℓ} (keys : MapKey K) where
  unfoldable pub key_get {κ} : {V : Type κ} → K → List (K × V) → Option V
  key_get k [] = none
  key_get k ((j, v) ∷ m) = let rest = key_get k m in if keys.same j k then some v else rest

  -- The entries whose key matches are dropped.
  unfoldable pub key_delete {κ} : {V : Type κ} → (K → Bool) → List (K × V) → List (K × V)
  key_delete drops [] = []
  key_delete drops ((j, v) ∷ m) =
      let rest = key_delete drops m in if drops j then rest else (j, v) ∷ rest

  module _ {κ} {V : Type κ} where
    abbrev pub look_up :
        Option V → Option ℕ → K → InflightResultCache K V → InflightResultCache K V × Outcome V
    look_up (some v) o key c = (c, hit v)
    look_up none (some p) key c = (c, joined p)
    look_up none none key c = (
      record c { inflight = (key, c.builds) ∷ c.inflight; builds = c.builds + 1 },
      started c.builds,
    )

    unfoldable pub get_or_compute :
        ℕ → K → InflightResultCache K V → InflightResultCache K V × Outcome V
    get_or_compute now key c =
        look_up (fresh now (key_get key c.cached)) (key_get key c.inflight) key c

    -- The `then` of a build.
    abbrev pub store_value : ℕ → ℕ → K → V → InflightResultCache K V → InflightResultCache K V
    store_value ttl_ms now key v c = record c {
      cached = (key, record { value = v; expires_at = now + ttl_ms }) ∷ c.cached;
    }

    -- The `finally` of a build.
    abbrev pub settle_promise : ℕ → K → InflightResultCache K V → InflightResultCache K V
    settle_promise p key c =
        if is_promise p (key_get key c.inflight)
        then record c { inflight = key_delete (λ j. keys.same j key) c.inflight }
        else c

    abbrev pub drop_value : K → InflightResultCache K V → InflightResultCache K V
    drop_value key c = record c { cached = key_delete (λ j. keys.same j key) c.cached }

    abbrev pub peek_at :
        ℕ
        → K
        → Option (CachedValue V)
        → InflightResultCache K V
        → InflightResultCache K V × Option V
    peek_at now key none c = (c, none)
    peek_at now key (some e) c =
        if ltb now e.expires_at then (c, some e.value) else (drop_value key c, none)

    unfoldable pub peek : ℕ → K → InflightResultCache K V → InflightResultCache K V × Option V
    peek now key c = peek_at now key (key_get key c.cached) c

    unfoldable pub invalidate : Target K → InflightResultCache K V → InflightResultCache K V
    invalidate everything c = record c { cached = [] }
    invalidate (one key) c = drop_value key c
    invalidate (matching pred) c = record c { cached = key_delete pred c.cached }
