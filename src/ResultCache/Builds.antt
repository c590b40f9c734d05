-- ===== src/ResultCache/Builds.antt =====
-- The cache of src/utils/inflight-result-cache.ts with the builds that run for it and a log of the
-- values that they gave, under any order of calls and callbacks.
use mathlib.Core.List.{Memᴰ}
use blitzpool.Prelude.{ℕ, ◌==◌, List, [], ◌∷◌, if◌then◌else◌}
use blitzpool.ResultCache.{
  MapKey, InflightResultCache, Outcome, hit, joined, started, Target, get_or_compute, store_value,
  settle_promise, peek, invalidate,
}

pub record System {ℓ κ} (K : Type ℓ) (V : Type κ) : Type (ℓ ⊔ κ) where
  pub cache : InflightResultCache K V
  pub running : List (ℕ × K)
  pub log : List (K × V × ℕ)

-- A build that is settled runs no more.
abbrev pub without {ℓ} : {K : Type ℓ} → ℕ → List (ℕ × K) → List (ℕ × K)
without p [] = []
without p (b ∷ bs) = let rest = without p bs in if p == b.0 then rest else b ∷ rest

abbrev pub new_system {ℓ κ} : {K : Type ℓ} {V : Type κ} → System K V
new_system = record {
  cache = record { cached = []; inflight = []; builds = 0 };
  running = [];
  log = [];
}

module _ {ℓ κ} {K : Type ℓ} {V : Type κ} (keys : MapKey K) (ttl_ms : ℕ) where
  abbrev pub noted : K → Outcome V → System K V → System K V
  noted key (hit v) s = s
  noted key (joined p) s = s
  noted key (started p) s = record s { running = (p, key) ∷ s.running }

  abbrev pub asked : ℕ → K → System K V → System K V
  asked now key s =
      let (c, outcome) = get_or_compute keys now key s.cache in
      noted key outcome (record s { cache = c })

  abbrev pub built : ℕ → K → V → System K V → System K V
  built now key v s = record s {
    cache = store_value keys ttl_ms now key v s.cache;
    log = (key, v, now) ∷ s.log;
  }

  abbrev pub settled : ℕ → K → System K V → System K V
  settled p key s = record s {
    cache = settle_promise keys p key s.cache;
    running = without p s.running;
  }

  pub data CacheStep (s : System K V) : System K V → Type (ℓ ⊔ κ) where
    asks : (now : ℕ) (key : K) → CacheStep s (asked now key s)
    -- A running build gives a value.
    builds :
        (now p : ℕ) (key : K) (v : V) → Memᴰ (p, key) s.running → CacheStep s (built now key v s)
    -- A running build ends, whether it gave a value or failed.
    settles : (p : ℕ) (key : K) → Memᴰ (p, key) s.running → CacheStep s (settled p key s)
    peeks : (now : ℕ) (key : K) → CacheStep s (record s { cache = (peek keys now key s.cache).0 })
    invalidates :
        (target : Target K) → CacheStep s (record s { cache = invalidate keys target s.cache })

  pub data Reaches : System K V → Type (ℓ ⊔ κ) where
    start : Reaches new_system
    stepped : {s t : System K V} → Reaches s → CacheStep s t → Reaches t

  -- What every step keeps holds wherever steps lead.
  pub Reaches-keep {ι} :
      (P : System K V → Type ι)
      → P new_system
      → ((s t : System K V) → CacheStep s t → P s → P t)
      → {s : System K V} → Reaches s
      → P s
  Reaches-keep P first keep start = first
  Reaches-keep P first keep (stepped {s} {t} r d) = keep s t d (Reaches-keep P first keep r)
