-- ===== src/ResultCache/Fresh.antt =====
-- How old a value from the cache of src/utils/inflight-result-cache.ts can be.
use mathlib.Core.List.{Memᴰ}
use mathlib.Core.List.Memᴰ.{head, tail}
use blitzpool.Prelude.{
  ℕ, ◌+◌, ◌<◌, ◌≡◌, refl, sym, Bool, List, [], ◌∷◌, Option, none, some, All, Bool-cases,
  Option-cases, inl, inr, arith, some_eq, none-some, ltb, ltb→lt,
}
use blitzpool.ResultCache.{
  MapKey, CachedValue, InflightResultCache, hit, fresh, key_get, key_delete, get_or_compute,
  look_up, settle_promise, peek, invalidate, Target, everything, one, matching,
}
use blitzpool.ResultCache.Builds.{
  System, CacheStep, asks, builds, settles, peeks, invalidates, Reaches, Reaches-keep, asked,
}

module _ {ℓ κ} {K : Type ℓ} {V : Type κ} (keys : MapKey K) (ttl_ms : ℕ) where
  -- A build for the key gave the value, and its time began then.
  abbrev pub IsLogged : List (K × V × ℕ) → K × CachedValue V → Type (ℓ ⊔ κ)
  IsLogged log e = (t : ℕ) × Memᴰ (e.0, e.1.value, t) log × (e.1.expires_at ≡ t + ttl_ms)

  abbrev AllLogged : System K V → Type (ℓ ⊔ κ)
  AllLogged s = All (IsLogged s.log) s.cache.cached

  delete-AllLogged :
      (drops : K → Bool) (log : List (K × V × ℕ)) (m : List (K × CachedValue V))
      → All (IsLogged log) m
      → All (IsLogged log) (key_delete keys drops m)
  unfolding key_delete
  delete-AllLogged drops log [] h = tt
  delete-AllLogged drops log ((j, c) ∷ m) h = elim (Bool-cases (drops j)) [
    | inl e ↦ simp e (delete-AllLogged drops log m h.1)
    | inr e ↦ simp e (h.0, delete-AllLogged drops log m h.1)
  ]

  longer-AllLogged :
      (x : K × V × ℕ) (log : List (K × V × ℕ)) (m : List (K × CachedValue V))
      → All (IsLogged log) m
      → All (IsLogged (x ∷ log)) m
  longer-AllLogged x log [] h = tt
  longer-AllLogged x log (e ∷ m) h = ((h.0.0, tail h.0.1, h.0.2), longer-AllLogged x log m h.1)

  found-IsLogged :
      (k : K) (log : List (K × V × ℕ)) (m : List (K × CachedValue V)) {c : CachedValue V}
      → All (IsLogged log) m
      → key_get keys k m ≡ some c
      → IsLogged log (k, c)
  unfolding key_get
  found-IsLogged k log [] h found = absurd (none-some found)
  found-IsLogged k log ((j, d) ∷ m) h found = elim (Bool-cases (keys.same j k)) [
    | inl e ↦
        let same : d ≡ _ = some_eq (rw e at found) in
        rw (sym ((keys.same_iff j k).0 e), sym same) h.0
    | inr e ↦ found-IsLogged k log m h.1 (rw e at found)
  ]

  cached-kept :
      (now : ℕ) (key : K) (s : System K V) → AllLogged s → AllLogged (asked keys ttl_ms now key s)
  unfolding get_or_compute
  cached-kept now key s h = elim (Option-cases (fresh now (key_get keys key s.cache.cached))) [
    | inr (v, e) ↦ simp e h
    | inl e ↦ elim (Option-cases (key_get keys key s.cache.inflight)) [
      | inr (p, k) ↦ simp (e, k) h
      | inl k ↦ simp (e, k) h
    ]
  ]

  peeked-AllLogged :
      (now : ℕ) (key : K) (s : System K V)
      → AllLogged s
      → All (IsLogged s.log) (peek keys now key s.cache).0.cached
  unfolding peek
  peeked-AllLogged now key s h = elim (Option-cases (key_get keys key s.cache.cached)) [
    | inl e ↦ simp e h
    | inr (c, e) ↦ elim (Bool-cases (ltb now c.expires_at)) [
      | inl k ↦ simp (e, k) h
      | inr k ↦ simp (e, k) (delete-AllLogged (λ j. keys.same j key) s.log s.cache.cached h)
    ]
  ]

  invalidated-AllLogged :
      (target : Target K) (s : System K V)
      → AllLogged s
      → All (IsLogged s.log) (invalidate keys target s.cache).cached
  unfolding invalidate
  invalidated-AllLogged everything s h = tt
  invalidated-AllLogged (one key) s h =
      delete-AllLogged (λ j. keys.same j key) s.log s.cache.cached h
  invalidated-AllLogged (matching pred) s h = delete-AllLogged pred s.log s.cache.cached h

  settled_cached :
      (p : ℕ) (key : K) (s : System K V)
      → (settle_promise keys p key s.cache).cached ≡ s.cache.cached
  settled_cached p key s = ground arith

  CacheStep-AllLogged : (s t : System K V) → CacheStep keys ttl_ms s t → AllLogged s → AllLogged t
  CacheStep-AllLogged s _ (asks now key) h = cached-kept now key s h
  CacheStep-AllLogged s _ (builds now p key v at) h =
      ((now, head refl, refl), longer-AllLogged (key, v, now) s.log s.cache.cached h)
  CacheStep-AllLogged s _ (settles p key at) h = rw (settled_cached p key s) h
  CacheStep-AllLogged s _ (peeks now key) h = peeked-AllLogged now key s h
  CacheStep-AllLogged s _ (invalidates target) h = invalidated-AllLogged target s h

  fresh-some :
      (now : ℕ) (o : Option (CachedValue V)) {v : V}
      → fresh now o ≡ some v
      → (c : CachedValue V) × (o ≡ some c) × (c.value ≡ v) × (now < c.expires_at)
  fresh-some now none h = absurd (none-some h)
  fresh-some now (some c) h = elim (Bool-cases (ltb now c.expires_at)) [
    | inl e ↦ (c, refl, some_eq (rw e at h), ltb→lt now c.expires_at e)
    | inr e ↦ absurd (none-some (rw e at h))
  ]

  look_up-hit :
      (o : Option V) (p : Option ℕ) (key : K) (c : InflightResultCache K V) {v : V}
      → (look_up keys o p key c).1 ≡ hit v
      → o ≡ some v
  look_up-hit (some w) p key c h = cc
  look_up-hit none (some p) key c h = cc
  look_up-hit none none key c h = cc

  hit-fresh :
      (now : ℕ) (key : K) (s : System K V) {v : V}
      → (get_or_compute keys now key s.cache).1 ≡ hit v
      → fresh now (key_get keys key s.cache.cached) ≡ some v
  unfolding get_or_compute
  hit-fresh now key s h =
      look_up-hit (fresh now (key_get keys key s.cache.cached)) (key_get keys key s.cache.inflight)
        key s.cache h

  -- After any calls and callbacks, a value that a call gets from the cache is one that a build gave for
  -- its key, less than the time to live before the call.
  pub hit_age :
      (now : ℕ) (key : K) (s : System K V) {v : V}
      → Reaches keys ttl_ms s
      → (get_or_compute keys now key s.cache).1 ≡ hit v
      → (t : ℕ) × Memᴰ (key, v, t) s.log × (now < t + ttl_ms)
  hit_age now key s {v} r h =
      let (c, at, same, young) =
        fresh-some now (key_get keys key s.cache.cached) (hit-fresh now key s h) in
      let (t, logged, ends) =
        found-IsLogged key s.log s.cache.cached
          (Reaches-keep keys ttl_ms AllLogged tt CacheStep-AllLogged r) at in
      (t, rw (sym same) logged, omega (arith, young, ends))
