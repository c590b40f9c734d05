-- ===== src/ResultCache/Single.antt =====
-- The builds that run at one time for src/utils/inflight-result-cache.ts.
use mathlib.Core.List.{Memᴰ}
use mathlib.Core.List.Memᴰ.{head, tail}
use blitzpool.Prelude.{
  ℕ, ◌+◌, ◌<◌, lt→ltb, ◌≡◌, refl, sym, ap, ◌∙◌, ◌==◌, ==_iff, true, false, List, [], ◌∷◌, Option,
  none, some, All, Bool-cases, Option-cases, inl, inr, arith, some_eq, none-some, true-false,
  if◌then◌else◌,
}
use blitzpool.ResultCache.{
  MapKey, InflightResultCache, hit, joined, store_value, fresh, is_promise, key_get, key_delete,
  get_or_compute, peek, invalidate, Target, everything, one, matching,
}
use blitzpool.ResultCache.Builds.{
  System, without, CacheStep, asks, builds, settles, peeks, invalidates, Reaches, Reaches-keep,
  asked, settled,
}

All-Mem {ℓ κ} : {A : Type ℓ} (P : A → Type κ) {a : A} {xs : List A} → All P xs → Memᴰ a xs → P a
All-Mem P h (head e) = rw e h.0
All-Mem P h (tail m) = All-Mem P h.1 m

module _ {ℓ} {K : Type ℓ} (keys : MapKey K) where
  same_self : (k : K) → keys.same k k ≡ true
  same_self k = (keys.same_iff k k).1 refl

  -- Another key is still found after one is deleted.
  key_get-delete {κ} :
      {V : Type κ} (j k : K) (m : List (K × V))
      → keys.same k j ≡ false
      → key_get keys j (key_delete keys (λ i. keys.same i k) m) ≡ key_get keys j m
  unfolding key_get key_delete
  key_get-delete j k [] other = refl
  key_get-delete j k ((i, v) ∷ m) other = elim (Bool-cases (keys.same i k)) [
    | inr e ↦ simp e (ap (λ o. if keys.same i j then some v else o) (key_get-delete j k m other))
    | inl e ↦
        let apart : keys.same i j ≡ false =
          ap (λ x. keys.same x j) ((keys.same_iff i k).0 e) ∙ other in
        simp (e, apart) (key_get-delete j k m other)
  ]

  -- Every running build is the one that its key has in the map.
  abbrev IsHeld : List (K × ℕ) → ℕ × K → Type 0
  IsHeld m b = key_get keys b.1 m ≡ some b.0

  started-held :
      (key j : K) (p q : ℕ) (m : List (K × ℕ))
      → key_get keys key m ≡ none
      → key_get keys j m ≡ some q
      → key_get keys j ((key, p) ∷ m) ≡ some q
  unfolding key_get
  started-held key j p q m none_yet h = elim (Bool-cases (keys.same key j)) [
    | inr e ↦ simp e h
    | inl e ↦
        absurd
          (none-some (sym none_yet ∙ ap (λ k. key_get keys k m) ((keys.same_iff key j).0 e) ∙ h))
  ]

  started-IsHeld :
      (key : K) (p : ℕ) (m : List (K × ℕ)) (bs : List (ℕ × K))
      → key_get keys key m ≡ none
      → All (IsHeld m) bs
      → All (IsHeld ((key, p) ∷ m)) bs
  started-IsHeld key p m [] none_yet h = tt
  started-IsHeld key p m ((q, j) ∷ bs) none_yet h =
      (started-held key j p q m none_yet h.0, started-IsHeld key p m bs none_yet h.1)

  started-first : (key : K) (p : ℕ) (m : List (K × ℕ)) → key_get keys key ((key, p) ∷ m) ≡ some p
  unfolding key_get
  started-first key p m = simp (same_self key) refl

  settled-held :
      (p q : ℕ) (key j : K) (m : List (K × ℕ))
      → (p == q) ≡ false
      → is_promise p (key_get keys key m) ≡ true
      → key_get keys j m ≡ some q
      → key_get keys j (key_delete keys (λ i. keys.same i key) m) ≡ some q
  settled-held p q key j m other own h = elim (Bool-cases (keys.same key j)) [
    | inr e ↦ key_get-delete j key m e ∙ h
    | inl e ↦ absurd (
        true-false (
          sym own
          ∙ ap (λ o. is_promise p o) (ap (λ k. key_get keys k m) ((keys.same_iff key j).0 e) ∙ h)
          ∙ other))
  ]

  without-IsHeld :
      (p : ℕ) (key : K) (m : List (K × ℕ)) (bs : List (ℕ × K))
      → is_promise p (key_get keys key m) ≡ true
      → All (IsHeld m) bs
      → All (IsHeld (key_delete keys (λ i. keys.same i key) m)) (without p bs)
  without-IsHeld p key m [] own h = tt
  without-IsHeld p key m ((q, j) ∷ bs) own h = elim (Bool-cases (p == q)) [
    | inl e ↦ rw e (without-IsHeld p key m bs own h.1)
    | inr e ↦ rw e (settled-held p q key j m e own h.0, without-IsHeld p key m bs own h.1)
  ]

  held_promise : (p : ℕ) (o : Option ℕ) → o ≡ some p → is_promise p o ≡ true
  held_promise p o e = rw e ((==_iff p p).1 refl)

  module _ {κ} {V : Type κ} (ttl_ms : ℕ) where
    abbrev IsSingle : System K V → Type 0
    IsSingle s = All (IsHeld s.cache.inflight) s.running

    asked-IsSingle :
        (now : ℕ) (key : K) (s : System K V) → IsSingle s → IsSingle (asked keys ttl_ms now key s)
    unfolding get_or_compute
    asked-IsSingle now key s h = elim (Option-cases (fresh now (key_get keys key s.cache.cached))) [
      | inr (v, e) ↦ simp e h
      | inl e ↦ elim (Option-cases (key_get keys key s.cache.inflight)) [
        | inr (p, k) ↦ simp (e, k) h
        | inl k ↦
            simp (e, k)
              (
                started-first key s.cache.builds s.cache.inflight,
                started-IsHeld key s.cache.builds s.cache.inflight s.running k h,
              )
      ]
    ]

    settled-IsSingle :
        (p : ℕ) (key : K) (s : System K V)
        → Memᴰ (p, key) s.running
        → IsSingle s
        → IsSingle (settled keys ttl_ms p key s)
    settled-IsSingle p key s at h =
        let own =
          held_promise p (key_get keys key s.cache.inflight)
            (All-Mem (IsHeld s.cache.inflight) h at) in
        simp own (without-IsHeld p key s.cache.inflight s.running own h)

    peeked :
        (now : ℕ) (key : K) (s : System K V)
        → (peek keys now key s.cache).0.inflight ≡ s.cache.inflight
    unfolding peek
    peeked now key s = ground arith

    invalidated :
        (target : Target K) (s : System K V)
        → (invalidate keys target s.cache).inflight ≡ s.cache.inflight
    unfolding invalidate
    invalidated everything s = refl
    invalidated (one key) s = refl
    invalidated (matching pred) s = refl

    CacheStep-IsSingle : (s t : System K V) → CacheStep keys ttl_ms s t → IsSingle s → IsSingle t
    CacheStep-IsSingle s _ (asks now key) h = asked-IsSingle now key s h
    CacheStep-IsSingle s _ (builds now p key v at) h = h
    CacheStep-IsSingle s _ (settles p key at) h = settled-IsSingle p key s at h
    CacheStep-IsSingle s _ (peeks now key) h = rw (peeked now key s) h
    CacheStep-IsSingle s _ (invalidates target) h = rw (invalidated target s) h

    -- Whatever calls and callbacks come in whatever order, at most one build runs for a key.
    pub single_build :
        (s : System K V) (key : K) (p q : ℕ)
        → Reaches keys ttl_ms s
        → Memᴰ (p, key) s.running
        → Memᴰ (q, key) s.running
        → p ≡ q
    single_build s key p q r at_p at_q =
        let h = Reaches-keep keys ttl_ms IsSingle tt CacheStep-IsSingle r in
        some_eq (
          sym (All-Mem (IsHeld s.cache.inflight) h at_p) ∙ All-Mem (IsHeld s.cache.inflight) h at_q)

    joined-promise :
        (now : ℕ) (key : K) (c : InflightResultCache K V) {p : ℕ}
        → key_get keys key c.inflight ≡ some p
        → (get_or_compute keys now key (invalidate keys everything c)).1 ≡ joined p
    unfolding get_or_compute invalidate key_get
    joined-promise now key c at = rw at refl

    hit-stored :
        (now later : ℕ) (key : K) (v : V) (c : InflightResultCache K V)
        → now < later + ttl_ms
        → (get_or_compute keys now key (store_value keys ttl_ms later key v c)).1 ≡ hit v
    unfolding get_or_compute key_get
    hit-stored now later key v c young =
        simp (same_self key, lt→ltb now (later + ttl_ms) young) refl

    -- After any calls and callbacks, a build that runs while the whole cache is invalidated outlives
    -- that: the next call joins it, and once it has given a value, the calls get this value from the
    -- cache until its time is over.
    pub invalidated_build :
        (s : System K V) (key : K) (p : ℕ) (v : V) (now later asked_at : ℕ)
        → Reaches keys ttl_ms s
        → Memᴰ (p, key) s.running
        → asked_at < later + ttl_ms
        → let c = invalidate keys everything s.cache in
          ((get_or_compute keys now key c).1 ≡ joined p)
          × ((get_or_compute keys asked_at key (store_value keys ttl_ms later key v c)).1 ≡ hit v)
    invalidated_build s key p v now later asked_at r at young =
        let h = Reaches-keep keys ttl_ms IsSingle tt CacheStep-IsSingle r in
        (
          joined-promise now key s.cache (All-Mem (IsHeld s.cache.inflight) h at),
          hit-stored asked_at later key v (invalidate keys everything s.cache) young,
        )
