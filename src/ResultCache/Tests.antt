-- ===== src/ResultCache/Tests.antt =====
-- Small runs of the cache of src/utils/inflight-result-cache.ts.
use mathlib.Core.List.{Memᴰ}
use mathlib.Core.List.Memᴰ.{head}
use blitzpool.Prelude.{ℕ, ◌+◌, ◌<◌, ◌≡◌, refl, ==_iff, ◌==◌, arith, [], ◌∷◌}
use blitzpool.ResultCache.{
  MapKey, hit, joined, everything, get_or_compute, store_value, invalidate, key_get,
}
use blitzpool.ResultCache.Builds.{
  System, new_system, asked, built, Reaches, start, stepped, asks, builds,
}
use blitzpool.ResultCache.Single.{single_build, invalidated_build}
use blitzpool.ResultCache.Fresh.{hit_age}

abbrev rewards : MapKey ℕ
rewards = record { same = ◌==◌; same_iff = ==_iff }

abbrev asking : System ℕ ℕ
asking = asked rewards 30 2 7 new_system

asking-run : asking.running ≡ (0, 7) ∷ []
unfolding get_or_compute key_get
asking-run = refl

asking-Reaches : Reaches rewards 30 asking
asking-Reaches = stepped start (asks 2 7)

asking_runs : Memᴰ (0, 7) asking.running
unfolding get_or_compute key_get
asking_runs = head refl

single_build_example : ◌≡◌ {A = ℕ} 0 0
single_build_example = single_build rewards 30 asking 7 0 0 asking-Reaches asking_runs asking_runs

abbrev answered : System ℕ ℕ
answered = built rewards 30 5 7 99 asking

answered-Reaches : Reaches rewards 30 answered
answered-Reaches = stepped asking-Reaches (builds 5 0 7 99 asking_runs)

answered_hit : (get_or_compute rewards 9 7 answered.cache).1 ≡ hit 99
unfolding get_or_compute key_get
answered_hit = refl

hit_age_example : (t : ℕ) × Memᴰ (7, 99, t) answered.log × (9 < t + 30)
hit_age_example = hit_age rewards 30 9 7 answered answered-Reaches answered_hit

invalidated_build_example :
    ((get_or_compute rewards 3 7 (invalidate rewards everything asking.cache)).1 ≡ joined 0)
    × ((get_or_compute rewards 20 7
          (store_value rewards 30 5 7 99 (invalidate rewards everything asking.cache))).1
        ≡ hit 99)
invalidated_build_example =
    invalidated_build rewards 30 asking 7 0 99 3 5 20 asking-Reaches asking_runs (omega arith)
