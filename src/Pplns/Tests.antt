-- ===== src/Pplns/Tests.antt =====
-- The share window on small inputs: two shares to a bucket.
use blitzpool.Prelude.{◌+◌, ◌/◌, ◌≤◌, ◌≡◌, refl, ◌⊎◌, [], ◌∷◌, arith, length}
use blitzpool.Prelude.Int.{◌+ℤ◌, ◌-ℤ◌}
use blitzpool.Pplns.{
  ShareWindow, record_share, add_share, trim_window, trim_loop, remove_bucket, incr, decr,
  put_share, bucket_incr, bucket_diff, empty_window,
}
use blitzpool.Pplns.Sums.{all_diff}
use blitzpool.Pplns.Exact.{WindowIsExact, Keeps}
use blitzpool.Pplns.Shares.{
  empty_window-IsExact, record_share-IsExact, record_share-bound, record_share-Keeps,
}

-- Three shares in a window of 20, of which the first is in the older bucket.
abbrev window : ShareWindow
window = record_share 2 20 "b" 4 (record_share 2 20 "a" 2 (record_share 2 20 "a" 5 empty_window))

window-run : window.buckets ≡ (0, ("a", 5) ∷ []) ∷ (1, ("a", 2) ∷ ("b", 4) ∷ []) ∷ []
unfolding record_share add_share trim_window trim_loop incr put_share bucket_incr bucket_diff ◌+ℤ◌
    ◌-ℤ◌
window-run = refl

-- A share that drops the two older buckets.
trimmed-run : (record_share 2 10 "b" 6 window).buckets ≡ (2, ("b", 6) ∷ []) ∷ []
unfolding record_share add_share trim_window trim_loop incr decr put_share bucket_incr bucket_diff
    remove_bucket ◌+ℤ◌ ◌-ℤ◌
trimmed-run = refl

window-IsExact : WindowIsExact window
window-IsExact =
    record_share-IsExact 2 20 "b" 4 _
      (record_share-IsExact 2 20 "a" 2 _ (record_share-IsExact 2 20 "a" 5 _ empty_window-IsExact))

record_share-IsExact_example : WindowIsExact (record_share 2 10 "b" 6 window)
record_share-IsExact_example = record_share-IsExact 2 10 "b" 6 window window-IsExact

record_share-bound_example :
    (all_diff (record_share 2 10 "b" 6 window).buckets ≤ 10)
    ⊎ (length (record_share 2 10 "b" 6 window).buckets ≤ 1)
record_share-bound_example = record_share-bound 2 10 "b" 6 window window-IsExact refl (omega arith)

record_share-Keeps_example :
    Keeps 10
      (put_share ((window.counter + 1) / 2) "b" 6 window.buckets)
      (record_share 2 10 "b" 6 window).buckets
record_share-Keeps_example = record_share-Keeps 2 10 "b" 6 window window-IsExact refl (omega arith)
