-- ===== src/Pplns/Shares.antt =====
-- recordShare of src/services/pplns.service.ts as a whole.
use blitzpool.Prelude.{
  ℕ, ◌+◌, ◌/◌, ◌%◌, ◌≤◌, ◌<◌, ◌≡◌, refl, ◌⊎◌, inl, inr, false, List, [], ◌∷◌, String, str_eq, ◌==◌,
  length, Bool-cases,
}
use blitzpool.Prelude.Int.{int_laws}
use blitzpool.Pplns.{
  Bucket, ShareWindow, put_share, aggregate_diff, trim_loop, recalculate, trim_window, add_share,
  record_share, empty_window,
}
use blitzpool.Pplns.Sums.{
  diff_of_all, all_diff, aggregate_of, aggregate_of-sum_buckets, aggregate_diff-sum_buckets,
}
use blitzpool.Pplns.Exact.{
  WindowIsExact, Keeps, pos_ne_zero, add_share-IsExact, trim_loop-IsExact, trim_loop-bound,
  trim_loop-Keeps,
}

recalculate-buckets :
    (w : ShareWindow) (bs : List (ℕ × Bucket)) → (recalculate w bs).buckets ≡ w.buckets
recalculate-buckets w [] = refl
recalculate-buckets w (b ∷ bs) = refl

recalculate-IsExact :
    (w : ShareWindow) (bs : List (ℕ × Bucket))
    → w.buckets ≡ bs
    → WindowIsExact w
    → WindowIsExact (recalculate w bs)
recalculate-IsExact w [] e h = h
recalculate-IsExact w (b ∷ bs) e h = record {
  total_exact =
      rw e (unfold aggregate_diff in omega (int_laws, aggregate_diff-sum_buckets (b ∷ bs) []));
  aggregate_exact =
      λ a. rw e (unfold aggregate_of in omega (int_laws, aggregate_of-sum_buckets a (b ∷ bs) []));
}

module _ (size : ℕ) (w : ShareWindow) (h : WindowIsExact w) where
  trim_window-IsExact : WindowIsExact (trim_window size w)
  unfolding trim_window
  trim_window-IsExact =
      let looped = trim_loop-IsExact size w.window_total w.by_address w.buckets h in
      elim (Bool-cases (size == 0)) [
        | inl e ↦ rw e h
        | inr e ↦ elim (Bool-cases ((w.trim_counter + 1) % 100000 == 0)) [
          | inl f ↦ rw (e, f) (recalculate-IsExact _ _ refl looped)
          | inr f ↦ rw (e, f) looped
        ]
      ]

  trim_window-buckets :
      0 < size
      → (trim_window size w).buckets ≡ (trim_loop size w.window_total w.by_address w.buckets).0
  unfolding trim_window
  trim_window-buckets k =
      let set : (size == 0) ≡ false = pos_ne_zero size k in
      elim (Bool-cases ((w.trim_counter + 1) % 100000 == 0)) [
        | inl f ↦ rw (set, f) (recalculate-buckets _ _)
        | inr f ↦ rw (set, f) refl
      ]

pub empty_window-IsExact : WindowIsExact empty_window
unfolding all_diff diff_of_all aggregate_of
empty_window-IsExact = record { total_exact = refl; aggregate_exact = λ a. refl }

-- Recording a share keeps the window's total and its aggregate by address exact: they are the sums
-- over the buckets, through every trim and rebuild.
pub record_share-IsExact :
    (bucket_shares size : ℕ) (a : String) (d : ℕ) (w : ShareWindow)
    → WindowIsExact w
    → WindowIsExact (record_share bucket_shares size a d w)
unfolding record_share
record_share-IsExact bucket_shares size a d w h = elim (Bool-cases (str_eq a "")) [
  | inl e ↦ rw e h
  | inr e ↦ rw e (trim_window-IsExact size _ (add_share-IsExact bucket_shares a d w h))
]

module _ (bucket_shares size : ℕ) (a : String) (d : ℕ) (w : ShareWindow) (h : WindowIsExact w)
    (named : str_eq a "" ≡ false) (opened : 0 < size) where
  recorded : (record_share bucket_shares size a d w).buckets ≡ (
      let v = add_share bucket_shares a d w in
      (trim_loop size v.window_total v.by_address v.buckets).0)
  unfolding record_share
  recorded = rw named (
      trim_window-buckets size (add_share bucket_shares a d w)
        (add_share-IsExact bucket_shares a d w h) opened)

  -- After a share of an address, the buckets hold at most the window's size, or one bucket is left.
  pub record_share-bound :
      (all_diff (record_share bucket_shares size a d w).buckets ≤ size)
      ⊎ (length (record_share bucket_shares size a d w).buckets ≤ 1)
  record_share-bound =
      rw recorded (trim_loop-bound size _ _ _ (add_share-IsExact bucket_shares a d w h))

  -- What a share drops of the window are its oldest buckets, and no more than are needed: with the
  -- last one dropped, what is kept is above the window's size.
  pub record_share-Keeps :
      Keeps size
        (put_share ((w.counter + 1) / bucket_shares) a d w.buckets)
        (record_share bucket_shares size a d w).buckets
  record_share-Keeps =
      rw recorded
        (unfold add_share in trim_loop-Keeps size _ _ _ (add_share-IsExact bucket_shares a d w h))
