-- ===== src/Pplns/Exact.antt =====
-- The sums over the share window of src/services/pplns.service.ts, through the loop of trimWindow.
use blitzpool.Prelude.{
  ℕ, ◌+◌, ◌/◌, ◌++◌, ap, sym, ◌≤◌, ◌<◌, ◌≡◌, refl, ◌⊎◌, inl, inr, false, List, [], ◌∷◌, String,
  ◌==◌, length, arith, Bool-cases, ltb→lt, ltb→ge,
}
use blitzpool.Prelude.Int.{ℤ, pos, ◌-ℤ◌, ltb_ℤ, Agree, int_laws}
use blitzpool.Pplns.{
  Bucket, Aggregate, ShareWindow, bucket_diff, remove_bucket, trim_loop, add_share,
}
use blitzpool.Pplns.Sums.{
  diff_of_all, all_diff, aggregate_of, key_pos, diff_of_all-put_share, all_diff-put_share,
  aggregate_of-incr, aggregate_of-remove_bucket,
}

-- The total and the aggregate are the sums over the buckets.
pub record IsExact (total : ℤ) (agg : Aggregate) (buckets : List (ℕ × Bucket)) : Type 0 where
  pub total_exact : Agree total (pos (all_diff buckets))
  pub aggregate_exact : (a : String) → Agree (aggregate_of a agg) (pos (diff_of_all a buckets))

abbrev pub WindowIsExact : ShareWindow → Type 0
WindowIsExact w = IsExact w.window_total w.by_address w.buckets

pub add_share-IsExact :
    (bucket_shares : ℕ) (a : String) (d : ℕ) (w : ShareWindow)
    → WindowIsExact w
    → WindowIsExact (add_share bucket_shares a d w)
unfolding add_share
add_share-IsExact bucket_shares a d w h = record {
  total_exact =
      omega (
        int_laws,
        h.total_exact,
        all_diff-put_share ((w.counter + 1) / bucket_shares) a d w.buckets,
      );
  aggregate_exact = λ b. omega (
    int_laws,
    h.aggregate_exact b,
    aggregate_of-incr b a (pos d) w.by_address,
    key_pos a b d,
    diff_of_all-put_share b ((w.counter + 1) / bucket_shares) a d w.buckets,
  );
}

-- What the loop of the trim leaves.
abbrev pub LoopIsExact : List (ℕ × Bucket) × ℤ × Aggregate → Type 0
LoopIsExact r = IsExact r.1 r.2 r.0

dropped-IsExact :
    (b : ℕ × Bucket) (bs : List (ℕ × Bucket)) (total : ℤ) (agg : Aggregate)
    → IsExact total agg (b ∷ bs)
    → IsExact (total -ℤ pos (bucket_diff b.1)) (remove_bucket b.1 agg) bs
unfolding all_diff diff_of_all
dropped-IsExact b bs total agg h = record {
  total_exact = omega (int_laws, h.total_exact);
  aggregate_exact =
      λ a. omega (int_laws, h.aggregate_exact a, aggregate_of-remove_bucket a b.1 agg);
}

pub pos_ne_zero : (n : ℕ) → 0 < n → (n == 0) ≡ false
pos_ne_zero n h = ground arith

pub trim_loop-IsExact :
    (size : ℕ) (total : ℤ) (agg : Aggregate) (bs : List (ℕ × Bucket))
    → IsExact total agg bs
    → LoopIsExact (trim_loop size total agg bs)
unfolding trim_loop
trim_loop-IsExact size total agg [] h = h
trim_loop-IsExact size total agg (b ∷ []) h = h
trim_loop-IsExact size total agg (b ∷ c ∷ bs) h = elim (Bool-cases (ltb_ℤ (pos size) total)) [
  | inl e ↦ rw e (
      trim_loop-IsExact size (total -ℤ pos (bucket_diff b.1)) (remove_bucket b.1 agg) (c ∷ bs)
        (dropped-IsExact b (c ∷ bs) total agg h))
  | inr e ↦ rw e h
]

pub trim_loop-bound :
    (size : ℕ) (total : ℤ) (agg : Aggregate) (bs : List (ℕ × Bucket))
    → IsExact total agg bs
    → let r = trim_loop size total agg bs in (all_diff r.0 ≤ size) ⊎ (length r.0 ≤ 1)
unfolding trim_loop
trim_loop-bound size total agg [] h = inr (omega arith)
trim_loop-bound size total agg (b ∷ []) h = inr (omega arith)
trim_loop-bound size total agg (b ∷ c ∷ bs) h = elim (Bool-cases (ltb_ℤ (pos size) total)) [
  | inl e ↦ rw e (
      trim_loop-bound size (total -ℤ pos (bucket_diff b.1)) (remove_bucket b.1 agg) (c ∷ bs)
        (dropped-IsExact b (c ∷ bs) total agg h))
  | inr e ↦ rw e (inl (omega (arith, ltb→ge _ _ e, h.total_exact)))
]

-- The buckets that are kept are the newest, and no bucket is dropped without need: with the last
-- one that was dropped they are above the size.
abbrev pub Keeps : ℕ → List (ℕ × Bucket) → List (ℕ × Bucket) → Type 0
Keeps size bs kept =
    (kept ≡ bs)
    ⊎ ((before : List (ℕ × Bucket)) × (b : ℕ × Bucket) × (bs ≡ before ++ b ∷ kept)
        × (size < bucket_diff b.1 + all_diff kept))

Keeps-behind :
    (size : ℕ) (b : ℕ × Bucket) (bs kept : List (ℕ × Bucket))
    → size < bucket_diff b.1 + all_diff bs
    → Keeps size bs kept
    → Keeps size (b ∷ bs) kept
Keeps-behind size b bs kept h (inl e) = inr ([], b, ap (◌∷◌ b) (sym e), (rw (sym e) at h))
Keeps-behind size b bs kept h (inr (before, d, e, k)) = inr (b ∷ before, d, ap (◌∷◌ b) e, k)

pub trim_loop-Keeps :
    (size : ℕ) (total : ℤ) (agg : Aggregate) (bs : List (ℕ × Bucket))
    → IsExact total agg bs
    → Keeps size bs (trim_loop size total agg bs).0
unfolding trim_loop
trim_loop-Keeps size total agg [] h = inl refl
trim_loop-Keeps size total agg (b ∷ []) h = inl refl
trim_loop-Keeps size total agg (b ∷ c ∷ bs) h = elim (Bool-cases (ltb_ℤ (pos size) total)) [
  | inl e ↦
      let above : size < bucket_diff b.1 + all_diff (c ∷ bs) =
        (unfold all_diff in omega (arith, ltb→lt _ _ e, h.total_exact)) in
      rw e (
        Keeps-behind size b (c ∷ bs) _ above (
          trim_loop-Keeps size (total -ℤ pos (bucket_diff b.1)) (remove_bucket b.1 agg) (c ∷ bs)
            (dropped-IsExact b (c ∷ bs) total agg h)))
  | inr e ↦ rw e (inl refl)
]
