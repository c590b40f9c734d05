-- ===== src/Pplns/Sums.antt =====
-- What the writes to the share window of src/services/pplns.service.ts do to the sums over it.
use text.Mathlib.TextEquality.{eq_iff}
use blitzpool.Prelude.{
  ℕ, ◌+◌, ◌≡◌, refl, ap, inl, inr, true, ◌&&◌, List, [], ◌∷◌, String, str_eq, ltb, ◌==◌,
  if◌then◌else◌, arith, Bool-cases, ltb→ge, ==_iff,
}
use blitzpool.Prelude.Int.{ℤ, pos, pos_part, neg_part, ◌+ℤ◌, ◌-ℤ◌, Agree, int_laws}
use blitzpool.Pplns.{
  Bucket, Aggregate, bucket_incr, incr, decr, put_share, bucket_diff, remove_bucket, add_bucket,
  sum_buckets, aggregate_diff,
}

abbrev pub if_key : String → String → ℕ → ℕ
if_key b a d = if str_eq b a then d else 0

-- What an address has in a bucket, in all buckets, in the aggregate.
unfoldable pub diff_of : String → Bucket → ℕ
diff_of a [] = 0
diff_of a ((b, d) ∷ m) = if_key b a d + diff_of a m

unfoldable pub diff_of_all : String → List (ℕ × Bucket) → ℕ
diff_of_all a [] = 0
diff_of_all a (b ∷ bs) = diff_of a b.1 + diff_of_all a bs

unfoldable pub all_diff : List (ℕ × Bucket) → ℕ
all_diff [] = 0
all_diff (b ∷ bs) = bucket_diff b.1 + all_diff bs

abbrev pub if_key_ℤ : String → String → ℤ → ℤ
if_key_ℤ b a d = if str_eq b a then d else pos 0

unfoldable pub aggregate_of : String → Aggregate → ℤ
aggregate_of a [] = pos 0
aggregate_of a ((b, d) ∷ m) = if_key_ℤ b a d +ℤ aggregate_of a m

same_key : (b c a : String) → str_eq b c ≡ true → str_eq b a ≡ str_eq c a
same_key b c a e = ap (λ k. str_eq k a) ((eq_iff b c).0 e)

pub diff_of-bucket_incr :
    (a c : String) (d : ℕ) (m : Bucket) → diff_of a (bucket_incr c d m) ≡ if_key c a d + diff_of a m
unfolding diff_of bucket_incr
diff_of-bucket_incr a c d [] = refl
diff_of-bucket_incr a c d ((b, e) ∷ m) = elim (Bool-cases (str_eq b c)) [
  | inl k ↦ rw (k, same_key b c a k) (ground arith)
  | inr k ↦ rw k (omega (arith, diff_of-bucket_incr a c d m))
]

pub bucket_diff-bucket_incr :
    (c : String) (d : ℕ) (m : Bucket) → bucket_diff (bucket_incr c d m) ≡ d + bucket_diff m
unfolding bucket_diff bucket_incr
bucket_diff-bucket_incr c d [] = refl
bucket_diff-bucket_incr c d ((b, e) ∷ m) = ground (arith, bucket_diff-bucket_incr c d m)

pub diff_of_all-put_share :
    (a : String) (i : ℕ) (c : String) (d : ℕ) (bs : List (ℕ × Bucket))
    → diff_of_all a (put_share i c d bs) ≡ if_key c a d + diff_of_all a bs
unfolding diff_of_all put_share diff_of
diff_of_all-put_share a i c d [] = omega arith
diff_of_all-put_share a i c d ((j, b) ∷ bs) = elim (Bool-cases (j == i)) [
  | inl k ↦ rw k (omega (arith, diff_of-bucket_incr a c d b))
  | inr k ↦ elim (Bool-cases (ltb i j)) [
    | inl l ↦ rw (k, l) (omega arith)
    | inr l ↦ rw (k, l) (omega (arith, diff_of_all-put_share a i c d bs))
  ]
]

pub all_diff-put_share :
    (i : ℕ) (c : String) (d : ℕ) (bs : List (ℕ × Bucket))
    → all_diff (put_share i c d bs) ≡ d + all_diff bs
unfolding all_diff put_share bucket_diff
all_diff-put_share i c d [] = omega arith
all_diff-put_share i c d ((j, b) ∷ bs) = elim (Bool-cases (j == i)) [
  | inl k ↦ rw k (omega (arith, bucket_diff-bucket_incr c d b))
  | inr k ↦ elim (Bool-cases (ltb i j)) [
    | inl l ↦ rw (k, l) (omega arith)
    | inr l ↦ rw (k, l) (omega (arith, all_diff-put_share i c d bs))
  ]
]

pub aggregate_of-incr :
    (a c : String) (d : ℤ) (m : Aggregate)
    → Agree (aggregate_of a (incr c d m)) (if_key_ℤ c a d +ℤ aggregate_of a m)
unfolding aggregate_of incr
aggregate_of-incr a c d [] = refl
aggregate_of-incr a c d ((b, e) ∷ m) = elim (Bool-cases (str_eq b c)) [
  | inl k ↦
      rw (k, same_key b c a k)
        (elim (Bool-cases (str_eq c a)) [
          | inl l ↦ rw l (omega int_laws)
          | inr l ↦ rw l (omega int_laws)
        ])
  | inr k ↦ rw k (omega (int_laws, aggregate_of-incr a c d m))
]

zero_of : (b : ℤ) → (pos_part b == 0 && neg_part b == 0) ≡ true → Agree b (pos 0)
zero_of b h = ground arith

pub aggregate_of-decr :
    (a c : String) (d : ℕ) (m : Aggregate)
    → Agree (aggregate_of a (decr c d m) +ℤ if_key_ℤ c a (pos d)) (aggregate_of a m)
unfolding aggregate_of decr
aggregate_of-decr a c d [] = elim (Bool-cases (d == 0)) [
  | inl z ↦ elim (Bool-cases (str_eq c a)) [
    | inl l ↦ rw (z, l) (omega (int_laws, (==_iff d 0).0 z))
    | inr l ↦ rw (z, l) (omega int_laws)
  ]
  | inr z ↦ elim (Bool-cases (str_eq c a)) [
    | inl l ↦ rw (z, l) (omega int_laws)
    | inr l ↦ rw (z, l) (omega int_laws)
  ]
]
aggregate_of-decr a c d ((b, e) ∷ m) = elim (Bool-cases (str_eq b c)) [
  | inl k ↦ elim (Bool-cases (pos_part (e -ℤ pos d) == 0 && neg_part (e -ℤ pos d) == 0)) [
    | inl z ↦
        rw (k, z, same_key b c a k)
          (elim (Bool-cases (str_eq c a)) [
            | inl l ↦ rw l (omega (int_laws, zero_of (e -ℤ pos d) z))
            | inr l ↦ rw l (omega int_laws)
          ])
    | inr z ↦
        rw (k, z, same_key b c a k)
          (elim (Bool-cases (str_eq c a)) [
            | inl l ↦ rw l (omega int_laws)
            | inr l ↦ rw l (omega int_laws)
          ])
  ]
  | inr k ↦ rw k (omega (int_laws, aggregate_of-decr a c d m))
]

pub key_pos : (c a : String) (d : ℕ) → Agree (if_key_ℤ c a (pos d)) (pos (if_key c a d))
key_pos c a d = elim (Bool-cases (str_eq c a)) [ inl l ↦ rw l refl | inr l ↦ rw l refl ]

key_zero : (c a : String) (d : ℕ) → d ≡ 0 → if_key c a d ≡ 0
key_zero c a d h = ground (arith, h)

pub aggregate_of-remove_bucket :
    (a : String) (m : Bucket) (agg : Aggregate)
    → Agree (aggregate_of a (remove_bucket m agg) +ℤ pos (diff_of a m)) (aggregate_of a agg)
unfolding remove_bucket diff_of
aggregate_of-remove_bucket a [] agg = omega int_laws
aggregate_of-remove_bucket a ((c, d) ∷ m) agg = elim (Bool-cases (d == 0)) [
  | inl z ↦
      rw z (omega (int_laws, aggregate_of-remove_bucket a m agg, key_zero c a d ((==_iff d 0).0 z)))
  | inr z ↦ rw z (
      omega (
        int_laws,
        aggregate_of-remove_bucket a m (decr c d agg),
        aggregate_of-decr a c d agg,
        key_pos c a d,
      ))
]

pub aggregate_of-add_bucket :
    (a : String) (m : Bucket) (agg : Aggregate)
    → Agree (aggregate_of a (add_bucket m agg)) (pos (diff_of a m) +ℤ aggregate_of a agg)
unfolding add_bucket diff_of
aggregate_of-add_bucket a [] agg = omega int_laws
aggregate_of-add_bucket a ((c, d) ∷ m) agg = elim (Bool-cases (ltb 0 d)) [
  | inl z ↦ rw z (
      omega (
        int_laws,
        aggregate_of-add_bucket a m (incr c (pos d) agg),
        aggregate_of-incr a c (pos d) agg,
        key_pos c a d,
      ))
  | inr z ↦ rw z (
      omega
        (int_laws, aggregate_of-add_bucket a m agg, key_zero c a d (omega (arith, ltb→ge _ _ z))))
]

pub aggregate_of-sum_buckets :
    (a : String) (bs : List (ℕ × Bucket)) (agg : Aggregate)
    → Agree (aggregate_of a (sum_buckets bs agg)) (pos (diff_of_all a bs) +ℤ aggregate_of a agg)
unfolding sum_buckets diff_of_all
aggregate_of-sum_buckets a [] agg = omega int_laws
aggregate_of-sum_buckets a (b ∷ bs) agg = omega (
  int_laws,
  aggregate_of-sum_buckets a bs (add_bucket b.1 agg),
  aggregate_of-add_bucket a b.1 agg,
)

aggregate_diff-incr :
    (c : String) (d : ℤ) (m : Aggregate)
    → Agree (aggregate_diff (incr c d m)) (d +ℤ aggregate_diff m)
unfolding aggregate_diff incr
aggregate_diff-incr c d [] = omega int_laws
aggregate_diff-incr c d ((b, e) ∷ m) = elim (Bool-cases (str_eq b c)) [
  | inl k ↦ rw k (omega int_laws)
  | inr k ↦ rw k (omega (int_laws, aggregate_diff-incr c d m))
]

aggregate_diff-add_bucket :
    (m : Bucket) (agg : Aggregate)
    → Agree (aggregate_diff (add_bucket m agg)) (pos (bucket_diff m) +ℤ aggregate_diff agg)
unfolding add_bucket bucket_diff
aggregate_diff-add_bucket [] agg = omega int_laws
aggregate_diff-add_bucket ((c, d) ∷ m) agg = elim (Bool-cases (ltb 0 d)) [
  | inl z ↦ rw z (
      omega (
        int_laws,
        aggregate_diff-add_bucket m (incr c (pos d) agg),
        aggregate_diff-incr c (pos d) agg,
      ))
  | inr z ↦ rw z (omega (int_laws, aggregate_diff-add_bucket m agg, ltb→ge _ _ z))
]

pub aggregate_diff-sum_buckets :
    (bs : List (ℕ × Bucket)) (agg : Aggregate)
    → Agree (aggregate_diff (sum_buckets bs agg)) (pos (all_diff bs) +ℤ aggregate_diff agg)
unfolding sum_buckets all_diff
aggregate_diff-sum_buckets [] agg = omega int_laws
aggregate_diff-sum_buckets (b ∷ bs) agg = omega (
  int_laws,
  aggregate_diff-sum_buckets bs (add_bucket b.1 agg),
  aggregate_diff-add_bucket b.1 agg,
)
