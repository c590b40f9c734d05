-- ===== src/Pplns.antt =====
-- The share window of PplnsService in src/services/pplns.service.ts: recordShare, trimWindow and the
-- rebuild of the aggregate. What Redis keeps is a record: the counter, the buckets by rising id with
-- the hash of each, the total and the aggregate by address. Difficulties are exact numbers, and the
-- address is one that is normalized already.
pub mod Sums
pub mod Exact
pub mod Shares
pub mod Books
pub mod Block
pub mod Booked
pub mod Fresh
pub mod Rows
pub mod Repeated
pub mod Replay
pub mod Balances
pub mod Booking
mod BlockTests
pub mod Tests
use blitzpool.Prelude.{
  ℕ, suc, ◌+◌, ◌*◌, ◌/◌, ◌%◌, Bool, true, false, ◌&&◌, List, [], ◌∷◌, String, str_eq, ltb, ◌==◌,
  if◌then◌else◌,
}
use blitzpool.Prelude.Int.{ℤ, pos, pos_part, neg_part, ◌+ℤ◌, ◌-ℤ◌, ltb_ℤ}

abbrev pub Bucket : Type 0
Bucket = List (String × ℕ)

abbrev pub Aggregate : Type 0
Aggregate = List (String × ℤ)

-- `touched` and `is_cached` are what a share tells the balance service and the cached distribution.
pub record ShareWindow : Type 0 where
  pub counter : ℕ
  pub buckets : List (ℕ × Bucket)
  pub window_total : ℤ
  pub by_address : Aggregate
  pub trim_counter : ℕ
  pub touched : List String
  pub is_cached : Bool

-- `hIncrByFloat` on a bucket.
unfoldable pub bucket_incr : String → ℕ → Bucket → Bucket
bucket_incr a d [] = (a, d) ∷ []
bucket_incr a d ((b, e) ∷ m) =
    let rest = bucket_incr a d m in if str_eq b a then (b, e + d) ∷ m else (b, e) ∷ rest

-- `hIncrByFloat` and `hDel` on the aggregate.
unfoldable pub incr : String → ℤ → Aggregate → Aggregate
incr a d [] = (a, d) ∷ []
incr a d ((b, e) ∷ m) =
    let rest = incr a d m in if str_eq b a then (b, e +ℤ d) ∷ m else (b, e) ∷ rest

-- Decrements a field, and deletes it if nothing remains.
unfoldable pub decr : String → ℕ → Aggregate → Aggregate
decr a d [] = if d == 0 then [] else (a, pos 0 -ℤ pos d) ∷ []
decr a d ((b, e) ∷ m) =
    let rest = decr a d m in
    let remaining = e -ℤ pos d in
    if str_eq b a
    then if pos_part remaining == 0 && neg_part remaining == 0 then m else (b, remaining) ∷ m
    else (b, e) ∷ rest

-- `hIncrByFloat` on the bucket of an id and `zAdd` of the id.
unfoldable pub put_share : ℕ → String → ℕ → List (ℕ × Bucket) → List (ℕ × Bucket)
unfolding bucket_incr
put_share i a d [] = (i, (a, d) ∷ []) ∷ []
put_share i a d ((j, b) ∷ bs) =
    let rest = put_share i a d bs in
    if j == i
    then (j, bucket_incr a d b) ∷ bs
    else if ltb i j
    then (i, (a, d) ∷ []) ∷ (j, b) ∷ bs
    else (j, b) ∷ rest

-- `removedDiff`.
unfoldable pub bucket_diff : Bucket → ℕ
bucket_diff [] = 0
bucket_diff ((a, d) ∷ m) = d + bucket_diff m

-- The decrements of `removedByAddr`; a zero is passed over.
unfoldable pub remove_bucket : Bucket → Aggregate → Aggregate
remove_bucket [] agg = agg
remove_bucket ((a, d) ∷ m) agg =
    let rest = remove_bucket m (decr a d agg) in
    let passed = remove_bucket m agg in if d == 0 then passed else rest

-- The loop of `trimWindow`: the oldest bucket goes while the total is above the window and there is
-- another one.
unfoldable pub trim_loop : ℕ → ℤ → Aggregate → List (ℕ × Bucket) → List (ℕ × Bucket) × ℤ × Aggregate
trim_loop window_size total agg [] = ([], total, agg)
trim_loop window_size total agg (b ∷ []) = (b ∷ [], total, agg)
trim_loop window_size total agg (b ∷ c ∷ bs) =
    let rest =
      trim_loop window_size (total -ℤ pos (bucket_diff b.1)) (remove_bucket b.1 agg) (c ∷ bs) in
    if ltb_ℤ (pos window_size) total then rest else (b ∷ c ∷ bs, total, agg)

-- `sumBuckets`.
unfoldable pub add_bucket : Bucket → Aggregate → Aggregate
unfolding incr
add_bucket [] agg = agg
add_bucket ((a, d) ∷ m) agg =
    let added = add_bucket m (incr a (pos d) agg) in
    let passed = add_bucket m agg in if ltb 0 d then added else passed

unfoldable pub sum_buckets : List (ℕ × Bucket) → Aggregate → Aggregate
unfolding add_bucket
sum_buckets [] agg = agg
sum_buckets (b ∷ bs) agg = sum_buckets bs (add_bucket b.1 agg)

unfoldable pub aggregate_diff : Aggregate → ℤ
aggregate_diff [] = pos 0
aggregate_diff ((a, d) ∷ m) = d +ℤ aggregate_diff m

-- `recalculateWindow`, which does nothing where there is no bucket.
abbrev pub recalculate : ShareWindow → List (ℕ × Bucket) → ShareWindow
recalculate w [] = w
recalculate w (b ∷ bs) =
    let agg = sum_buckets (b ∷ bs) [] in
    record w { by_address = agg; window_total = aggregate_diff agg }

unfoldable pub trim_window : ℕ → ShareWindow → ShareWindow
unfolding sum_buckets
trim_window window_size w =
    let (buckets, total, agg) = trim_loop window_size w.window_total w.by_address w.buckets in
    let trimmed = record w {
      buckets = buckets;
      window_total = total;
      by_address = agg;
      trim_counter = w.trim_counter + 1;
    } in
    if window_size == 0
    then w
    else if (w.trim_counter + 1) % 100000 == 0
    then recalculate trimmed buckets
    else trimmed

unfoldable pub add_share : ℕ → String → ℕ → ShareWindow → ShareWindow
unfolding incr
add_share bucket_shares a difficulty w = record w {
  counter = w.counter + 1;
  buckets = put_share ((w.counter + 1) / bucket_shares) a difficulty w.buckets;
  window_total = w.window_total +ℤ pos difficulty;
  by_address = incr a (pos difficulty) w.by_address;
  touched = a ∷ w.touched;
  is_cached = false;
}

unfoldable pub record_share : ℕ → ℕ → String → ℕ → ShareWindow → ShareWindow
unfolding add_share
record_share bucket_shares window_size a difficulty w =
    if str_eq a "" then w else trim_window window_size (add_share bucket_shares a difficulty w)

-- The window of a fresh Redis.
abbrev pub empty_window : ShareWindow
empty_window = record {
  counter = 0;
  buckets = [];
  window_total = pos 0;
  by_address = [];
  trim_counter = 0;
  touched = [];
  is_cached = false;
}
