-- ===== src/Sv2/Tests.antt =====
-- The codec, some messages and the extranonce manager on small inputs.
use blitzpool.Prelude.{ℕ, ◌≡◌, refl, ◌≤◌, true, List, [], ◌∷◌, none, some, arith}
use blitzpool.Sv2.Codec.{Bytes}
use blitzpool.Sv2.Codec.Capacity.{ensure_capacity, ensure_capacity-fits}
use blitzpool.Sv2.Codec.Roundtrip.{RoundTrips}
use blitzpool.Sv2.Messages.Custom.{
  Sv2SetCustomMiningJob, serialize_set_custom_mining_job, deserialize_set_custom_mining_job,
  set_custom_mining_job-RoundTrips,
}
use blitzpool.Sv2.Extranonce.{
  Sv2ExtranonceManager, new_manager, allocate, allocate_free, release, prefix_of, find_free,
  next_local, mem, remove, forget, prefix_to_buffer,
}
use blitzpool.Sv2.Extranonce.Unique.{Call, allocates, releases, run_calls, run_calls_unique}
use blitzpool.Sv2.Extranonce.Exhausted.{allocate-exhausted}

abbrev hash : Bytes
hash =
    1 ∷ 2 ∷ 3 ∷ 4 ∷ 5 ∷ 6 ∷ 7 ∷ 8 ∷ 9 ∷ 10 ∷ 11 ∷ 12 ∷ 13 ∷ 14 ∷ 15 ∷ 16 ∷ 17 ∷ 18 ∷ 19 ∷ 20 ∷ 21
    ∷ 22 ∷ 23 ∷ 24 ∷ 25 ∷ 26 ∷ 27 ∷ 28 ∷ 29 ∷ 30 ∷ 31 ∷ 32 ∷ []

-- A buffer of 4 bytes grows to 16 for a write that needs 9.
ensure_capacity-fits_example : (m : ℕ) × (ensure_capacity 10 4 4 5 ≡ some m) × (9 ≤ m) × (4 ≤ m)
ensure_capacity-fits_example = ensure_capacity-fits 4 4 5 (omega arith)

abbrev calls : List Call
calls = allocates 5 ∷ allocates 6 ∷ releases 5 ∷ allocates 8 ∷ []

after_calls : prefix_of 8 (run_calls (new_manager 2 8) calls).allocated_prefixes ≡ some 3
unfolding prefix_of run_calls new_manager allocate allocate_free release find_free next_local mem
    remove forget prefix_to_buffer
after_calls = refl

run_calls_unique_example : ◌≡◌ {A = ℕ} 8 8
run_calls_unique_example = run_calls_unique 2 8 calls 8 8 3 after_calls after_calls

-- A manager with one prefix, in use.
abbrev full : Sv2ExtranonceManager
full = record {
  next_prefix = 1;
  max_prefix = 1;
  allocated_prefixes = (5, 1) ∷ [];
  used_prefixes = 1 ∷ [];
  prefix_size = 2;
  total_extranonce_size = 8;
}

full_fails : allocate 6 full ≡ none
unfolding prefix_of allocate allocate_free find_free next_local mem
full_fails = refl

allocate-exhausted_example : mem 1 full.used_prefixes ≡ true
allocate-exhausted_example =
    allocate-exhausted 6 full 1 (omega arith) full_fails (omega arith) (omega arith)

abbrev custom : Sv2SetCustomMiningJob
custom = record {
  channel_id = 7;
  request_id = 5;
  token = 8 ∷ 8 ∷ [];
  version = 536870912;
  prev_hash = hash;
  min_ntime = 1700000000;
  n_bits = 386089497;
  coinbase_tx_version = 2;
  coinbase_prefix = 3 ∷ [];
  coinbase_tx_input_n_sequence = 4294967295;
  coinbase_tx_outputs = 1 ∷ [];
  coinbase_tx_locktime = 0;
  merkle_path = hash ∷ [];
}

set_custom_mining_job_example :
    RoundTrips (serialize_set_custom_mining_job custom) deserialize_set_custom_mining_job custom
set_custom_mining_job_example = set_custom_mining_job-RoundTrips custom (
  omega arith,
  omega arith,
  omega arith,
  omega arith,
  refl,
  omega arith,
  omega arith,
  omega arith,
  omega arith,
  omega arith,
  omega arith,
  omega arith,
  omega arith,
  (refl, tt),
)
