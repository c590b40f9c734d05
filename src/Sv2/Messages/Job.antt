-- ===== src/Sv2/Messages/Job.antt =====
-- The messages that hand out work, in src/models/sv2/sv2-messages.ts.
use blitzpool.Prelude.{ℕ, ◌<◌, ◌≡◌, Option, length}
use blitzpool.Sv2.Codec.{
  Bytes, Put, Get, ◌>>◌, ◌>>=◌, to_buffer, pure, u32_max, read_option_u32, read_u256, read_u32,
  write_option_u32, write_u256, write_u32,
}
use blitzpool.Sv2.Codec.Roundtrip.{
  RoundTrips, seq-RoundTrips, end-RoundTrips, option_u32-RoundTrips, u256-RoundTrips,
  u32-RoundTrips, FitsU32,
}

pub record Sv2NewMiningJob : Type 0 where
  pub channel_id : ℕ
  pub job_id : ℕ
  pub min_ntime : Option ℕ
  pub version : ℕ
  pub merkle_root : Bytes

unfoldable pub serialize_new_mining_job : Sv2NewMiningJob → Put
serialize_new_mining_job m = do
  write_u32 m.channel_id
  write_u32 m.job_id
  write_option_u32 m.min_ntime
  write_u32 m.version
  write_u256 m.merkle_root
  to_buffer

unfoldable pub deserialize_new_mining_job : Get Sv2NewMiningJob
deserialize_new_mining_job = do
  channel_id ← read_u32
  job_id ← read_u32
  min_ntime ← read_option_u32
  version ← read_u32
  merkle_root ← read_u256
  pure (record {
    channel_id = channel_id;
    job_id = job_id;
    min_ntime = min_ntime;
    version = version;
    merkle_root = merkle_root;
  })

-- The fields are in the ranges of their types.
abbrev pub NewMiningJobFits : Sv2NewMiningJob → Type 0
NewMiningJobFits m =
    (m.channel_id < u32_max)
    × (m.job_id < u32_max)
    × FitsU32 m.min_ntime
    × (m.version < u32_max)
    × (length m.merkle_root ≡ 32)

-- Every message in range can be written, and what is written reads back as it was.
pub new_mining_job-RoundTrips :
    (m : Sv2NewMiningJob)
    → NewMiningJobFits m
    → RoundTrips (serialize_new_mining_job m) deserialize_new_mining_job m
unfolding serialize_new_mining_job deserialize_new_mining_job
new_mining_job-RoundTrips m h = seq-RoundTrips _ (u32-RoundTrips m.channel_id h.0) (
    seq-RoundTrips _ (u32-RoundTrips m.job_id h.1) (
      seq-RoundTrips _ (option_u32-RoundTrips m.min_ntime h.2) (
        seq-RoundTrips _ (u32-RoundTrips m.version h.3)
          (seq-RoundTrips _ (u256-RoundTrips m.merkle_root h.4) (end-RoundTrips m)))))

pub record Sv2SetNewPrevHash : Type 0 where
  pub channel_id : ℕ
  pub job_id : ℕ
  pub prev_hash : Bytes
  pub min_ntime : ℕ
  pub n_bits : ℕ

unfoldable pub serialize_set_new_prev_hash : Sv2SetNewPrevHash → Put
serialize_set_new_prev_hash m = do
  write_u32 m.channel_id
  write_u32 m.job_id
  write_u256 m.prev_hash
  write_u32 m.min_ntime
  write_u32 m.n_bits
  to_buffer

unfoldable pub deserialize_set_new_prev_hash : Get Sv2SetNewPrevHash
deserialize_set_new_prev_hash = do
  channel_id ← read_u32
  job_id ← read_u32
  prev_hash ← read_u256
  min_ntime ← read_u32
  n_bits ← read_u32
  pure (record {
    channel_id = channel_id;
    job_id = job_id;
    prev_hash = prev_hash;
    min_ntime = min_ntime;
    n_bits = n_bits;
  })

-- The fields are in the ranges of their types.
abbrev pub SetNewPrevHashFits : Sv2SetNewPrevHash → Type 0
SetNewPrevHashFits m =
    (m.channel_id < u32_max)
    × (m.job_id < u32_max)
    × (length m.prev_hash ≡ 32)
    × (m.min_ntime < u32_max)
    × (m.n_bits < u32_max)

-- Every message in range can be written, and what is written reads back as it was.
pub set_new_prev_hash-RoundTrips :
    (m : Sv2SetNewPrevHash)
    → SetNewPrevHashFits m
    → RoundTrips (serialize_set_new_prev_hash m) deserialize_set_new_prev_hash m
unfolding serialize_set_new_prev_hash deserialize_set_new_prev_hash
set_new_prev_hash-RoundTrips m h = seq-RoundTrips _ (u32-RoundTrips m.channel_id h.0) (
    seq-RoundTrips _ (u32-RoundTrips m.job_id h.1) (
      seq-RoundTrips _ (u256-RoundTrips m.prev_hash h.2) (
        seq-RoundTrips _ (u32-RoundTrips m.min_ntime h.3)
          (seq-RoundTrips _ (u32-RoundTrips m.n_bits h.4) (end-RoundTrips m)))))

pub record Sv2SetTarget : Type 0 where
  pub channel_id : ℕ
  pub max_target : Bytes

unfoldable pub serialize_set_target : Sv2SetTarget → Put
serialize_set_target m = do write_u32 m.channel_id; write_u256 m.max_target; to_buffer

unfoldable pub deserialize_set_target : Get Sv2SetTarget
deserialize_set_target = do
  channel_id ← read_u32
  max_target ← read_u256
  pure (record { channel_id = channel_id; max_target = max_target })

-- The fields are in the ranges of their types.
abbrev pub SetTargetFits : Sv2SetTarget → Type 0
SetTargetFits m = (m.channel_id < u32_max) × (length m.max_target ≡ 32)

-- Every message in range can be written, and what is written reads back as it was.
pub set_target-RoundTrips :
    (m : Sv2SetTarget)
    → SetTargetFits m
    → RoundTrips (serialize_set_target m) deserialize_set_target m
unfolding serialize_set_target deserialize_set_target
set_target-RoundTrips m h =
    seq-RoundTrips _ (u32-RoundTrips m.channel_id h.0)
      (seq-RoundTrips _ (u256-RoundTrips m.max_target h.1) (end-RoundTrips m))
