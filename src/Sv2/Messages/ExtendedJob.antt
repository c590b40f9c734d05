-- ===== src/Sv2/Messages/ExtendedJob.antt =====
-- The jobs and prefixes of extended channels, in src/models/sv2/sv2-extended-messages.ts.
use blitzpool.Prelude.{ℕ, ◌≤◌, ◌<◌, ◌≡◌, Bool, Option, List, All, length}
use blitzpool.Sv2.Codec.{
  Bytes, Put, Get, ◌>>◌, ◌>>=◌, to_buffer, pure, u32_max, read_b0_32, read_b0_64k, read_bool,
  read_option_u32, read_seq0_255, read_seq0_64k, read_u256, read_u32, write_b0_32, write_b0_64k,
  write_bool, write_option_u32, write_seq0_255, write_seq0_64k, write_u256, write_u32,
}
use blitzpool.Sv2.Codec.Roundtrip.{
  RoundTrips, seq-RoundTrips, end-RoundTrips, b0_32-RoundTrips, b0_64k-RoundTrips, bool-RoundTrips,
  option_u32-RoundTrips, seq0_255-RoundTrips, seq0_64k-RoundTrips, u256-RoundTrips, u32-RoundTrips,
  FitsU32,
}

pub record Sv2NewExtendedMiningJob : Type 0 where
  pub channel_id : ℕ
  pub job_id : ℕ
  pub min_ntime : Option ℕ
  pub version : ℕ
  pub version_rolling_allowed : Bool
  pub merkle_path : List Bytes
  pub coinbase_prefix : Bytes
  pub coinbase_suffix : Bytes

unfoldable pub serialize_new_extended_mining_job : Sv2NewExtendedMiningJob → Put
serialize_new_extended_mining_job m = do
  write_u32 m.channel_id
  write_u32 m.job_id
  write_option_u32 m.min_ntime
  write_u32 m.version
  write_bool m.version_rolling_allowed
  write_seq0_255 write_u256 m.merkle_path
  write_b0_64k m.coinbase_prefix
  write_b0_64k m.coinbase_suffix
  to_buffer

unfoldable pub deserialize_new_extended_mining_job : Get Sv2NewExtendedMiningJob
deserialize_new_extended_mining_job = do
  channel_id ← read_u32
  job_id ← read_u32
  min_ntime ← read_option_u32
  version ← read_u32
  version_rolling_allowed ← read_bool
  merkle_path ← read_seq0_255 read_u256
  coinbase_prefix ← read_b0_64k
  coinbase_suffix ← read_b0_64k
  pure (record {
    channel_id = channel_id;
    job_id = job_id;
    min_ntime = min_ntime;
    version = version;
    version_rolling_allowed = version_rolling_allowed;
    merkle_path = merkle_path;
    coinbase_prefix = coinbase_prefix;
    coinbase_suffix = coinbase_suffix;
  })

-- The fields are in the ranges of their types.
abbrev pub NewExtendedMiningJobFits : Sv2NewExtendedMiningJob → Type 0
NewExtendedMiningJobFits m =
    (m.channel_id < u32_max)
    × (m.job_id < u32_max)
    × FitsU32 m.min_ntime
    × (m.version < u32_max)
    × (length m.merkle_path ≤ 255)
    × All (λ x. (length x ≡ 32)) m.merkle_path
    × (length m.coinbase_prefix ≤ 65535)
    × (length m.coinbase_suffix ≤ 65535)

-- Every message in range can be written, and what is written reads back as it was.
pub new_extended_mining_job-RoundTrips :
    (m : Sv2NewExtendedMiningJob)
    → NewExtendedMiningJobFits m
    → RoundTrips (serialize_new_extended_mining_job m) deserialize_new_extended_mining_job m
unfolding serialize_new_extended_mining_job deserialize_new_extended_mining_job
new_extended_mining_job-RoundTrips m h = seq-RoundTrips _ (u32-RoundTrips m.channel_id h.0) (
    seq-RoundTrips _ (u32-RoundTrips m.job_id h.1) (
      seq-RoundTrips _ (option_u32-RoundTrips m.min_ntime h.2) (
        seq-RoundTrips _ (u32-RoundTrips m.version h.3) (
          seq-RoundTrips _ (bool-RoundTrips m.version_rolling_allowed) (
            seq-RoundTrips _
              (seq0_255-RoundTrips write_u256 read_u256 _ u256-RoundTrips m.merkle_path h.4 h.5)
              (seq-RoundTrips _ (b0_64k-RoundTrips m.coinbase_prefix h.6) (
                seq-RoundTrips _ (b0_64k-RoundTrips m.coinbase_suffix h.7) (end-RoundTrips m))))))))

pub record Sv2SetExtranoncePrefix : Type 0 where
  pub channel_id : ℕ
  pub extranonce_prefix : Bytes

unfoldable pub serialize_set_extranonce_prefix : Sv2SetExtranoncePrefix → Put
serialize_set_extranonce_prefix m = do
  write_u32 m.channel_id
  write_b0_32 m.extranonce_prefix
  to_buffer

unfoldable pub deserialize_set_extranonce_prefix : Get Sv2SetExtranoncePrefix
deserialize_set_extranonce_prefix = do
  channel_id ← read_u32
  extranonce_prefix ← read_b0_32
  pure (record { channel_id = channel_id; extranonce_prefix = extranonce_prefix })

-- The fields are in the ranges of their types.
abbrev pub SetExtranoncePrefixFits : Sv2SetExtranoncePrefix → Type 0
SetExtranoncePrefixFits m = (m.channel_id < u32_max) × (length m.extranonce_prefix ≤ 32)

-- Every message in range can be written, and what is written reads back as it was.
pub set_extranonce_prefix-RoundTrips :
    (m : Sv2SetExtranoncePrefix)
    → SetExtranoncePrefixFits m
    → RoundTrips (serialize_set_extranonce_prefix m) deserialize_set_extranonce_prefix m
unfolding serialize_set_extranonce_prefix deserialize_set_extranonce_prefix
set_extranonce_prefix-RoundTrips m h =
    seq-RoundTrips _ (u32-RoundTrips m.channel_id h.0)
      (seq-RoundTrips _ (b0_32-RoundTrips m.extranonce_prefix h.1) (end-RoundTrips m))

pub record Sv2SetGroupChannel : Type 0 where
  pub group_channel_id : ℕ
  pub channel_ids : List ℕ

unfoldable pub serialize_set_group_channel : Sv2SetGroupChannel → Put
serialize_set_group_channel m = do
  write_u32 m.group_channel_id
  write_seq0_64k write_u32 m.channel_ids
  to_buffer

unfoldable pub deserialize_set_group_channel : Get Sv2SetGroupChannel
deserialize_set_group_channel = do
  group_channel_id ← read_u32
  channel_ids ← read_seq0_64k read_u32
  pure (record { group_channel_id = group_channel_id; channel_ids = channel_ids })

-- The fields are in the ranges of their types.
abbrev pub SetGroupChannelFits : Sv2SetGroupChannel → Type 0
SetGroupChannelFits m =
    (m.group_channel_id < u32_max)
    × (length m.channel_ids ≤ 65535)
    × All (λ x. (x < u32_max)) m.channel_ids

-- Every message in range can be written, and what is written reads back as it was.
pub set_group_channel-RoundTrips :
    (m : Sv2SetGroupChannel)
    → SetGroupChannelFits m
    → RoundTrips (serialize_set_group_channel m) deserialize_set_group_channel m
unfolding serialize_set_group_channel deserialize_set_group_channel
set_group_channel-RoundTrips m h = seq-RoundTrips _ (u32-RoundTrips m.group_channel_id h.0) (
    seq-RoundTrips _ (seq0_64k-RoundTrips write_u32 read_u32 _ u32-RoundTrips m.channel_ids h.1 h.2)
      (end-RoundTrips m))
