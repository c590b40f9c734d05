-- ===== src/Sv2/Messages/Extended.antt =====
-- The messages of extended channels, in src/models/sv2/sv2-extended-messages.ts.
use blitzpool.Prelude.{ℕ, ◌≤◌, ◌<◌, ◌≡◌, length}
use blitzpool.Sv2.Codec.{
  Bytes, Put, Get, ◌>>◌, ◌>>=◌, to_buffer, pure, u16_max, u32_max, read_b0_32, read_f32,
  read_str0_255, read_u16, read_u256, read_u32, write_b0_32, write_f32, write_str0_255, write_u16,
  write_u256, write_u32,
}
use blitzpool.Sv2.Codec.Roundtrip.{
  RoundTrips, seq-RoundTrips, end-RoundTrips, b0_32-RoundTrips, f32-RoundTrips, str0_255-RoundTrips,
  u16-RoundTrips, u256-RoundTrips, u32-RoundTrips,
}

pub record Sv2OpenExtendedMiningChannel : Type 0 where
  pub request_id : ℕ
  pub user_identity : Bytes
  pub nominal_hash_rate : ℕ
  pub max_target : Bytes
  pub min_extranonce_size : ℕ

unfoldable pub serialize_open_extended_mining_channel : Sv2OpenExtendedMiningChannel → Put
serialize_open_extended_mining_channel m = do
  write_u32 m.request_id
  write_str0_255 m.user_identity
  write_f32 m.nominal_hash_rate
  write_u256 m.max_target
  write_u16 m.min_extranonce_size
  to_buffer

unfoldable pub deserialize_open_extended_mining_channel : Get Sv2OpenExtendedMiningChannel
deserialize_open_extended_mining_channel = do
  request_id ← read_u32
  user_identity ← read_str0_255
  nominal_hash_rate ← read_f32
  max_target ← read_u256
  min_extranonce_size ← read_u16
  pure (record {
    request_id = request_id;
    user_identity = user_identity;
    nominal_hash_rate = nominal_hash_rate;
    max_target = max_target;
    min_extranonce_size = min_extranonce_size;
  })

-- The fields are in the ranges of their types.
abbrev pub OpenExtendedMiningChannelFits : Sv2OpenExtendedMiningChannel → Type 0
OpenExtendedMiningChannelFits m =
    (m.request_id < u32_max)
    × (length m.user_identity ≤ 255)
    × (m.nominal_hash_rate < u32_max)
    × (length m.max_target ≡ 32)
    × (m.min_extranonce_size < u16_max)

-- Every message in range can be written, and what is written reads back as it was.
pub open_extended_mining_channel-RoundTrips :
    (m : Sv2OpenExtendedMiningChannel)
    → OpenExtendedMiningChannelFits m
    → RoundTrips
        (serialize_open_extended_mining_channel m)
        deserialize_open_extended_mining_channel
        m
unfolding serialize_open_extended_mining_channel deserialize_open_extended_mining_channel
open_extended_mining_channel-RoundTrips m h = seq-RoundTrips _ (u32-RoundTrips m.request_id h.0) (
    seq-RoundTrips _ (str0_255-RoundTrips m.user_identity h.1) (
      seq-RoundTrips _ (f32-RoundTrips m.nominal_hash_rate h.2) (
        seq-RoundTrips _ (u256-RoundTrips m.max_target h.3)
          (seq-RoundTrips _ (u16-RoundTrips m.min_extranonce_size h.4) (end-RoundTrips m)))))

pub record Sv2OpenExtendedMiningChannelSuccess : Type 0 where
  pub request_id : ℕ
  pub channel_id : ℕ
  pub target : Bytes
  pub extranonce_size : ℕ
  pub extranonce_prefix : Bytes
  pub group_channel_id : ℕ

unfoldable pub serialize_open_extended_mining_channel_success :
    Sv2OpenExtendedMiningChannelSuccess → Put
serialize_open_extended_mining_channel_success m = do
  write_u32 m.request_id
  write_u32 m.channel_id
  write_u256 m.target
  write_u16 m.extranonce_size
  write_b0_32 m.extranonce_prefix
  write_u32 m.group_channel_id
  to_buffer

unfoldable pub deserialize_open_extended_mining_channel_success :
    Get Sv2OpenExtendedMiningChannelSuccess
deserialize_open_extended_mining_channel_success = do
  request_id ← read_u32
  channel_id ← read_u32
  target ← read_u256
  extranonce_size ← read_u16
  extranonce_prefix ← read_b0_32
  group_channel_id ← read_u32
  pure (record {
    request_id = request_id;
    channel_id = channel_id;
    target = target;
    extranonce_size = extranonce_size;
    extranonce_prefix = extranonce_prefix;
    group_channel_id = group_channel_id;
  })

-- The fields are in the ranges of their types.
abbrev pub OpenExtendedMiningChannelSuccessFits : Sv2OpenExtendedMiningChannelSuccess → Type 0
OpenExtendedMiningChannelSuccessFits m =
    (m.request_id < u32_max)
    × (m.channel_id < u32_max)
    × (length m.target ≡ 32)
    × (m.extranonce_size < u16_max)
    × (length m.extranonce_prefix ≤ 32)
    × (m.group_channel_id < u32_max)

-- Every message in range can be written, and what is written reads back as it was.
pub open_extended_mining_channel_success-RoundTrips :
    (m : Sv2OpenExtendedMiningChannelSuccess)
    → OpenExtendedMiningChannelSuccessFits m
    → RoundTrips
        (serialize_open_extended_mining_channel_success m)
        deserialize_open_extended_mining_channel_success
        m
unfolding serialize_open_extended_mining_channel_success
    deserialize_open_extended_mining_channel_success
open_extended_mining_channel_success-RoundTrips m h =
    seq-RoundTrips _ (u32-RoundTrips m.request_id h.0) (
      seq-RoundTrips _ (u32-RoundTrips m.channel_id h.1) (
        seq-RoundTrips _ (u256-RoundTrips m.target h.2) (
          seq-RoundTrips _ (u16-RoundTrips m.extranonce_size h.3) (
            seq-RoundTrips _ (b0_32-RoundTrips m.extranonce_prefix h.4)
              (seq-RoundTrips _ (u32-RoundTrips m.group_channel_id h.5) (end-RoundTrips m))))))

pub record Sv2SubmitSharesExtended : Type 0 where
  pub channel_id : ℕ
  pub sequence_number : ℕ
  pub job_id : ℕ
  pub nonce : ℕ
  pub ntime : ℕ
  pub version : ℕ
  pub extranonce : Bytes

unfoldable pub serialize_submit_shares_extended : Sv2SubmitSharesExtended → Put
serialize_submit_shares_extended m = do
  write_u32 m.channel_id
  write_u32 m.sequence_number
  write_u32 m.job_id
  write_u32 m.nonce
  write_u32 m.ntime
  write_u32 m.version
  write_b0_32 m.extranonce
  to_buffer

unfoldable pub deserialize_submit_shares_extended : Get Sv2SubmitSharesExtended
deserialize_submit_shares_extended = do
  channel_id ← read_u32
  sequence_number ← read_u32
  job_id ← read_u32
  nonce ← read_u32
  ntime ← read_u32
  version ← read_u32
  extranonce ← read_b0_32
  pure (record {
    channel_id = channel_id;
    sequence_number = sequence_number;
    job_id = job_id;
    nonce = nonce;
    ntime = ntime;
    version = version;
    extranonce = extranonce;
  })

-- The fields are in the ranges of their types.
abbrev pub SubmitSharesExtendedFits : Sv2SubmitSharesExtended → Type 0
SubmitSharesExtendedFits m =
    (m.channel_id < u32_max)
    × (m.sequence_number < u32_max)
    × (m.job_id < u32_max)
    × (m.nonce < u32_max)
    × (m.ntime < u32_max)
    × (m.version < u32_max)
    × (length m.extranonce ≤ 32)

-- Every message in range can be written, and what is written reads back as it was.
pub submit_shares_extended-RoundTrips :
    (m : Sv2SubmitSharesExtended)
    → SubmitSharesExtendedFits m
    → RoundTrips (serialize_submit_shares_extended m) deserialize_submit_shares_extended m
unfolding serialize_submit_shares_extended deserialize_submit_shares_extended
submit_shares_extended-RoundTrips m h = seq-RoundTrips _ (u32-RoundTrips m.channel_id h.0) (
    seq-RoundTrips _ (u32-RoundTrips m.sequence_number h.1) (
      seq-RoundTrips _ (u32-RoundTrips m.job_id h.2) (
        seq-RoundTrips _ (u32-RoundTrips m.nonce h.3) (
          seq-RoundTrips _ (u32-RoundTrips m.ntime h.4) (
            seq-RoundTrips _ (u32-RoundTrips m.version h.5)
              (seq-RoundTrips _ (b0_32-RoundTrips m.extranonce h.6) (end-RoundTrips m)))))))
