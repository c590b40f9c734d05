-- ===== src/Sv2/Messages/Open.antt =====
-- The messages that open a standard channel, in src/models/sv2/sv2-messages.ts.
use blitzpool.Prelude.{ℕ, ◌≤◌, ◌<◌, ◌≡◌, length}
use blitzpool.Sv2.Codec.{
  Bytes, Put, Get, ◌>>◌, ◌>>=◌, to_buffer, pure, u32_max, read_b0_32, read_f32, read_str0_255,
  read_u256, read_u32, write_b0_32, write_f32, write_str0_255, write_u256, write_u32,
}
use blitzpool.Sv2.Codec.Roundtrip.{
  RoundTrips, seq-RoundTrips, end-RoundTrips, b0_32-RoundTrips, f32-RoundTrips, str0_255-RoundTrips,
  u256-RoundTrips, u32-RoundTrips,
}

pub record Sv2OpenStandardMiningChannel : Type 0 where
  pub request_id : ℕ
  pub user_identity : Bytes
  pub nominal_hash_rate : ℕ
  pub max_target : Bytes

unfoldable pub serialize_open_standard_mining_channel : Sv2OpenStandardMiningChannel → Put
serialize_open_standard_mining_channel m = do
  write_u32 m.request_id
  write_str0_255 m.user_identity
  write_f32 m.nominal_hash_rate
  write_u256 m.max_target
  to_buffer

unfoldable pub deserialize_open_standard_mining_channel : Get Sv2OpenStandardMiningChannel
deserialize_open_standard_mining_channel = do
  request_id ← read_u32
  user_identity ← read_str0_255
  nominal_hash_rate ← read_f32
  max_target ← read_u256
  pure (record {
    request_id = request_id;
    user_identity = user_identity;
    nominal_hash_rate = nominal_hash_rate;
    max_target = max_target;
  })

-- The fields are in the ranges of their types.
abbrev pub OpenStandardMiningChannelFits : Sv2OpenStandardMiningChannel → Type 0
OpenStandardMiningChannelFits m =
    (m.request_id < u32_max)
    × (length m.user_identity ≤ 255)
    × (m.nominal_hash_rate < u32_max)
    × (length m.max_target ≡ 32)

-- Every message in range can be written, and what is written reads back as it was.
pub open_standard_mining_channel-RoundTrips :
    (m : Sv2OpenStandardMiningChannel)
    → OpenStandardMiningChannelFits m
    → RoundTrips
        (serialize_open_standard_mining_channel m)
        deserialize_open_standard_mining_channel
        m
unfolding serialize_open_standard_mining_channel deserialize_open_standard_mining_channel
open_standard_mining_channel-RoundTrips m h = seq-RoundTrips _ (u32-RoundTrips m.request_id h.0) (
    seq-RoundTrips _ (str0_255-RoundTrips m.user_identity h.1) (
      seq-RoundTrips _ (f32-RoundTrips m.nominal_hash_rate h.2)
        (seq-RoundTrips _ (u256-RoundTrips m.max_target h.3) (end-RoundTrips m))))

pub record Sv2OpenStandardMiningChannelSuccess : Type 0 where
  pub request_id : ℕ
  pub channel_id : ℕ
  pub target : Bytes
  pub extranonce_prefix : Bytes
  pub group_channel_id : ℕ

unfoldable pub serialize_open_standard_mining_channel_success :
    Sv2OpenStandardMiningChannelSuccess → Put
serialize_open_standard_mining_channel_success m = do
  write_u32 m.request_id
  write_u32 m.channel_id
  write_u256 m.target
  write_b0_32 m.extranonce_prefix
  write_u32 m.group_channel_id
  to_buffer

unfoldable pub deserialize_open_standard_mining_channel_success :
    Get Sv2OpenStandardMiningChannelSuccess
deserialize_open_standard_mining_channel_success = do
  request_id ← read_u32
  channel_id ← read_u32
  target ← read_u256
  extranonce_prefix ← read_b0_32
  group_channel_id ← read_u32
  pure (record {
    request_id = request_id;
    channel_id = channel_id;
    target = target;
    extranonce_prefix = extranonce_prefix;
    group_channel_id = group_channel_id;
  })

-- The fields are in the ranges of their types.
abbrev pub OpenStandardMiningChannelSuccessFits : Sv2OpenStandardMiningChannelSuccess → Type 0
OpenStandardMiningChannelSuccessFits m =
    (m.request_id < u32_max)
    × (m.channel_id < u32_max)
    × (length m.target ≡ 32)
    × (length m.extranonce_prefix ≤ 32)
    × (m.group_channel_id < u32_max)

-- Every message in range can be written, and what is written reads back as it was.
pub open_standard_mining_channel_success-RoundTrips :
    (m : Sv2OpenStandardMiningChannelSuccess)
    → OpenStandardMiningChannelSuccessFits m
    → RoundTrips
        (serialize_open_standard_mining_channel_success m)
        deserialize_open_standard_mining_channel_success
        m
unfolding serialize_open_standard_mining_channel_success
    deserialize_open_standard_mining_channel_success
open_standard_mining_channel_success-RoundTrips m h =
    seq-RoundTrips _ (u32-RoundTrips m.request_id h.0) (
      seq-RoundTrips _ (u32-RoundTrips m.channel_id h.1) (
        seq-RoundTrips _ (u256-RoundTrips m.target h.2) (
          seq-RoundTrips _ (b0_32-RoundTrips m.extranonce_prefix h.3)
            (seq-RoundTrips _ (u32-RoundTrips m.group_channel_id h.4) (end-RoundTrips m)))))

pub record Sv2OpenMiningChannelError : Type 0 where
  pub request_id : ℕ
  pub error_code : Bytes

unfoldable pub serialize_open_mining_channel_error : Sv2OpenMiningChannelError → Put
serialize_open_mining_channel_error m = do
  write_u32 m.request_id
  write_str0_255 m.error_code
  to_buffer

unfoldable pub deserialize_open_mining_channel_error : Get Sv2OpenMiningChannelError
deserialize_open_mining_channel_error = do
  request_id ← read_u32
  error_code ← read_str0_255
  pure (record { request_id = request_id; error_code = error_code })

-- The fields are in the ranges of their types.
abbrev pub OpenMiningChannelErrorFits : Sv2OpenMiningChannelError → Type 0
OpenMiningChannelErrorFits m = (m.request_id < u32_max) × (length m.error_code ≤ 255)

-- Every message in range can be written, and what is written reads back as it was.
pub open_mining_channel_error-RoundTrips :
    (m : Sv2OpenMiningChannelError)
    → OpenMiningChannelErrorFits m
    → RoundTrips (serialize_open_mining_channel_error m) deserialize_open_mining_channel_error m
unfolding serialize_open_mining_channel_error deserialize_open_mining_channel_error
open_mining_channel_error-RoundTrips m h =
    seq-RoundTrips _ (u32-RoundTrips m.request_id h.0)
      (seq-RoundTrips _ (str0_255-RoundTrips m.error_code h.1) (end-RoundTrips m))
