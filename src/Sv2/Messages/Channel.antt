-- ===== src/Sv2/Messages/Channel.antt =====
-- The messages that change and close a channel, in src/models/sv2/sv2-messages.ts.
use blitzpool.Prelude.{ℕ, ◌≤◌, ◌<◌, ◌≡◌, length}
use blitzpool.Sv2.Codec.{
  Bytes, Put, Get, ◌>>◌, ◌>>=◌, to_buffer, pure, u32_max, read_f32, read_str0_255, read_u256,
  read_u32, write_f32, write_str0_255, write_u256, write_u32,
}
use blitzpool.Sv2.Codec.Roundtrip.{
  RoundTrips, seq-RoundTrips, end-RoundTrips, f32-RoundTrips, str0_255-RoundTrips, u256-RoundTrips,
  u32-RoundTrips,
}

pub record Sv2CloseChannel : Type 0 where
  pub channel_id : ℕ
  pub reason_code : Bytes

unfoldable pub serialize_close_channel : Sv2CloseChannel → Put
serialize_close_channel m = do write_u32 m.channel_id; write_str0_255 m.reason_code; to_buffer

unfoldable pub deserialize_close_channel : Get Sv2CloseChannel
deserialize_close_channel = do
  channel_id ← read_u32
  reason_code ← read_str0_255
  pure (record { channel_id = channel_id; reason_code = reason_code })

-- The fields are in the ranges of their types.
abbrev pub CloseChannelFits : Sv2CloseChannel → Type 0
CloseChannelFits m = (m.channel_id < u32_max) × (length m.reason_code ≤ 255)

-- Every message in range can be written, and what is written reads back as it was.
pub close_channel-RoundTrips :
    (m : Sv2CloseChannel)
    → CloseChannelFits m
    → RoundTrips (serialize_close_channel m) deserialize_close_channel m
unfolding serialize_close_channel deserialize_close_channel
close_channel-RoundTrips m h =
    seq-RoundTrips _ (u32-RoundTrips m.channel_id h.0)
      (seq-RoundTrips _ (str0_255-RoundTrips m.reason_code h.1) (end-RoundTrips m))

pub record Sv2UpdateChannel : Type 0 where
  pub channel_id : ℕ
  pub nominal_hash_rate : ℕ
  pub maximum_target : Bytes

unfoldable pub serialize_update_channel : Sv2UpdateChannel → Put
serialize_update_channel m = do
  write_u32 m.channel_id
  write_f32 m.nominal_hash_rate
  write_u256 m.maximum_target
  to_buffer

unfoldable pub deserialize_update_channel : Get Sv2UpdateChannel
deserialize_update_channel = do
  channel_id ← read_u32
  nominal_hash_rate ← read_f32
  maximum_target ← read_u256
  pure (record {
    channel_id = channel_id;
    nominal_hash_rate = nominal_hash_rate;
    maximum_target = maximum_target;
  })

-- The fields are in the ranges of their types.
abbrev pub UpdateChannelFits : Sv2UpdateChannel → Type 0
UpdateChannelFits m =
    (m.channel_id < u32_max) × (m.nominal_hash_rate < u32_max) × (length m.maximum_target ≡ 32)

-- Every message in range can be written, and what is written reads back as it was.
pub update_channel-RoundTrips :
    (m : Sv2UpdateChannel)
    → UpdateChannelFits m
    → RoundTrips (serialize_update_channel m) deserialize_update_channel m
unfolding serialize_update_channel deserialize_update_channel
update_channel-RoundTrips m h = seq-RoundTrips _ (u32-RoundTrips m.channel_id h.0) (
    seq-RoundTrips _ (f32-RoundTrips m.nominal_hash_rate h.1)
      (seq-RoundTrips _ (u256-RoundTrips m.maximum_target h.2) (end-RoundTrips m)))

pub record Sv2UpdateChannelError : Type 0 where
  pub channel_id : ℕ
  pub error_code : Bytes

unfoldable pub serialize_update_channel_error : Sv2UpdateChannelError → Put
serialize_update_channel_error m = do write_u32 m.channel_id; write_str0_255 m.error_code; to_buffer

unfoldable pub deserialize_update_channel_error : Get Sv2UpdateChannelError
deserialize_update_channel_error = do
  channel_id ← read_u32
  error_code ← read_str0_255
  pure (record { channel_id = channel_id; error_code = error_code })

-- The fields are in the ranges of their types.
abbrev pub UpdateChannelErrorFits : Sv2UpdateChannelError → Type 0
UpdateChannelErrorFits m = (m.channel_id < u32_max) × (length m.error_code ≤ 255)

-- Every message in range can be written, and what is written reads back as it was.
pub update_channel_error-RoundTrips :
    (m : Sv2UpdateChannelError)
    → UpdateChannelErrorFits m
    → RoundTrips (serialize_update_channel_error m) deserialize_update_channel_error m
unfolding serialize_update_channel_error deserialize_update_channel_error
update_channel_error-RoundTrips m h =
    seq-RoundTrips _ (u32-RoundTrips m.channel_id h.0)
      (seq-RoundTrips _ (str0_255-RoundTrips m.error_code h.1) (end-RoundTrips m))
