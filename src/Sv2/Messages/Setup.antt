-- ===== src/Sv2/Messages/Setup.antt =====
-- The connection messages, in src/models/sv2/sv2-messages.ts.
use blitzpool.Prelude.{ℕ, ◌≤◌, ◌<◌, length}
use blitzpool.Sv2.Codec.{
  Bytes, Put, Get, ◌>>◌, ◌>>=◌, to_buffer, pure, u16_max, u32_max, read_str0_255, read_u16,
  read_u32, read_u8, write_str0_255, write_u16, write_u32, write_u8,
}
use blitzpool.Sv2.Codec.Roundtrip.{
  RoundTrips, seq-RoundTrips, end-RoundTrips, str0_255-RoundTrips, u16-RoundTrips, u32-RoundTrips,
  u8-RoundTrips,
}

pub record Sv2SetupConnection : Type 0 where
  pub protocol : ℕ
  pub min_version : ℕ
  pub max_version : ℕ
  pub flags : ℕ
  pub endpoint_host : Bytes
  pub endpoint_port : ℕ
  pub vendor : Bytes
  pub hardware_version : Bytes
  pub firmware_version : Bytes
  pub device_id : Bytes

unfoldable pub serialize_setup_connection : Sv2SetupConnection → Put
serialize_setup_connection m = do
  write_u8 m.protocol
  write_u16 m.min_version
  write_u16 m.max_version
  write_u32 m.flags
  write_str0_255 m.endpoint_host
  write_u16 m.endpoint_port
  write_str0_255 m.vendor
  write_str0_255 m.hardware_version
  write_str0_255 m.firmware_version
  write_str0_255 m.device_id
  to_buffer

unfoldable pub deserialize_setup_connection : Get Sv2SetupConnection
deserialize_setup_connection = do
  protocol ← read_u8
  min_version ← read_u16
  max_version ← read_u16
  flags ← read_u32
  endpoint_host ← read_str0_255
  endpoint_port ← read_u16
  vendor ← read_str0_255
  hardware_version ← read_str0_255
  firmware_version ← read_str0_255
  device_id ← read_str0_255
  pure (record {
    protocol = protocol;
    min_version = min_version;
    max_version = max_version;
    flags = flags;
    endpoint_host = endpoint_host;
    endpoint_port = endpoint_port;
    vendor = vendor;
    hardware_version = hardware_version;
    firmware_version = firmware_version;
    device_id = device_id;
  })

-- The fields are in the ranges of their types.
abbrev pub SetupConnectionFits : Sv2SetupConnection → Type 0
SetupConnectionFits m =
    (m.protocol < 256)
    × (m.min_version < u16_max)
    × (m.max_version < u16_max)
    × (m.flags < u32_max)
    × (length m.endpoint_host ≤ 255)
    × (m.endpoint_port < u16_max)
    × (length m.vendor ≤ 255)
    × (length m.hardware_version ≤ 255)
    × (length m.firmware_version ≤ 255)
    × (length m.device_id ≤ 255)

-- Every message in range can be written, and what is written reads back as it was.
pub setup_connection-RoundTrips :
    (m : Sv2SetupConnection)
    → SetupConnectionFits m
    → RoundTrips (serialize_setup_connection m) deserialize_setup_connection m
unfolding serialize_setup_connection deserialize_setup_connection
setup_connection-RoundTrips m h = seq-RoundTrips _ (u8-RoundTrips m.protocol h.0) (
    seq-RoundTrips _ (u16-RoundTrips m.min_version h.1) (
      seq-RoundTrips _ (u16-RoundTrips m.max_version h.2) (
        seq-RoundTrips _ (u32-RoundTrips m.flags h.3) (
          seq-RoundTrips _ (str0_255-RoundTrips m.endpoint_host h.4) (
            seq-RoundTrips _ (u16-RoundTrips m.endpoint_port h.5) (
              seq-RoundTrips _ (str0_255-RoundTrips m.vendor h.6) (
                seq-RoundTrips _ (str0_255-RoundTrips m.hardware_version h.7) (
                  seq-RoundTrips _ (str0_255-RoundTrips m.firmware_version h.8) (
                    seq-RoundTrips _ (str0_255-RoundTrips m.device_id h.9)
                      (end-RoundTrips m))))))))))

pub record Sv2SetupConnectionSuccess : Type 0 where
  pub used_version : ℕ
  pub flags : ℕ

unfoldable pub serialize_setup_connection_success : Sv2SetupConnectionSuccess → Put
serialize_setup_connection_success m = do write_u16 m.used_version; write_u32 m.flags; to_buffer

unfoldable pub deserialize_setup_connection_success : Get Sv2SetupConnectionSuccess
deserialize_setup_connection_success = do
  used_version ← read_u16
  flags ← read_u32
  pure (record { used_version = used_version; flags = flags })

-- The fields are in the ranges of their types.
abbrev pub SetupConnectionSuccessFits : Sv2SetupConnectionSuccess → Type 0
SetupConnectionSuccessFits m = (m.used_version < u16_max) × (m.flags < u32_max)

-- Every message in range can be written, and what is written reads back as it was.
pub setup_connection_success-RoundTrips :
    (m : Sv2SetupConnectionSuccess)
    → SetupConnectionSuccessFits m
    → RoundTrips (serialize_setup_connection_success m) deserialize_setup_connection_success m
unfolding serialize_setup_connection_success deserialize_setup_connection_success
setup_connection_success-RoundTrips m h =
    seq-RoundTrips _ (u16-RoundTrips m.used_version h.0)
      (seq-RoundTrips _ (u32-RoundTrips m.flags h.1) (end-RoundTrips m))

pub record Sv2SetupConnectionError : Type 0 where
  pub flags : ℕ
  pub error_code : Bytes

unfoldable pub serialize_setup_connection_error : Sv2SetupConnectionError → Put
serialize_setup_connection_error m = do write_u32 m.flags; write_str0_255 m.error_code; to_buffer

unfoldable pub deserialize_setup_connection_error : Get Sv2SetupConnectionError
deserialize_setup_connection_error = do
  flags ← read_u32
  error_code ← read_str0_255
  pure (record { flags = flags; error_code = error_code })

-- The fields are in the ranges of their types.
abbrev pub SetupConnectionErrorFits : Sv2SetupConnectionError → Type 0
SetupConnectionErrorFits m = (m.flags < u32_max) × (length m.error_code ≤ 255)

-- Every message in range can be written, and what is written reads back as it was.
pub setup_connection_error-RoundTrips :
    (m : Sv2SetupConnectionError)
    → SetupConnectionErrorFits m
    → RoundTrips (serialize_setup_connection_error m) deserialize_setup_connection_error m
unfolding serialize_setup_connection_error deserialize_setup_connection_error
setup_connection_error-RoundTrips m h =
    seq-RoundTrips _ (u32-RoundTrips m.flags h.0)
      (seq-RoundTrips _ (str0_255-RoundTrips m.error_code h.1) (end-RoundTrips m))

pub record Sv2ChannelEndpointChanged : Type 0 where
  pub channel_id : ℕ

unfoldable pub serialize_channel_endpoint_changed : Sv2ChannelEndpointChanged → Put
serialize_channel_endpoint_changed m = do write_u32 m.channel_id; to_buffer

unfoldable pub deserialize_channel_endpoint_changed : Get Sv2ChannelEndpointChanged
deserialize_channel_endpoint_changed = do
  channel_id ← read_u32
  pure (record { channel_id = channel_id })

-- The fields are in the ranges of their types.
abbrev pub ChannelEndpointChangedFits : Sv2ChannelEndpointChanged → Type 0
ChannelEndpointChangedFits m = (m.channel_id < u32_max)

-- Every message in range can be written, and what is written reads back as it was.
pub channel_endpoint_changed-RoundTrips :
    (m : Sv2ChannelEndpointChanged)
    → ChannelEndpointChangedFits m
    → RoundTrips (serialize_channel_endpoint_changed m) deserialize_channel_endpoint_changed m
unfolding serialize_channel_endpoint_changed deserialize_channel_endpoint_changed
channel_endpoint_changed-RoundTrips m h =
    seq-RoundTrips _ (u32-RoundTrips m.channel_id h) (end-RoundTrips m)

pub record Sv2Reconnect : Type 0 where
  pub new_host : Bytes
  pub new_port : ℕ

unfoldable pub serialize_reconnect : Sv2Reconnect → Put
serialize_reconnect m = do write_str0_255 m.new_host; write_u16 m.new_port; to_buffer

unfoldable pub deserialize_reconnect : Get Sv2Reconnect
deserialize_reconnect = do
  new_host ← read_str0_255
  new_port ← read_u16
  pure (record { new_host = new_host; new_port = new_port })

-- The fields are in the ranges of their types.
abbrev pub ReconnectFits : Sv2Reconnect → Type 0
ReconnectFits m = (length m.new_host ≤ 255) × (m.new_port < u16_max)

-- Every message in range can be written, and what is written reads back as it was.
pub reconnect-RoundTrips :
    (m : Sv2Reconnect)
    → ReconnectFits m
    → RoundTrips (serialize_reconnect m) deserialize_reconnect m
unfolding serialize_reconnect deserialize_reconnect
reconnect-RoundTrips m h =
    seq-RoundTrips _ (str0_255-RoundTrips m.new_host h.0)
      (seq-RoundTrips _ (u16-RoundTrips m.new_port h.1) (end-RoundTrips m))
