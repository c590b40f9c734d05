-- ===== src/Sv2/Messages/Custom.antt =====
-- The custom jobs of the Job Declaration Protocol, in src/models/sv2/sv2-jdp-messages.ts.
use blitzpool.Prelude.{ℕ, ◌≤◌, ◌<◌, ◌≡◌, List, All, length}
use blitzpool.Sv2.Codec.{
  Bytes, Put, Get, ◌>>◌, ◌>>=◌, to_buffer, pure, u32_max, read_b0_255, read_b0_64k, read_seq0_255,
  read_str0_255, read_u256, read_u32, write_b0_255, write_b0_64k, write_seq0_255, write_str0_255,
  write_u256, write_u32,
}
use blitzpool.Sv2.Codec.Roundtrip.{
  RoundTrips, seq-RoundTrips, end-RoundTrips, b0_255-RoundTrips, b0_64k-RoundTrips,
  seq0_255-RoundTrips, str0_255-RoundTrips, u256-RoundTrips, u32-RoundTrips,
}

pub record Sv2SetCustomMiningJob : Type 0 where
  pub channel_id : ℕ
  pub request_id : ℕ
  pub token : Bytes
  pub version : ℕ
  pub prev_hash : Bytes
  pub min_ntime : ℕ
  pub n_bits : ℕ
  pub coinbase_tx_version : ℕ
  pub coinbase_prefix : Bytes
  pub coinbase_tx_input_n_sequence : ℕ
  pub coinbase_tx_outputs : Bytes
  pub coinbase_tx_locktime : ℕ
  pub merkle_path : List Bytes

unfoldable pub serialize_set_custom_mining_job : Sv2SetCustomMiningJob → Put
serialize_set_custom_mining_job m = do
  write_u32 m.channel_id
  write_u32 m.request_id
  write_b0_255 m.token
  write_u32 m.version
  write_u256 m.prev_hash
  write_u32 m.min_ntime
  write_u32 m.n_bits
  write_u32 m.coinbase_tx_version
  write_b0_255 m.coinbase_prefix
  write_u32 m.coinbase_tx_input_n_sequence
  write_b0_64k m.coinbase_tx_outputs
  write_u32 m.coinbase_tx_locktime
  write_seq0_255 write_u256 m.merkle_path
  to_buffer

unfoldable pub deserialize_set_custom_mining_job : Get Sv2SetCustomMiningJob
deserialize_set_custom_mining_job = do
  channel_id ← read_u32
  request_id ← read_u32
  token ← read_b0_255
  version ← read_u32
  prev_hash ← read_u256
  min_ntime ← read_u32
  n_bits ← read_u32
  coinbase_tx_version ← read_u32
  coinbase_prefix ← read_b0_255
  coinbase_tx_input_n_sequence ← read_u32
  coinbase_tx_outputs ← read_b0_64k
  coinbase_tx_locktime ← read_u32
  merkle_path ← read_seq0_255 read_u256
  pure (record {
    channel_id = channel_id;
    request_id = request_id;
    token = token;
    version = version;
    prev_hash = prev_hash;
    min_ntime = min_ntime;
    n_bits = n_bits;
    coinbase_tx_version = coinbase_tx_version;
    coinbase_prefix = coinbase_prefix;
    coinbase_tx_input_n_sequence = coinbase_tx_input_n_sequence;
    coinbase_tx_outputs = coinbase_tx_outputs;
    coinbase_tx_locktime = coinbase_tx_locktime;
    merkle_path = merkle_path;
  })

-- The fields are in the ranges of their types.
abbrev pub SetCustomMiningJobFits : Sv2SetCustomMiningJob → Type 0
SetCustomMiningJobFits m =
    (m.channel_id < u32_max)
    × (m.request_id < u32_max)
    × (length m.token ≤ 255)
    × (m.version < u32_max)
    × (length m.prev_hash ≡ 32)
    × (m.min_ntime < u32_max)
    × (m.n_bits < u32_max)
    × (m.coinbase_tx_version < u32_max)
    × (length m.coinbase_prefix ≤ 255)
    × (m.coinbase_tx_input_n_sequence < u32_max)
    × (length m.coinbase_tx_outputs ≤ 65535)
    × (m.coinbase_tx_locktime < u32_max)
    × (length m.merkle_path ≤ 255)
    × All (λ x. (length x ≡ 32)) m.merkle_path

-- Every message in range can be written, and what is written reads back as it was.
pub set_custom_mining_job-RoundTrips :
    (m : Sv2SetCustomMiningJob)
    → SetCustomMiningJobFits m
    → RoundTrips (serialize_set_custom_mining_job m) deserialize_set_custom_mining_job m
unfolding serialize_set_custom_mining_job deserialize_set_custom_mining_job
set_custom_mining_job-RoundTrips m h = seq-RoundTrips _ (u32-RoundTrips m.channel_id h.0) (
    seq-RoundTrips _ (u32-RoundTrips m.request_id h.1) (
      seq-RoundTrips _ (b0_255-RoundTrips m.token h.2) (
        seq-RoundTrips _ (u32-RoundTrips m.version h.3) (
          seq-RoundTrips _ (u256-RoundTrips m.prev_hash h.4) (
            seq-RoundTrips _ (u32-RoundTrips m.min_ntime h.5) (
              seq-RoundTrips _ (u32-RoundTrips m.n_bits h.6) (
                seq-RoundTrips _ (u32-RoundTrips m.coinbase_tx_version h.7) (
                  seq-RoundTrips _ (b0_255-RoundTrips m.coinbase_prefix h.8) (
                    seq-RoundTrips _ (u32-RoundTrips m.coinbase_tx_input_n_sequence h.9) (
                      seq-RoundTrips _ (b0_64k-RoundTrips m.coinbase_tx_outputs h.10) (
                        seq-RoundTrips _ (u32-RoundTrips m.coinbase_tx_locktime h.11) (
                          seq-RoundTrips _
                            (seq0_255-RoundTrips write_u256 read_u256 _ u256-RoundTrips
                              m.merkle_path h.12 h.13)
                            (end-RoundTrips m)))))))))))))

pub record Sv2SetCustomMiningJobSuccess : Type 0 where
  pub channel_id : ℕ
  pub request_id : ℕ
  pub job_id : ℕ

unfoldable pub serialize_set_custom_mining_job_success : Sv2SetCustomMiningJobSuccess → Put
serialize_set_custom_mining_job_success m = do
  write_u32 m.channel_id
  write_u32 m.request_id
  write_u32 m.job_id
  to_buffer

unfoldable pub deserialize_set_custom_mining_job_success : Get Sv2SetCustomMiningJobSuccess
deserialize_set_custom_mining_job_success = do
  channel_id ← read_u32
  request_id ← read_u32
  job_id ← read_u32
  pure (record { channel_id = channel_id; request_id = request_id; job_id = job_id })

-- The fields are in the ranges of their types.
abbrev pub SetCustomMiningJobSuccessFits : Sv2SetCustomMiningJobSuccess → Type 0
SetCustomMiningJobSuccessFits m =
    (m.channel_id < u32_max) × (m.request_id < u32_max) × (m.job_id < u32_max)

-- Every message in range can be written, and what is written reads back as it was.
pub set_custom_mining_job_success-RoundTrips :
    (m : Sv2SetCustomMiningJobSuccess)
    → SetCustomMiningJobSuccessFits m
    → RoundTrips
        (serialize_set_custom_mining_job_success m)
        deserialize_set_custom_mining_job_success
        m
unfolding serialize_set_custom_mining_job_success deserialize_set_custom_mining_job_success
set_custom_mining_job_success-RoundTrips m h = seq-RoundTrips _ (u32-RoundTrips m.channel_id h.0) (
    seq-RoundTrips _ (u32-RoundTrips m.request_id h.1)
      (seq-RoundTrips _ (u32-RoundTrips m.job_id h.2) (end-RoundTrips m)))

pub record Sv2SetCustomMiningJobError : Type 0 where
  pub channel_id : ℕ
  pub request_id : ℕ
  pub error_code : Bytes

unfoldable pub serialize_set_custom_mining_job_error : Sv2SetCustomMiningJobError → Put
serialize_set_custom_mining_job_error m = do
  write_u32 m.channel_id
  write_u32 m.request_id
  write_str0_255 m.error_code
  to_buffer

unfoldable pub deserialize_set_custom_mining_job_error : Get Sv2SetCustomMiningJobError
deserialize_set_custom_mining_job_error = do
  channel_id ← read_u32
  request_id ← read_u32
  error_code ← read_str0_255
  pure (record { channel_id = channel_id; request_id = request_id; error_code = error_code })

-- The fields are in the ranges of their types.
abbrev pub SetCustomMiningJobErrorFits : Sv2SetCustomMiningJobError → Type 0
SetCustomMiningJobErrorFits m =
    (m.channel_id < u32_max) × (m.request_id < u32_max) × (length m.error_code ≤ 255)

-- Every message in range can be written, and what is written reads back as it was.
pub set_custom_mining_job_error-RoundTrips :
    (m : Sv2SetCustomMiningJobError)
    → SetCustomMiningJobErrorFits m
    → RoundTrips (serialize_set_custom_mining_job_error m) deserialize_set_custom_mining_job_error m
unfolding serialize_set_custom_mining_job_error deserialize_set_custom_mining_job_error
set_custom_mining_job_error-RoundTrips m h = seq-RoundTrips _ (u32-RoundTrips m.channel_id h.0) (
    seq-RoundTrips _ (u32-RoundTrips m.request_id h.1)
      (seq-RoundTrips _ (str0_255-RoundTrips m.error_code h.2) (end-RoundTrips m)))
