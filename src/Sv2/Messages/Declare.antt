-- ===== src/Sv2/Messages/Declare.antt =====
-- The declared jobs of the Job Declaration Protocol, in src/models/sv2/sv2-jdp-messages.ts.
use blitzpool.Prelude.{ℕ, ◌≤◌, ◌<◌, ◌≡◌, List, All, length}
use blitzpool.Sv2.Codec.{
  Bytes, Put, Get, ◌>>◌, ◌>>=◌, to_buffer, pure, u32_max, read_b0_255, read_b0_64k, read_seq0_64k,
  read_str0_255, read_u256, read_u32, write_b0_255, write_b0_64k, write_seq0_64k, write_str0_255,
  write_u256, write_u32,
}
use blitzpool.Sv2.Codec.Roundtrip.{
  RoundTrips, seq-RoundTrips, end-RoundTrips, b0_255-RoundTrips, b0_64k-RoundTrips,
  seq0_64k-RoundTrips, str0_255-RoundTrips, u256-RoundTrips, u32-RoundTrips,
}

pub record Sv2DeclareMiningJob : Type 0 where
  pub request_id : ℕ
  pub mining_job_token : Bytes
  pub version : ℕ
  pub coinbase_tx_prefix : Bytes
  pub coinbase_tx_suffix : Bytes
  pub wtxid_list : List Bytes
  pub excess_data : Bytes

unfoldable pub serialize_declare_mining_job : Sv2DeclareMiningJob → Put
serialize_declare_mining_job m = do
  write_u32 m.request_id
  write_b0_255 m.mining_job_token
  write_u32 m.version
  write_b0_64k m.coinbase_tx_prefix
  write_b0_64k m.coinbase_tx_suffix
  write_seq0_64k write_u256 m.wtxid_list
  write_b0_64k m.excess_data
  to_buffer

unfoldable pub deserialize_declare_mining_job : Get Sv2DeclareMiningJob
deserialize_declare_mining_job = do
  request_id ← read_u32
  mining_job_token ← read_b0_255
  version ← read_u32
  coinbase_tx_prefix ← read_b0_64k
  coinbase_tx_suffix ← read_b0_64k
  wtxid_list ← read_seq0_64k read_u256
  excess_data ← read_b0_64k
  pure (record {
    request_id = request_id;
    mining_job_token = mining_job_token;
    version = version;
    coinbase_tx_prefix = coinbase_tx_prefix;
    coinbase_tx_suffix = coinbase_tx_suffix;
    wtxid_list = wtxid_list;
    excess_data = excess_data;
  })

-- The fields are in the ranges of their types.
abbrev pub DeclareMiningJobFits : Sv2DeclareMiningJob → Type 0
DeclareMiningJobFits m =
    (m.request_id < u32_max)
    × (length m.mining_job_token ≤ 255)
    × (m.version < u32_max)
    × (length m.coinbase_tx_prefix ≤ 65535)
    × (length m.coinbase_tx_suffix ≤ 65535)
    × (length m.wtxid_list ≤ 65535)
    × All (λ x. (length x ≡ 32)) m.wtxid_list
    × (length m.excess_data ≤ 65535)

-- Every message in range can be written, and what is written reads back as it was.
pub declare_mining_job-RoundTrips :
    (m : Sv2DeclareMiningJob)
    → DeclareMiningJobFits m
    → RoundTrips (serialize_declare_mining_job m) deserialize_declare_mining_job m
unfolding serialize_declare_mining_job deserialize_declare_mining_job
declare_mining_job-RoundTrips m h = seq-RoundTrips _ (u32-RoundTrips m.request_id h.0) (
    seq-RoundTrips _ (b0_255-RoundTrips m.mining_job_token h.1) (
      seq-RoundTrips _ (u32-RoundTrips m.version h.2) (
        seq-RoundTrips _ (b0_64k-RoundTrips m.coinbase_tx_prefix h.3) (
          seq-RoundTrips _ (b0_64k-RoundTrips m.coinbase_tx_suffix h.4) (
            seq-RoundTrips _
              (seq0_64k-RoundTrips write_u256 read_u256 _ u256-RoundTrips m.wtxid_list h.5 h.6)
              (seq-RoundTrips _ (b0_64k-RoundTrips m.excess_data h.7) (end-RoundTrips m)))))))

pub record Sv2DeclareMiningJobSuccess : Type 0 where
  pub request_id : ℕ
  pub new_mining_job_token : Bytes

unfoldable pub serialize_declare_mining_job_success : Sv2DeclareMiningJobSuccess → Put
serialize_declare_mining_job_success m = do
  write_u32 m.request_id
  write_b0_255 m.new_mining_job_token
  to_buffer

unfoldable pub deserialize_declare_mining_job_success : Get Sv2DeclareMiningJobSuccess
deserialize_declare_mining_job_success = do
  request_id ← read_u32
  new_mining_job_token ← read_b0_255
  pure (record { request_id = request_id; new_mining_job_token = new_mining_job_token })

-- The fields are in the ranges of their types.
abbrev pub DeclareMiningJobSuccessFits : Sv2DeclareMiningJobSuccess → Type 0
DeclareMiningJobSuccessFits m = (m.request_id < u32_max) × (length m.new_mining_job_token ≤ 255)

-- Every message in range can be written, and what is written reads back as it was.
pub declare_mining_job_success-RoundTrips :
    (m : Sv2DeclareMiningJobSuccess)
    → DeclareMiningJobSuccessFits m
    → RoundTrips (serialize_declare_mining_job_success m) deserialize_declare_mining_job_success m
unfolding serialize_declare_mining_job_success deserialize_declare_mining_job_success
declare_mining_job_success-RoundTrips m h =
    seq-RoundTrips _ (u32-RoundTrips m.request_id h.0)
      (seq-RoundTrips _ (b0_255-RoundTrips m.new_mining_job_token h.1) (end-RoundTrips m))

pub record Sv2DeclareMiningJobError : Type 0 where
  pub request_id : ℕ
  pub error_code : Bytes
  pub error_details : Bytes

unfoldable pub serialize_declare_mining_job_error : Sv2DeclareMiningJobError → Put
serialize_declare_mining_job_error m = do
  write_u32 m.request_id
  write_str0_255 m.error_code
  write_b0_64k m.error_details
  to_buffer

unfoldable pub deserialize_declare_mining_job_error : Get Sv2DeclareMiningJobError
deserialize_declare_mining_job_error = do
  request_id ← read_u32
  error_code ← read_str0_255
  error_details ← read_b0_64k
  pure (record { request_id = request_id; error_code = error_code; error_details = error_details })

-- The fields are in the ranges of their types.
abbrev pub DeclareMiningJobErrorFits : Sv2DeclareMiningJobError → Type 0
DeclareMiningJobErrorFits m =
    (m.request_id < u32_max) × (length m.error_code ≤ 255) × (length m.error_details ≤ 65535)

-- Every message in range can be written, and what is written reads back as it was.
pub declare_mining_job_error-RoundTrips :
    (m : Sv2DeclareMiningJobError)
    → DeclareMiningJobErrorFits m
    → RoundTrips (serialize_declare_mining_job_error m) deserialize_declare_mining_job_error m
unfolding serialize_declare_mining_job_error deserialize_declare_mining_job_error
declare_mining_job_error-RoundTrips m h = seq-RoundTrips _ (u32-RoundTrips m.request_id h.0) (
    seq-RoundTrips _ (str0_255-RoundTrips m.error_code h.1)
      (seq-RoundTrips _ (b0_64k-RoundTrips m.error_details h.2) (end-RoundTrips m)))
