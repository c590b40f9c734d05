-- ===== src/Sv2/Messages/Submit.antt =====
-- The messages of share submission, in src/models/sv2/sv2-messages.ts.
use blitzpool.Prelude.{ℕ, ◌≤◌, ◌<◌, length}
use blitzpool.Sv2.Codec.{
  Bytes, Put, Get, ◌>>◌, ◌>>=◌, to_buffer, pure, u32_max, u64_max, read_str0_255, read_u32,
  read_u64, write_str0_255, write_u32, write_u64,
}
use blitzpool.Sv2.Codec.Roundtrip.{
  RoundTrips, seq-RoundTrips, end-RoundTrips, str0_255-RoundTrips, u32-RoundTrips, u64-RoundTrips,
}

pub record Sv2SubmitSharesStandard : Type 0 where
  pub channel_id : ℕ
  pub sequence_number : ℕ
  pub job_id : ℕ
  pub nonce : ℕ
  pub ntime : ℕ
  pub version : ℕ

unfoldable pub serialize_submit_shares_standard : Sv2SubmitSharesStandard → Put
serialize_submit_shares_standard m = do
  write_u32 m.channel_id
  write_u32 m.sequence_number
  write_u32 m.job_id
  write_u32 m.nonce
  write_u32 m.ntime
  write_u32 m.version
  to_buffer

unfoldable pub deserialize_submit_shares_standard : Get Sv2SubmitSharesStandard
deserialize_submit_shares_standard = do
  channel_id ← read_u32
  sequence_number ← read_u32
  job_id ← read_u32
  nonce ← read_u32
  ntime ← read_u32
  version ← read_u32
  pure (record {
    channel_id = channel_id;
    sequence_number = sequence_number;
    job_id = job_id;
    nonce = nonce;
    ntime = ntime;
    version = version;
  })

-- The fields are in the ranges of their types.
abbrev pub SubmitSharesStandardFits : Sv2SubmitSharesStandard → Type 0
SubmitSharesStandardFits m =
    (m.channel_id < u32_max)
    × (m.sequence_number < u32_max)
    × (m.job_id < u32_max)
    × (m.nonce < u32_max)
    × (m.ntime < u32_max)
    × (m.version < u32_max)

-- Every message in range can be written, and what is written reads back as it was.
pub submit_shares_standard-RoundTrips :
    (m : Sv2SubmitSharesStandard)
    → SubmitSharesStandardFits m
    → RoundTrips (serialize_submit_shares_standard m) deserialize_submit_shares_standard m
unfolding serialize_submit_shares_standard deserialize_submit_shares_standard
submit_shares_standard-RoundTrips m h = seq-RoundTrips _ (u32-RoundTrips m.channel_id h.0) (
    seq-RoundTrips _ (u32-RoundTrips m.sequence_number h.1) (
      seq-RoundTrips _ (u32-RoundTrips m.job_id h.2) (
        seq-RoundTrips _ (u32-RoundTrips m.nonce h.3) (
          seq-RoundTrips _ (u32-RoundTrips m.ntime h.4)
            (seq-RoundTrips _ (u32-RoundTrips m.version h.5) (end-RoundTrips m))))))

pub record Sv2SubmitSharesSuccess : Type 0 where
  pub channel_id : ℕ
  pub last_sequence_number : ℕ
  pub new_submits_accepted_count : ℕ
  pub new_shares_sum : ℕ

unfoldable pub serialize_submit_shares_success : Sv2SubmitSharesSuccess → Put
serialize_submit_shares_success m = do
  write_u32 m.channel_id
  write_u32 m.last_sequence_number
  write_u32 m.new_submits_accepted_count
  write_u64 m.new_shares_sum
  to_buffer

unfoldable pub deserialize_submit_shares_success : Get Sv2SubmitSharesSuccess
deserialize_submit_shares_success = do
  channel_id ← read_u32
  last_sequence_number ← read_u32
  new_submits_accepted_count ← read_u32
  new_shares_sum ← read_u64
  pure (record {
    channel_id = channel_id;
    last_sequence_number = last_sequence_number;
    new_submits_accepted_count = new_submits_accepted_count;
    new_shares_sum = new_shares_sum;
  })

-- The fields are in the ranges of their types.
abbrev pub SubmitSharesSuccessFits : Sv2SubmitSharesSuccess → Type 0
SubmitSharesSuccessFits m =
    (m.channel_id < u32_max)
    × (m.last_sequence_number < u32_max)
    × (m.new_submits_accepted_count < u32_max)
    × (m.new_shares_sum < u64_max)

-- Every message in range can be written, and what is written reads back as it was.
pub submit_shares_success-RoundTrips :
    (m : Sv2SubmitSharesSuccess)
    → SubmitSharesSuccessFits m
    → RoundTrips (serialize_submit_shares_success m) deserialize_submit_shares_success m
unfolding serialize_submit_shares_success deserialize_submit_shares_success
submit_shares_success-RoundTrips m h = seq-RoundTrips _ (u32-RoundTrips m.channel_id h.0) (
    seq-RoundTrips _ (u32-RoundTrips m.last_sequence_number h.1) (
      seq-RoundTrips _ (u32-RoundTrips m.new_submits_accepted_count h.2)
        (seq-RoundTrips _ (u64-RoundTrips m.new_shares_sum h.3) (end-RoundTrips m))))

pub record Sv2SubmitSharesError : Type 0 where
  pub channel_id : ℕ
  pub sequence_number : ℕ
  pub error_code : Bytes

unfoldable pub serialize_submit_shares_error : Sv2SubmitSharesError → Put
serialize_submit_shares_error m = do
  write_u32 m.channel_id
  write_u32 m.sequence_number
  write_str0_255 m.error_code
  to_buffer

unfoldable pub deserialize_submit_shares_error : Get Sv2SubmitSharesError
deserialize_submit_shares_error = do
  channel_id ← read_u32
  sequence_number ← read_u32
  error_code ← read_str0_255
  pure (record {
    channel_id = channel_id;
    sequence_number = sequence_number;
    error_code = error_code;
  })

-- The fields are in the ranges of their types.
abbrev pub SubmitSharesErrorFits : Sv2SubmitSharesError → Type 0
SubmitSharesErrorFits m =
    (m.channel_id < u32_max) × (m.sequence_number < u32_max) × (length m.error_code ≤ 255)

-- Every message in range can be written, and what is written reads back as it was.
pub submit_shares_error-RoundTrips :
    (m : Sv2SubmitSharesError)
    → SubmitSharesErrorFits m
    → RoundTrips (serialize_submit_shares_error m) deserialize_submit_shares_error m
unfolding serialize_submit_shares_error deserialize_submit_shares_error
submit_shares_error-RoundTrips m h = seq-RoundTrips _ (u32-RoundTrips m.channel_id h.0) (
    seq-RoundTrips _ (u32-RoundTrips m.sequence_number h.1)
      (seq-RoundTrips _ (str0_255-RoundTrips m.error_code h.2) (end-RoundTrips m)))
