-- ===== src/Sv2/Messages/TemplateData.antt =====
-- The solutions and the transaction data of the Template Distribution Protocol, in src/models/sv2/sv2-tdp-messages.ts.
use blitzpool.Prelude.{ℕ, ◌≤◌, ◌<◌, List, All, length}
use blitzpool.Sv2.Codec.{
  Bytes, Put, Get, ◌>>◌, ◌>>=◌, to_buffer, pure, u32_max, u64_max, read_b0_16m, read_b0_64k,
  read_seq0_64k, read_str0_255, read_u32, read_u64, write_b0_16m, write_b0_64k, write_seq0_64k,
  write_str0_255, write_u32, write_u64,
}
use blitzpool.Sv2.Codec.Roundtrip.{
  RoundTrips, seq-RoundTrips, end-RoundTrips, b0_16m-RoundTrips, b0_64k-RoundTrips,
  seq0_64k-RoundTrips, str0_255-RoundTrips, u32-RoundTrips, u64-RoundTrips,
}

pub record Sv2TdpSubmitSolution : Type 0 where
  pub template_id : ℕ
  pub version : ℕ
  pub header_timestamp : ℕ
  pub header_nonce : ℕ
  pub coinbase_tx : Bytes

unfoldable pub serialize_tdp_submit_solution : Sv2TdpSubmitSolution → Put
serialize_tdp_submit_solution m = do
  write_u64 m.template_id
  write_u32 m.version
  write_u32 m.header_timestamp
  write_u32 m.header_nonce
  write_b0_64k m.coinbase_tx
  to_buffer

unfoldable pub deserialize_tdp_submit_solution : Get Sv2TdpSubmitSolution
deserialize_tdp_submit_solution = do
  template_id ← read_u64
  version ← read_u32
  header_timestamp ← read_u32
  header_nonce ← read_u32
  coinbase_tx ← read_b0_64k
  pure (record {
    template_id = template_id;
    version = version;
    header_timestamp = header_timestamp;
    header_nonce = header_nonce;
    coinbase_tx = coinbase_tx;
  })

-- The fields are in the ranges of their types.
abbrev pub TdpSubmitSolutionFits : Sv2TdpSubmitSolution → Type 0
TdpSubmitSolutionFits m =
    (m.template_id < u64_max)
    × (m.version < u32_max)
    × (m.header_timestamp < u32_max)
    × (m.header_nonce < u32_max)
    × (length m.coinbase_tx ≤ 65535)

-- Every message in range can be written, and what is written reads back as it was.
pub tdp_submit_solution-RoundTrips :
    (m : Sv2TdpSubmitSolution)
    → TdpSubmitSolutionFits m
    → RoundTrips (serialize_tdp_submit_solution m) deserialize_tdp_submit_solution m
unfolding serialize_tdp_submit_solution deserialize_tdp_submit_solution
tdp_submit_solution-RoundTrips m h = seq-RoundTrips _ (u64-RoundTrips m.template_id h.0) (
    seq-RoundTrips _ (u32-RoundTrips m.version h.1) (
      seq-RoundTrips _ (u32-RoundTrips m.header_timestamp h.2) (
        seq-RoundTrips _ (u32-RoundTrips m.header_nonce h.3)
          (seq-RoundTrips _ (b0_64k-RoundTrips m.coinbase_tx h.4) (end-RoundTrips m)))))

pub record Sv2TdpRequestTransactionData : Type 0 where
  pub template_id : ℕ

unfoldable pub serialize_tdp_request_transaction_data : Sv2TdpRequestTransactionData → Put
serialize_tdp_request_transaction_data m = do write_u64 m.template_id; to_buffer

unfoldable pub deserialize_tdp_request_transaction_data : Get Sv2TdpRequestTransactionData
deserialize_tdp_request_transaction_data = do
  template_id ← read_u64
  pure (record { template_id = template_id })

-- The fields are in the ranges of their types.
abbrev pub TdpRequestTransactionDataFits : Sv2TdpRequestTransactionData → Type 0
TdpRequestTransactionDataFits m = (m.template_id < u64_max)

-- Every message in range can be written, and what is written reads back as it was.
pub tdp_request_transaction_data-RoundTrips :
    (m : Sv2TdpRequestTransactionData)
    → TdpRequestTransactionDataFits m
    → RoundTrips
        (serialize_tdp_request_transaction_data m)
        deserialize_tdp_request_transaction_data
        m
unfolding serialize_tdp_request_transaction_data deserialize_tdp_request_transaction_data
tdp_request_transaction_data-RoundTrips m h =
    seq-RoundTrips _ (u64-RoundTrips m.template_id h) (end-RoundTrips m)

pub record Sv2TdpRequestTransactionDataSuccess : Type 0 where
  pub template_id : ℕ
  pub excess_data : Bytes
  pub transaction_list : List Bytes

unfoldable pub serialize_tdp_request_transaction_data_success :
    Sv2TdpRequestTransactionDataSuccess → Put
serialize_tdp_request_transaction_data_success m = do
  write_u64 m.template_id
  write_b0_64k m.excess_data
  write_seq0_64k write_b0_16m m.transaction_list
  to_buffer

unfoldable pub deserialize_tdp_request_transaction_data_success :
    Get Sv2TdpRequestTransactionDataSuccess
deserialize_tdp_request_transaction_data_success = do
  template_id ← read_u64
  excess_data ← read_b0_64k
  transaction_list ← read_seq0_64k read_b0_16m
  pure (record {
    template_id = template_id;
    excess_data = excess_data;
    transaction_list = transaction_list;
  })

-- The fields are in the ranges of their types.
abbrev pub TdpRequestTransactionDataSuccessFits : Sv2TdpRequestTransactionDataSuccess → Type 0
TdpRequestTransactionDataSuccessFits m =
    (m.template_id < u64_max)
    × (length m.excess_data ≤ 65535)
    × (length m.transaction_list ≤ 65535)
    × All (λ x. (length x ≤ 16777215)) m.transaction_list

-- Every message in range can be written, and what is written reads back as it was.
pub tdp_request_transaction_data_success-RoundTrips :
    (m : Sv2TdpRequestTransactionDataSuccess)
    → TdpRequestTransactionDataSuccessFits m
    → RoundTrips
        (serialize_tdp_request_transaction_data_success m)
        deserialize_tdp_request_transaction_data_success
        m
unfolding serialize_tdp_request_transaction_data_success
    deserialize_tdp_request_transaction_data_success
tdp_request_transaction_data_success-RoundTrips m h =
    seq-RoundTrips _ (u64-RoundTrips m.template_id h.0) (
      seq-RoundTrips _ (b0_64k-RoundTrips m.excess_data h.1) (
        seq-RoundTrips _
          (seq0_64k-RoundTrips write_b0_16m read_b0_16m _ b0_16m-RoundTrips m.transaction_list h.2
            h.3)
          (end-RoundTrips m)))

pub record Sv2TdpRequestTransactionDataError : Type 0 where
  pub template_id : ℕ
  pub error_code : Bytes

unfoldable pub serialize_tdp_request_transaction_data_error :
    Sv2TdpRequestTransactionDataError → Put
serialize_tdp_request_transaction_data_error m = do
  write_u64 m.template_id
  write_str0_255 m.error_code
  to_buffer

unfoldable pub deserialize_tdp_request_transaction_data_error :
    Get Sv2TdpRequestTransactionDataError
deserialize_tdp_request_transaction_data_error = do
  template_id ← read_u64
  error_code ← read_str0_255
  pure (record { template_id = template_id; error_code = error_code })

-- The fields are in the ranges of their types.
abbrev pub TdpRequestTransactionDataErrorFits : Sv2TdpRequestTransactionDataError → Type 0
TdpRequestTransactionDataErrorFits m = (m.template_id < u64_max) × (length m.error_code ≤ 255)

-- Every message in range can be written, and what is written reads back as it was.
pub tdp_request_transaction_data_error-RoundTrips :
    (m : Sv2TdpRequestTransactionDataError)
    → TdpRequestTransactionDataErrorFits m
    → RoundTrips
        (serialize_tdp_request_transaction_data_error m)
        deserialize_tdp_request_transaction_data_error
        m
unfolding serialize_tdp_request_transaction_data_error
    deserialize_tdp_request_transaction_data_error
tdp_request_transaction_data_error-RoundTrips m h =
    seq-RoundTrips _ (u64-RoundTrips m.template_id h.0)
      (seq-RoundTrips _ (str0_255-RoundTrips m.error_code h.1) (end-RoundTrips m))
