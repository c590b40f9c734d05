-- ===== src/Sv2/Messages/Missing.antt =====
-- The transactions that a declared job misses, in src/models/sv2/sv2-jdp-messages.ts.
use blitzpool.Prelude.{ℕ, ◌≤◌, ◌<◌, List, All, length}
use blitzpool.Sv2.Codec.{
  Bytes, Put, Get, ◌>>◌, ◌>>=◌, to_buffer, pure, u16_max, u32_max, read_b0_16m, read_seq0_64k,
  read_u16, read_u32, write_b0_16m, write_seq0_64k, write_u16, write_u32,
}
use blitzpool.Sv2.Codec.Roundtrip.{
  RoundTrips, seq-RoundTrips, end-RoundTrips, b0_16m-RoundTrips, seq0_64k-RoundTrips,
  u16-RoundTrips, u32-RoundTrips,
}

pub record Sv2ProvideMissingTransactions : Type 0 where
  pub request_id : ℕ
  pub unknown_tx_position_list : List ℕ

unfoldable pub serialize_provide_missing_transactions : Sv2ProvideMissingTransactions → Put
serialize_provide_missing_transactions m = do
  write_u32 m.request_id
  write_seq0_64k write_u16 m.unknown_tx_position_list
  to_buffer

unfoldable pub deserialize_provide_missing_transactions : Get Sv2ProvideMissingTransactions
deserialize_provide_missing_transactions = do
  request_id ← read_u32
  unknown_tx_position_list ← read_seq0_64k read_u16
  pure (record { request_id = request_id; unknown_tx_position_list = unknown_tx_position_list })

-- The fields are in the ranges of their types.
abbrev pub ProvideMissingTransactionsFits : Sv2ProvideMissingTransactions → Type 0
ProvideMissingTransactionsFits m =
    (m.request_id < u32_max)
    × (length m.unknown_tx_position_list ≤ 65535)
    × All (λ x. (x < u16_max)) m.unknown_tx_position_list

-- Every message in range can be written, and what is written reads back as it was.
pub provide_missing_transactions-RoundTrips :
    (m : Sv2ProvideMissingTransactions)
    → ProvideMissingTransactionsFits m
    → RoundTrips
        (serialize_provide_missing_transactions m)
        deserialize_provide_missing_transactions
        m
unfolding serialize_provide_missing_transactions deserialize_provide_missing_transactions
provide_missing_transactions-RoundTrips m h = seq-RoundTrips _ (u32-RoundTrips m.request_id h.0) (
    seq-RoundTrips _
      (seq0_64k-RoundTrips write_u16 read_u16 _ u16-RoundTrips m.unknown_tx_position_list h.1 h.2)
      (end-RoundTrips m))

pub record Sv2ProvideMissingTransactionsSuccess : Type 0 where
  pub request_id : ℕ
  pub transaction_list : List Bytes

unfoldable pub serialize_provide_missing_transactions_success :
    Sv2ProvideMissingTransactionsSuccess → Put
serialize_provide_missing_transactions_success m = do
  write_u32 m.request_id
  write_seq0_64k write_b0_16m m.transaction_list
  to_buffer

unfoldable pub deserialize_provide_missing_transactions_success :
    Get Sv2ProvideMissingTransactionsSuccess
deserialize_provide_missing_transactions_success = do
  request_id ← read_u32
  transaction_list ← read_seq0_64k read_b0_16m
  pure (record { request_id = request_id; transaction_list = transaction_list })

-- The fields are in the ranges of their types.
abbrev pub ProvideMissingTransactionsSuccessFits : Sv2ProvideMissingTransactionsSuccess → Type 0
ProvideMissingTransactionsSuccessFits m =
    (m.request_id < u32_max)
    × (length m.transaction_list ≤ 65535)
    × All (λ x. (length x ≤ 16777215)) m.transaction_list

-- Every message in range can be written, and what is written reads back as it was.
pub provide_missing_transactions_success-RoundTrips :
    (m : Sv2ProvideMissingTransactionsSuccess)
    → ProvideMissingTransactionsSuccessFits m
    → RoundTrips
        (serialize_provide_missing_transactions_success m)
        deserialize_provide_missing_transactions_success
        m
unfolding serialize_provide_missing_transactions_success
    deserialize_provide_missing_transactions_success
provide_missing_transactions_success-RoundTrips m h =
    seq-RoundTrips _ (u32-RoundTrips m.request_id h.0) (
      seq-RoundTrips _
        (seq0_64k-RoundTrips write_b0_16m read_b0_16m _ b0_16m-RoundTrips m.transaction_list h.1
          h.2)
        (end-RoundTrips m))
