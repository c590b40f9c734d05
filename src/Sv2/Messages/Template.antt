-- ===== src/Sv2/Messages/Template.antt =====
-- The templates of the Template Distribution Protocol, in src/models/sv2/sv2-tdp-messages.ts.
use blitzpool.Prelude.{ℕ, ◌≤◌, ◌<◌, ◌≡◌, Bool, List, All, length}
use blitzpool.Sv2.Codec.{
  Bytes, Put, Get, ◌>>◌, ◌>>=◌, to_buffer, pure, u16_max, u32_max, u64_max, read_b0_255,
  read_b0_64k, read_bool, read_seq0_255, read_u16, read_u256, read_u32, read_u64, write_b0_255,
  write_b0_64k, write_bool, write_seq0_255, write_u16, write_u256, write_u32, write_u64,
}
use blitzpool.Sv2.Codec.Roundtrip.{
  RoundTrips, seq-RoundTrips, end-RoundTrips, b0_255-RoundTrips, b0_64k-RoundTrips, bool-RoundTrips,
  seq0_255-RoundTrips, u16-RoundTrips, u256-RoundTrips, u32-RoundTrips, u64-RoundTrips,
}

pub record Sv2TdpCoinbaseOutputConstraints : Type 0 where
  pub coinbase_output_max_additional_size : ℕ
  pub coinbase_output_max_additional_sigops : ℕ

unfoldable pub serialize_tdp_coinbase_output_constraints : Sv2TdpCoinbaseOutputConstraints → Put
serialize_tdp_coinbase_output_constraints m = do
  write_u32 m.coinbase_output_max_additional_size
  write_u16 m.coinbase_output_max_additional_sigops
  to_buffer

unfoldable pub deserialize_tdp_coinbase_output_constraints : Get Sv2TdpCoinbaseOutputConstraints
deserialize_tdp_coinbase_output_constraints = do
  coinbase_output_max_additional_size ← read_u32
  coinbase_output_max_additional_sigops ← read_u16
  pure (record {
    coinbase_output_max_additional_size = coinbase_output_max_additional_size;
    coinbase_output_max_additional_sigops = coinbase_output_max_additional_sigops;
  })

-- The fields are in the ranges of their types.
abbrev pub TdpCoinbaseOutputConstraintsFits : Sv2TdpCoinbaseOutputConstraints → Type 0
TdpCoinbaseOutputConstraintsFits m =
    (m.coinbase_output_max_additional_size < u32_max)
    × (m.coinbase_output_max_additional_sigops < u16_max)

-- Every message in range can be written, and what is written reads back as it was.
pub tdp_coinbase_output_constraints-RoundTrips :
    (m : Sv2TdpCoinbaseOutputConstraints)
    → TdpCoinbaseOutputConstraintsFits m
    → RoundTrips
        (serialize_tdp_coinbase_output_constraints m)
        deserialize_tdp_coinbase_output_constraints
        m
unfolding serialize_tdp_coinbase_output_constraints deserialize_tdp_coinbase_output_constraints
tdp_coinbase_output_constraints-RoundTrips m h =
    seq-RoundTrips _ (u32-RoundTrips m.coinbase_output_max_additional_size h.0) (
      seq-RoundTrips _ (u16-RoundTrips m.coinbase_output_max_additional_sigops h.1)
        (end-RoundTrips m))

pub record Sv2TdpNewTemplate : Type 0 where
  pub template_id : ℕ
  pub future_template : Bool
  pub version : ℕ
  pub coinbase_tx_version : ℕ
  pub coinbase_prefix : Bytes
  pub coinbase_tx_input_sequence : ℕ
  pub coinbase_tx_value_remaining : ℕ
  pub coinbase_tx_outputs_count : ℕ
  pub coinbase_tx_outputs : Bytes
  pub coinbase_tx_locktime : ℕ
  pub merkle_path : List Bytes

unfoldable pub serialize_tdp_new_template : Sv2TdpNewTemplate → Put
serialize_tdp_new_template m = do
  write_u64 m.template_id
  write_bool m.future_template
  write_u32 m.version
  write_u32 m.coinbase_tx_version
  write_b0_255 m.coinbase_prefix
  write_u32 m.coinbase_tx_input_sequence
  write_u64 m.coinbase_tx_value_remaining
  write_u32 m.coinbase_tx_outputs_count
  write_b0_64k m.coinbase_tx_outputs
  write_u32 m.coinbase_tx_locktime
  write_seq0_255 write_u256 m.merkle_path
  to_buffer

unfoldable pub deserialize_tdp_new_template : Get Sv2TdpNewTemplate
deserialize_tdp_new_template = do
  template_id ← read_u64
  future_template ← read_bool
  version ← read_u32
  coinbase_tx_version ← read_u32
  coinbase_prefix ← read_b0_255
  coinbase_tx_input_sequence ← read_u32
  coinbase_tx_value_remaining ← read_u64
  coinbase_tx_outputs_count ← read_u32
  coinbase_tx_outputs ← read_b0_64k
  coinbase_tx_locktime ← read_u32
  merkle_path ← read_seq0_255 read_u256
  pure (record {
    template_id = template_id;
    future_template = future_template;
    version = version;
    coinbase_tx_version = coinbase_tx_version;
    coinbase_prefix = coinbase_prefix;
    coinbase_tx_input_sequence = coinbase_tx_input_sequence;
    coinbase_tx_value_remaining = coinbase_tx_value_remaining;
    coinbase_tx_outputs_count = coinbase_tx_outputs_count;
    coinbase_tx_outputs = coinbase_tx_outputs;
    coinbase_tx_locktime = coinbase_tx_locktime;
    merkle_path = merkle_path;
  })

-- The fields are in the ranges of their types.
abbrev pub TdpNewTemplateFits : Sv2TdpNewTemplate → Type 0
TdpNewTemplateFits m =
    (m.template_id < u64_max)
    × (m.version < u32_max)
    × (m.coinbase_tx_version < u32_max)
    × (length m.coinbase_prefix ≤ 255)
    × (m.coinbase_tx_input_sequence < u32_max)
    × (m.coinbase_tx_value_remaining < u64_max)
    × (m.coinbase_tx_outputs_count < u32_max)
    × (length m.coinbase_tx_outputs ≤ 65535)
    × (m.coinbase_tx_locktime < u32_max)
    × (length m.merkle_path ≤ 255)
    × All (λ x. (length x ≡ 32)) m.merkle_path

-- Every message in range can be written, and what is written reads back as it was.
pub tdp_new_template-RoundTrips :
    (m : Sv2TdpNewTemplate)
    → TdpNewTemplateFits m
    → RoundTrips (serialize_tdp_new_template m) deserialize_tdp_new_template m
unfolding serialize_tdp_new_template deserialize_tdp_new_template
tdp_new_template-RoundTrips m h = seq-RoundTrips _ (u64-RoundTrips m.template_id h.0) (
    seq-RoundTrips _ (bool-RoundTrips m.future_template) (
      seq-RoundTrips _ (u32-RoundTrips m.version h.1) (
        seq-RoundTrips _ (u32-RoundTrips m.coinbase_tx_version h.2) (
          seq-RoundTrips _ (b0_255-RoundTrips m.coinbase_prefix h.3) (
            seq-RoundTrips _ (u32-RoundTrips m.coinbase_tx_input_sequence h.4) (
              seq-RoundTrips _ (u64-RoundTrips m.coinbase_tx_value_remaining h.5) (
                seq-RoundTrips _ (u32-RoundTrips m.coinbase_tx_outputs_count h.6) (
                  seq-RoundTrips _ (b0_64k-RoundTrips m.coinbase_tx_outputs h.7) (
                    seq-RoundTrips _ (u32-RoundTrips m.coinbase_tx_locktime h.8) (
                      seq-RoundTrips _
                        (seq0_255-RoundTrips write_u256 read_u256 _ u256-RoundTrips m.merkle_path
                          h.9 h.10)
                        (end-RoundTrips m)))))))))))

pub record Sv2TdpSetNewPrevHash : Type 0 where
  pub template_id : ℕ
  pub prev_hash : Bytes
  pub header_timestamp : ℕ
  pub n_bits : ℕ
  pub target : Bytes

unfoldable pub serialize_tdp_set_new_prev_hash : Sv2TdpSetNewPrevHash → Put
serialize_tdp_set_new_prev_hash m = do
  write_u64 m.template_id
  write_u256 m.prev_hash
  write_u32 m.header_timestamp
  write_u32 m.n_bits
  write_u256 m.target
  to_buffer

unfoldable pub deserialize_tdp_set_new_prev_hash : Get Sv2TdpSetNewPrevHash
deserialize_tdp_set_new_prev_hash = do
  template_id ← read_u64
  prev_hash ← read_u256
  header_timestamp ← read_u32
  n_bits ← read_u32
  target ← read_u256
  pure (record {
    template_id = template_id;
    prev_hash = prev_hash;
    header_timestamp = header_timestamp;
    n_bits = n_bits;
    target = target;
  })

-- The fields are in the ranges of their types.
abbrev pub TdpSetNewPrevHashFits : Sv2TdpSetNewPrevHash → Type 0
TdpSetNewPrevHashFits m =
    (m.template_id < u64_max)
    × (length m.prev_hash ≡ 32)
    × (m.header_timestamp < u32_max)
    × (m.n_bits < u32_max)
    × (length m.target ≡ 32)

-- Every message in range can be written, and what is written reads back as it was.
pub tdp_set_new_prev_hash-RoundTrips :
    (m : Sv2TdpSetNewPrevHash)
    → TdpSetNewPrevHashFits m
    → RoundTrips (serialize_tdp_set_new_prev_hash m) deserialize_tdp_set_new_prev_hash m
unfolding serialize_tdp_set_new_prev_hash deserialize_tdp_set_new_prev_hash
tdp_set_new_prev_hash-RoundTrips m h = seq-RoundTrips _ (u64-RoundTrips m.template_id h.0) (
    seq-RoundTrips _ (u256-RoundTrips m.prev_hash h.1) (
      seq-RoundTrips _ (u32-RoundTrips m.header_timestamp h.2) (
        seq-RoundTrips _ (u32-RoundTrips m.n_bits h.3)
          (seq-RoundTrips _ (u256-RoundTrips m.target h.4) (end-RoundTrips m)))))
