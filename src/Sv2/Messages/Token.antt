-- ===== src/Sv2/Messages/Token.antt =====
-- The tokens of the Job Declaration Protocol, and its solutions, in src/models/sv2/sv2-jdp-messages.ts.
use blitzpool.Prelude.{ℕ, ◌≤◌, ◌<◌, ◌≡◌, length}
use blitzpool.Sv2.Codec.{
  Bytes, Put, Get, ◌>>◌, ◌>>=◌, to_buffer, pure, u32_max, read_b0_255, read_b0_32, read_b0_64k,
  read_str0_255, read_u256, read_u32, write_b0_255, write_b0_32, write_b0_64k, write_str0_255,
  write_u256, write_u32,
}
use blitzpool.Sv2.Codec.Roundtrip.{
  RoundTrips, seq-RoundTrips, end-RoundTrips, b0_255-RoundTrips, b0_32-RoundTrips,
  b0_64k-RoundTrips, str0_255-RoundTrips, u256-RoundTrips, u32-RoundTrips,
}

pub record Sv2AllocateMiningJobToken : Type 0 where
  pub user_identifier : Bytes
  pub request_id : ℕ

unfoldable pub serialize_allocate_mining_job_token : Sv2AllocateMiningJobToken → Put
serialize_allocate_mining_job_token m = do
  write_str0_255 m.user_identifier
  write_u32 m.request_id
  to_buffer

unfoldable pub deserialize_allocate_mining_job_token : Get Sv2AllocateMiningJobToken
deserialize_allocate_mining_job_token = do
  user_identifier ← read_str0_255
  request_id ← read_u32
  pure (record { user_identifier = user_identifier; request_id = request_id })

-- The fields are in the ranges of their types.
abbrev pub AllocateMiningJobTokenFits : Sv2AllocateMiningJobToken → Type 0
AllocateMiningJobTokenFits m = (length m.user_identifier ≤ 255) × (m.request_id < u32_max)

-- Every message in range can be written, and what is written reads back as it was.
pub allocate_mining_job_token-RoundTrips :
    (m : Sv2AllocateMiningJobToken)
    → AllocateMiningJobTokenFits m
    → RoundTrips (serialize_allocate_mining_job_token m) deserialize_allocate_mining_job_token m
unfolding serialize_allocate_mining_job_token deserialize_allocate_mining_job_token
allocate_mining_job_token-RoundTrips m h =
    seq-RoundTrips _ (str0_255-RoundTrips m.user_identifier h.0)
      (seq-RoundTrips _ (u32-RoundTrips m.request_id h.1) (end-RoundTrips m))

pub record Sv2AllocateMiningJobTokenSuccess : Type 0 where
  pub request_id : ℕ
  pub mining_job_token : Bytes
  pub coinbase_outputs : Bytes

unfoldable pub serialize_allocate_mining_job_token_success : Sv2AllocateMiningJobTokenSuccess → Put
serialize_allocate_mining_job_token_success m = do
  write_u32 m.request_id
  write_b0_255 m.mining_job_token
  write_b0_64k m.coinbase_outputs
  to_buffer

unfoldable pub deserialize_allocate_mining_job_token_success : Get Sv2AllocateMiningJobTokenSuccess
deserialize_allocate_mining_job_token_success = do
  request_id ← read_u32
  mining_job_token ← read_b0_255
  coinbase_outputs ← read_b0_64k
  pure (record {
    request_id = request_id;
    mining_job_token = mining_job_token;
    coinbase_outputs = coinbase_outputs;
  })

-- The fields are in the ranges of their types.
abbrev pub AllocateMiningJobTokenSuccessFits : Sv2AllocateMiningJobTokenSuccess → Type 0
AllocateMiningJobTokenSuccessFits m =
    (m.request_id < u32_max)
    × (length m.mining_job_token ≤ 255)
    × (length m.coinbase_outputs ≤ 65535)

-- Every message in range can be written, and what is written reads back as it was.
pub allocate_mining_job_token_success-RoundTrips :
    (m : Sv2AllocateMiningJobTokenSuccess)
    → AllocateMiningJobTokenSuccessFits m
    → RoundTrips
        (serialize_allocate_mining_job_token_success m)
        deserialize_allocate_mining_job_token_success
        m
unfolding serialize_allocate_mining_job_token_success deserialize_allocate_mining_job_token_success
allocate_mining_job_token_success-RoundTrips m h =
    seq-RoundTrips _ (u32-RoundTrips m.request_id h.0) (
      seq-RoundTrips _ (b0_255-RoundTrips m.mining_job_token h.1)
        (seq-RoundTrips _ (b0_64k-RoundTrips m.coinbase_outputs h.2) (end-RoundTrips m)))

pub record Sv2PushSolution : Type 0 where
  pub extranonce : Bytes
  pub prev_hash : Bytes
  pub nonce : ℕ
  pub ntime : ℕ
  pub n_bits : ℕ
  pub version : ℕ

unfoldable pub serialize_push_solution : Sv2PushSolution → Put
serialize_push_solution m = do
  write_b0_32 m.extranonce
  write_u256 m.prev_hash
  write_u32 m.nonce
  write_u32 m.ntime
  write_u32 m.n_bits
  write_u32 m.version
  to_buffer

unfoldable pub deserialize_push_solution : Get Sv2PushSolution
deserialize_push_solution = do
  extranonce ← read_b0_32
  prev_hash ← read_u256
  nonce ← read_u32
  ntime ← read_u32
  n_bits ← read_u32
  version ← read_u32
  pure (record {
    extranonce = extranonce;
    prev_hash = prev_hash;
    nonce = nonce;
    ntime = ntime;
    n_bits = n_bits;
    version = version;
  })

-- The fields are in the ranges of their types.
abbrev pub PushSolutionFits : Sv2PushSolution → Type 0
PushSolutionFits m =
    (length m.extranonce ≤ 32)
    × (length m.prev_hash ≡ 32)
    × (m.nonce < u32_max)
    × (m.ntime < u32_max)
    × (m.n_bits < u32_max)
    × (m.version < u32_max)

-- Every message in range can be written, and what is written reads back as it was.
pub push_solution-RoundTrips :
    (m : Sv2PushSolution)
    → PushSolutionFits m
    → RoundTrips (serialize_push_solution m) deserialize_push_solution m
unfolding serialize_push_solution deserialize_push_solution
push_solution-RoundTrips m h = seq-RoundTrips _ (b0_32-RoundTrips m.extranonce h.0) (
    seq-RoundTrips _ (u256-RoundTrips m.prev_hash h.1) (
      seq-RoundTrips _ (u32-RoundTrips m.nonce h.2) (
        seq-RoundTrips _ (u32-RoundTrips m.ntime h.3) (
          seq-RoundTrips _ (u32-RoundTrips m.n_bits h.4)
            (seq-RoundTrips _ (u32-RoundTrips m.version h.5) (end-RoundTrips m))))))
