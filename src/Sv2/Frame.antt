-- ===== src/Sv2/Frame.antt =====
-- The frames of src/models/sv2/sv2-frame.ts: the header, the lengths of encrypted payloads, the
-- writer, and the reader that puts frames together from the pieces that TCP delivers.
-- The two functions of a cipher are parameters: they have a state, the nonce of the noise
-- handshake's keys, and decryption fails where the MAC does not fit. A reader or writer with no
-- cipher works in plaintext.
pub mod Reader
pub mod Lengths
pub mod Pieces
pub mod Feed
pub mod Chunks
pub mod Written
pub mod Tests
use blitzpool.Prelude.{
  ℕ, ◌+◌, ◌-◌, ◌*◌, ◌/◌, ◌%◌, Bool, Option, none, some, ltb, leb, ◌==◌, not, if◌then◌else◌,
}
use blitzpool.Sv2.Codec.{
  Bytes, Put, Get, ◌>>◌, ◌>>=◌, to_buffer, pure, read_u8, read_u16, read_u24, write_u8, write_u16,
  write_u24,
}

abbrev pub sv2_header_size : ℕ
sv2_header_size = 6

abbrev pub sv2_mac_size : ℕ
sv2_mac_size = 16

abbrev pub sv2_encrypted_header_size : ℕ
sv2_encrypted_header_size = sv2_header_size + sv2_mac_size

abbrev pub sv2_max_plaintext_chunk : ℕ
sv2_max_plaintext_chunk = 65519

-- A chunk with its MAC.
abbrev pub chunk_size : ℕ
chunk_size = sv2_max_plaintext_chunk + sv2_mac_size

pub record Sv2FrameHeader : Type 0 where
  pub extension_type : ℕ
  pub msg_type : ℕ
  pub msg_length : ℕ

-- The byte writes of the two functions are those of the codec.
unfoldable pub encode_frame_header : Sv2FrameHeader → Put
encode_frame_header h = do
  write_u16 h.extension_type
  write_u8 h.msg_type
  write_u24 h.msg_length
  to_buffer

unfoldable pub decode_frame_header : Get Sv2FrameHeader
decode_frame_header = do
  extension_type ← read_u16
  msg_type ← read_u8
  msg_length ← read_u24
  pure (record { extension_type = extension_type; msg_type = msg_type; msg_length = msg_length })

-- `& SV2_CHANNEL_MSG_FLAG`, the highest of the 16 bits.
unfoldable pub is_channel_message : Sv2FrameHeader → Bool
is_channel_message h = not (h.extension_type / 32768 % 2 == 0)

-- `none` is a RangeError in what follows.
unfoldable pub plaintext_to_ciphertext_length : ℕ → ℕ
plaintext_to_ciphertext_length n =
    let remainder = n % sv2_max_plaintext_chunk in
    let full = n / sv2_max_plaintext_chunk * chunk_size in
    if n == 0 then 0 else if ltb 0 remainder then full + (remainder + sv2_mac_size) else full

unfoldable pub ciphertext_to_plaintext_length : ℕ → Option ℕ
ciphertext_to_plaintext_length n =
    let remainder = n % chunk_size in
    let full = n / chunk_size * sv2_max_plaintext_chunk in
    if n == 0
    then some 0
    else if ltb 0 remainder
    then if leb remainder sv2_mac_size then none else some (full + (remainder - sv2_mac_size))
    else some full

pub record ParsedFrame : Type 0 where
  pub header : Sv2FrameHeader
  pub payload : Bytes
