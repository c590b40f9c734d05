-- ===== src/Sv2/Frame/Reader.antt =====
-- Sv2FrameReader and Sv2FrameWriter of src/models/sv2/sv2-frame.ts.
use blitzpool.Prelude.{
  ℕ, zero, suc, ◌+◌, ◌*◌, List, [], ◌∷◌, ◌++◌, Option, none, some, ltb, if◌then◌else◌, length, take,
  drop,
}
use blitzpool.Sv2.Codec.{Bytes}
use blitzpool.Sv2.Frame.{
  Sv2FrameHeader, ParsedFrame, encode_frame_header, decode_frame_header,
  plaintext_to_ciphertext_length, sv2_header_size, sv2_encrypted_header_size,
  sv2_max_plaintext_chunk, chunk_size,
}

-- The reader is in READING_PAYLOAD where it has a header, else in READING_HEADER. With no cipher
-- it reads plaintext.
pub record Sv2FrameReader (S : Type 0) : Type 0 where
  pub cipher : Option S
  pub buf : Bytes
  pub current_header : Option Sv2FrameHeader

-- What one part of a pass of the reader's loop comes to: the loop breaks, an error is thrown, or
-- it goes on, with a frame or without.
pub data Step (S : Type 0) : Type 0 where
  waits : Step S
  fails : Step S
  moves : List ParsedFrame → Sv2FrameReader S → Step S

module _ {S : Type 0} where
  unfoldable pub new_reader : Option S → Sv2FrameReader S
  new_reader cipher = record { cipher = cipher; buf = []; current_header = none }

  unfoldable pub set_decrypt_fn : S → Sv2FrameReader S → Sv2FrameReader S
  set_decrypt_fn s m = record m { cipher = some s }

  unfoldable pub header_size : Option S → ℕ
  header_size none = sv2_header_size
  header_size (some s) = sv2_encrypted_header_size

  -- `payloadWireLen`.
  unfoldable pub payload_wire_len : Option S → Sv2FrameHeader → ℕ
  payload_wire_len none h = h.msg_length
  payload_wire_len (some s) h = plaintext_to_ciphertext_length h.msg_length

  abbrev pub with_cipher : Option (Bytes × S) → Option (Bytes × Option S)
  with_cipher none = none
  with_cipher (some (bytes, s)) = some (bytes, some s)

module _ {S : Type 0} (decrypt : S → Bytes → Option (Bytes × S)) where
  -- The loop over the chunks; as many rounds as there are bytes are enough.
  unfoldable pub decrypt_payload_chunks : ℕ → S → Bytes → Option (Bytes × S)
  decrypt_payload_chunks zero s ciphertext = some ([], s)
  decrypt_payload_chunks (suc fuel) s [] = some ([], s)
  decrypt_payload_chunks (suc fuel) s (b ∷ bs) = elim (decrypt s (take chunk_size (b ∷ bs))) [
    | none ↦ none
    | some (part, s') ↦ elim (decrypt_payload_chunks fuel s' (drop chunk_size (b ∷ bs))) [
      | none ↦ none
      | some (parts, s'') ↦ some (part ++ parts, s'')
    ]
  ]

  unfoldable pub open_header : Option S → Bytes → Option (Bytes × Option S)
  open_header none bs = some (bs, none)
  open_header (some s) bs = with_cipher (decrypt s bs)

  unfoldable pub open_payload : Option S → Bytes → Option (Bytes × Option S)
  open_payload none bs = some (bs, none)
  open_payload (some s) bs = with_cipher (decrypt_payload_chunks (length bs) s bs)

module _ {S : Type 0} where
  abbrev pub with_header : Bytes → Option S → Option (Sv2FrameHeader × Bytes) → Step S
  with_header rest cipher none = fails
  with_header rest cipher (some (header, trailing)) =
      moves [] (record { cipher = cipher; buf = rest; current_header = some header })

  unfoldable pub got_header : Bytes → Option (Bytes × Option S) → Step S
  got_header rest none = fails
  got_header rest (some (bytes, cipher)) = with_header rest cipher (decode_frame_header bytes)

  unfoldable pub got_payload : Sv2FrameHeader → Bytes → Option (Bytes × Option S) → Step S
  got_payload header rest none = fails
  got_payload header rest (some (payload, cipher)) =
      moves (record { header = header; payload = payload } ∷ [])
        (record { cipher = cipher; buf = rest; current_header = none })

  abbrev pub with_frames :
      List ParsedFrame
      → Option (List ParsedFrame × Sv2FrameReader S)
      → Option (List ParsedFrame × Sv2FrameReader S)
  with_frames fs none = none
  with_frames fs (some (gs, m)) = some (fs ++ gs, m)

  abbrev pub resume :
      (Sv2FrameReader S → Option (List ParsedFrame × Sv2FrameReader S))
      → Sv2FrameReader S
      → Step S
      → Option (List ParsedFrame × Sv2FrameReader S)
  resume next m waits = some ([], m)
  resume next m fails = none
  resume next m (moves fs m') = with_frames fs (next m')

  -- What a part of a pass takes off: bytes, or the header.
  abbrev pub measure : Sv2FrameReader S → ℕ
  measure m = length m.buf * 2 + elim m.current_header [ none ↦ 0 | some h ↦ 1 ]

  abbrev pub received : Bytes → Sv2FrameReader S → Sv2FrameReader S
  received incoming m = record m { buf = m.buf ++ incoming }

module _ {S : Type 0} (decrypt : S → Bytes → Option (Bytes × S)) where
  -- The part of a pass that the reader's state calls for.
  unfoldable pub step_in : Option S → Bytes → Option Sv2FrameHeader → Step S
  unfolding got_header got_payload
  step_in cipher buf none =
      let n = header_size cipher in
      if ltb (length buf) n
      then waits
      else got_header (drop n buf) (open_header decrypt cipher (take n buf))
  step_in cipher buf (some header) =
      let n = payload_wire_len cipher header in
      if ltb (length buf) n
      then waits
      else got_payload header (drop n buf) (open_payload decrypt cipher (take n buf))

  abbrev pub step : Sv2FrameReader S → Step S
  step m = step_in m.cipher m.buf m.current_header

  -- The loop until it breaks. `none` is an error.
  unfoldable pub run : ℕ → Sv2FrameReader S → Option (List ParsedFrame × Sv2FrameReader S)
  run zero m = none
  run (suc fuel) m = resume (run fuel) m (step m)

  abbrev pub run_all : Sv2FrameReader S → Option (List ParsedFrame × Sv2FrameReader S)
  run_all m = run (suc (measure m)) m

  unfoldable pub feed : Bytes → Sv2FrameReader S → Option (List ParsedFrame × Sv2FrameReader S)
  feed incoming m = run_all (received incoming m)

module _ {S : Type 0} (encrypt : S → Bytes → Bytes × S) where
  unfoldable pub encrypt_chunks : ℕ → S → Bytes → Bytes × S
  encrypt_chunks zero s payload = ([], s)
  encrypt_chunks (suc fuel) s [] = ([], s)
  encrypt_chunks (suc fuel) s (b ∷ bs) =
      let (part, s') = encrypt s (take sv2_max_plaintext_chunk (b ∷ bs)) in
      let (parts, s'') = encrypt_chunks fuel s' (drop sv2_max_plaintext_chunk (b ∷ bs)) in
      (part ++ parts, s'')

  unfoldable pub seal : Option S → Bytes → Bytes → Bytes × Option S
  seal none header payload = (header ++ payload, none)
  seal (some s) header payload =
      let (enc_header, s') = encrypt s header in
      let (parts, s'') = encrypt_chunks (length payload) s' payload in
      (enc_header ++ parts, some s'')

  abbrev pub sealed : Option S → Bytes → Option Bytes → Option (Bytes × Option S)
  sealed cipher payload none = none
  sealed cipher payload (some header) = some (seal cipher header payload)

  unfoldable pub write_frame : Option S → Sv2FrameHeader → Bytes → Option (Bytes × Option S)
  write_frame cipher h payload = sealed cipher payload (encode_frame_header h)
