-- ===== src/Sv2/Frame/Written.antt =====
-- Sv2FrameReader on what Sv2FrameWriter wrote, in src/models/sv2/sv2-frame.ts.
use mathlib.Core.List.{append_assoc, append-nil}
use blitzpool.Prelude.{
  ℕ, suc, ◌+◌, ◌<◌, ◌≡◌, refl, ap, sym, ◌∙◌, List, [], ◌∷◌, ◌++◌, Option, none, some, length, arith,
  length-append, ge→ltb,
}
use blitzpool.Sv2.Codec.{Bytes, Put, u16_max, u24_max, write_u16, write_u8, write_u24, le_bytes}
use blitzpool.Sv2.Codec.Roundtrip.{
  RoundTrips, seq-RoundTrips, end-RoundTrips, u8-RoundTrips, u16-RoundTrips, u24-RoundTrips,
}
use blitzpool.Sv2.Frame.{
  Sv2FrameHeader, ParsedFrame, encode_frame_header, decode_frame_header,
  plaintext_to_ciphertext_length, sv2_mac_size,
}
use blitzpool.Sv2.Frame.Reader.{
  Sv2FrameReader, moves, new_reader, header_size, payload_wire_len, with_cipher, open_header,
  open_payload, got_header, got_payload, step_in, step, with_frames, resume, run, run_all, measure,
  feed, seal, sealed, write_frame, encrypt_chunks,
}
use blitzpool.Sv2.Frame.Feed.{no_frames}
use blitzpool.Sv2.Frame.Pieces.{Takes, step-Takes, run-fuel}
use blitzpool.Sv2.Frame.Chunks.{
  take-whole, drop-whole, length-encrypt_chunks, decrypt_payload_chunks-encrypt_chunks,
}

abbrev pub HeaderFits : Sv2FrameHeader → Type 0
HeaderFits h = (h.extension_type < u16_max) × (h.msg_type < 256) × (h.msg_length < u24_max)

-- A header in range can be encoded, and decodes to what it was.
pub frame_header-RoundTrips :
    (h : Sv2FrameHeader) → HeaderFits h → RoundTrips (encode_frame_header h) decode_frame_header h
unfolding encode_frame_header decode_frame_header
frame_header-RoundTrips h fits = seq-RoundTrips _ (u16-RoundTrips h.extension_type fits.0) (
    seq-RoundTrips _ (u8-RoundTrips h.msg_type fits.1)
      (seq-RoundTrips _ (u24-RoundTrips h.msg_length fits.2) (end-RoundTrips h)))

length_of : Put → ℕ
length_of none = 6
length_of (some bs) = length bs

length-encode_frame_header :
    (h : Sv2FrameHeader) (bs : Bytes) → encode_frame_header h ≡ some bs → length bs ≡ 6
unfolding encode_frame_header length_of write_u16 write_u8 write_u24 le_bytes
length-encode_frame_header h bs e = sym (ap length_of e) ∙ six
  where
    six : length_of (encode_frame_header h) ≡ 6
    six = ground arith

module _ {S : Type 0} (decrypt : S → Bytes → Option (Bytes × S)) where
  run_all-moves :
      (m m' : Sv2FrameReader S) (fs : List ParsedFrame)
      → step decrypt m ≡ moves fs m'
      → run_all decrypt m ≡ with_frames fs (run_all decrypt m')
  unfolding run
  run_all-moves m m' fs e =
      let less : Takes (measure m) (moves fs m') = rw e at (step-Takes decrypt m) in
      ap (resume (run decrypt (measure m)) m) e
      ∙ ap (with_frames fs) (run-fuel decrypt (measure m) (suc (measure m')) m' less (omega arith))

  step_header :
      (cipher cipher' : Option S) (wire rest bytes : Bytes) (h : Sv2FrameHeader)
      → length wire ≡ header_size cipher
      → open_header decrypt cipher wire ≡ some (bytes, cipher')
      → decode_frame_header bytes ≡ some (h, [])
      → step_in decrypt cipher (wire ++ rest) none
        ≡ moves [] (record { cipher = cipher'; buf = rest; current_header = some h })
  unfolding step_in got_header
  step_header cipher cipher' wire rest bytes h size opened decoded =
      rw
        (
          ge→ltb (length (wire ++ rest)) (header_size cipher)
              (omega (arith, size, length-append wire rest)),
          take-whole (header_size cipher) wire rest size,
          drop-whole (header_size cipher) wire rest size,
          opened,
          decoded,
        )
        refl

  step_payload :
      (cipher cipher' : Option S) (wire rest payload : Bytes) (h : Sv2FrameHeader)
      → length wire ≡ payload_wire_len cipher h
      → open_payload decrypt cipher wire ≡ some (payload, cipher')
      → step_in decrypt cipher (wire ++ rest) (some h)
        ≡ moves
            (record { header = h; payload = payload } ∷ [])
            (record { cipher = cipher'; buf = rest; current_header = none })
  unfolding step_in got_payload
  step_payload cipher cipher' wire rest payload h size opened =
      rw
        (
          ge→ltb (length (wire ++ rest)) (payload_wire_len cipher h)
              (omega (arith, size, length-append wire rest)),
          take-whole (payload_wire_len cipher h) wire rest size,
          drop-whole (payload_wire_len cipher h) wire rest size,
          opened,
        )
        refl

-- The frame can be written; and in front of whatever comes behind it, the reader gives the frame
-- and goes on where the writer stopped.
pub record FrameRoundTrips {S : Type 0} (encrypt : S → Bytes → Bytes × S)
    (decrypt : S → Bytes → Option (Bytes × S)) (cipher : Option S) (h : Sv2FrameHeader)
    (payload : Bytes) : Type 0 where
  pub wire : Bytes
  pub after : Option S
  pub written : write_frame encrypt cipher h payload ≡ some (wire, after)
  pub read_back :
      (rest : Bytes)
      → feed decrypt (wire ++ rest) (new_reader cipher)
        ≡ with_frames
            (record { header = h; payload = payload } ∷ [])
            (feed decrypt rest (new_reader after))

module _ {S : Type 0} (encrypt : S → Bytes → Bytes × S)
    (decrypt : S → Bytes → Option (Bytes × S)) where
  -- The two parts of a frame on the wire, read one after the other.
  feed_parts :
      (cipher between after : Option S) (first second bytes payload rest : Bytes)
      (h : Sv2FrameHeader)
      → length first ≡ header_size cipher
      → open_header decrypt cipher first ≡ some (bytes, between)
      → decode_frame_header bytes ≡ some (h, [])
      → length second ≡ payload_wire_len between h
      → open_payload decrypt between second ≡ some (payload, after)
      → feed decrypt (first ++ second ++ rest) (new_reader cipher)
        ≡ with_frames
            (record { header = h; payload = payload } ∷ [])
            (feed decrypt rest (new_reader after))
  unfolding feed new_reader
  feed_parts cipher between after first second bytes payload rest h size opened decoded size'
        opened' =
      rw (append_assoc first second rest) (
        run_all-moves decrypt _ _ []
          (step_header decrypt cipher between first (second ++ rest) bytes h size opened decoded)
        ∙ no_frames (run_all decrypt _)
        ∙ run_all-moves decrypt _ _ _
            (step_payload decrypt between after second rest payload h size' opened'))

  module _ (grows : (s : S) (p : Bytes) → length (encrypt s p).0 ≡ length p + sv2_mac_size)
      (opens : (s : S) (p : Bytes) → decrypt s (encrypt s p).0 ≡ some (p, (encrypt s p).1)) where
    -- A frame whose header is in range and says the length of its payload, written in plaintext or
    -- through a cipher, is read back as it was, with the reader's cipher where the writer's is, and
    -- the bytes behind it are read as if they came first. Of the cipher it is supposed that a
    -- ciphertext is longer by its MAC, and that the two ends of a cipher decrypt in step.
    pub write_frame-RoundTrips :
        (cipher : Option S) (h : Sv2FrameHeader) (payload : Bytes)
        → HeaderFits h
        → length payload ≡ h.msg_length
        → FrameRoundTrips encrypt decrypt cipher h payload
    unfolding write_frame seal
    write_frame-RoundTrips none h payload fits size =
        let rt = frame_header-RoundTrips h fits in
        record {
          wire = rt.bytes ++ payload;
          after = none;
          written = ap (sealed encrypt none payload) rt.written;
          read_back = λ rest.
              feed_parts none none none rt.bytes payload rt.bytes payload rest h
                (unfold header_size in length-encode_frame_header h rt.bytes rt.written)
                (unfold open_header in refl) (rw (append-nil rt.bytes) at (rt.read_back []))
                (unfold payload_wire_len in size) (unfold open_payload in refl);
        }
    write_frame-RoundTrips (some s) h payload fits size =
        let rt = frame_header-RoundTrips h fits in
        let first = encrypt s rt.bytes in
        let parts = encrypt_chunks encrypt (length payload) first.1 payload in
        let six = length-encode_frame_header h rt.bytes rt.written in
        record {
          wire = first.0 ++ parts.0;
          after = some parts.1;
          written = ap (sealed encrypt (some s) payload) rt.written;
          read_back = λ rest.
              feed_parts (some s) (some first.1) (some parts.1) first.0 parts.0 rt.bytes payload
                rest h (unfold header_size in omega (arith, grows s rt.bytes, six))
                (unfold open_header in ap with_cipher (opens s rt.bytes))
                (rw (append-nil rt.bytes) at (rt.read_back []))
                (unfold payload_wire_len in
                  length-encrypt_chunks encrypt grows (length payload) first.1 payload (omega arith)
                  ∙ ap plaintext_to_ciphertext_length size)
                (unfold open_payload in
                  ap with_cipher (
                    decrypt_payload_chunks-encrypt_chunks encrypt grows decrypt opens
                      (length payload) (length parts.0) first.1 payload (omega arith)
                      (omega arith)));
        }
