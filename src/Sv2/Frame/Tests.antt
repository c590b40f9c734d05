-- ===== src/Sv2/Frame/Tests.antt =====
-- The frames on small inputs, with a cipher that only appends a MAC.
use blitzpool.Prelude.{
  ℕ, suc, ◌+◌, ◌-◌, ◌≡◌, refl, ap, ◌∙◌, [], ◌∷◌, ◌++◌, Option, none, some, ltb, if◌then◌else◌,
  length, take, replicate, arith, length-append, length-replicate, ge→ltb,
}
use blitzpool.Sv2.Codec.{Bytes}
use blitzpool.Sv2.Frame.{Sv2FrameHeader}
use blitzpool.Sv2.Frame.Reader.{Sv2FrameReader, new_reader, feed}
use blitzpool.Sv2.Frame.Chunks.{take-whole}
use blitzpool.Sv2.Frame.Feed.{then_feed, feed-append}
use blitzpool.Sv2.Frame.Written.{FrameRoundTrips, write_frame-RoundTrips}

mac : ℕ → Bytes
mac nonce = replicate 16 nonce

encrypt : ℕ → Bytes → Bytes × ℕ
encrypt nonce p = (p ++ mac nonce, suc nonce)

decrypt : ℕ → Bytes → Option (Bytes × ℕ)
decrypt nonce c = if ltb (length c) 16 then none else some (take (length c - 16) c, suc nonce)

grows : (s : ℕ) (p : Bytes) → length (encrypt s p).0 ≡ length p + 16
unfolding encrypt mac
grows s p = length-append p (replicate 16 s) ∙ ap (length p +◌) (length-replicate 16 s)

opens : (s : ℕ) (p : Bytes) → decrypt s (encrypt s p).0 ≡ some (p, (encrypt s p).1)
unfolding decrypt encrypt
opens s p =
    let size = grows s p in
    rw
      (
        ge→ltb (length (encrypt s p).0) 16 (omega (arith, size)),
        take-whole (length (encrypt s p).0 - 16) p (mac s) (omega (arith, size)),
      )
      refl

abbrev header : Sv2FrameHeader
header = record { extension_type = 32768; msg_type = 21; msg_length = 3 }

abbrev payload : Bytes
payload = 1 ∷ 2 ∷ 3 ∷ []

write_frame-RoundTrips_example : FrameRoundTrips encrypt decrypt (some 7) header payload
write_frame-RoundTrips_example =
    write_frame-RoundTrips encrypt decrypt grows opens (some 7) header payload
      (omega arith, omega arith, omega arith) refl

-- A frame in plaintext, cut in its header.
abbrev reader : Sv2FrameReader ℕ
reader = new_reader none

feed-append_example :
    feed decrypt ((0 ∷ 128 ∷ 21 ∷ []) ++ 2 ∷ 0 ∷ 0 ∷ 9 ∷ 8 ∷ []) reader
    ≡ then_feed decrypt (2 ∷ 0 ∷ 0 ∷ 9 ∷ 8 ∷ []) (feed decrypt (0 ∷ 128 ∷ 21 ∷ []) reader)
feed-append_example = feed-append decrypt (0 ∷ 128 ∷ 21 ∷ []) (2 ∷ 0 ∷ 0 ∷ 9 ∷ 8 ∷ []) reader
