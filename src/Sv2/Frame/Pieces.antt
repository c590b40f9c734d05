-- ===== src/Sv2/Frame/Pieces.antt =====
-- The steps of Sv2FrameReader in src/models/sv2/sv2-frame.ts with further bytes behind the buffer,
-- and the fuel of its loop.
use blitzpool.Prelude.{
  ℕ, zero, suc, ◌+◌, ◌*◌, ◌≤◌, ◌<◌, ◌≡◌, refl, ap, inl, inr, ◌⊎◌, false, List, [], ◌∷◌, ◌++◌,
  Option, none, some, ltb, length, take, drop, arith, Bool-cases, ltb→ge, ge→ltb, length-append,
  length-drop,
}
use blitzpool.Sv2.Codec.{Bytes}
use blitzpool.Sv2.Frame.{Sv2FrameHeader, ParsedFrame, decode_frame_header}
use blitzpool.Sv2.Frame.Reader.{
  Sv2FrameReader, Step, waits, fails, moves, header_size, payload_wire_len, got_header, got_payload,
  step_in, step, with_header, with_frames, resume, run, measure, received,
}

take-append : (n : ℕ) (xs ys : Bytes) → n ≤ length xs → take n (xs ++ ys) ≡ take n xs
take-append zero xs ys h = refl
take-append (suc n) [] ys h = absurd (omega arith)
take-append (suc n) (x ∷ xs) ys h = rw (take-append n xs ys (omega arith)) refl

drop-append : (n : ℕ) (xs ys : Bytes) → n ≤ length xs → drop n (xs ++ ys) ≡ drop n xs ++ ys
drop-append zero xs ys h = refl
drop-append (suc n) [] ys h = absurd (omega arith)
drop-append (suc n) (x ∷ xs) ys h = drop-append n xs ys (omega arith)

module _ {S : Type 0} where
  -- A step, with further bytes behind those of the buffer.
  abbrev pub further : Bytes → Step S → Step S
  further b waits = waits
  further b fails = fails
  further b (moves fs m) = moves fs (received b m)

  with_header-further :
      (rest b : Bytes) (cipher : Option S) (o : Option (Sv2FrameHeader × Bytes))
      → with_header (rest ++ b) cipher o ≡ further b (with_header rest cipher o)
  with_header-further rest b cipher none = refl
  with_header-further rest b cipher (some (header, trailing)) = refl

  got_header-further :
      (rest b : Bytes) (o : Option (Bytes × Option S))
      → got_header (rest ++ b) o ≡ further b (got_header rest o)
  unfolding got_header
  got_header-further rest b none = refl
  got_header-further rest b (some (bytes, cipher)) =
      with_header-further rest b cipher (decode_frame_header bytes)

  got_payload-further :
      (h : Sv2FrameHeader) (rest b : Bytes) (o : Option (Bytes × Option S))
      → got_payload h (rest ++ b) o ≡ further b (got_payload h rest o)
  unfolding got_payload
  got_payload-further h rest b none = refl
  got_payload-further h rest b (some (payload, cipher)) = refl

  -- A step goes on to a state of a smaller measure.
  abbrev pub Takes : ℕ → Step S → Type 0
  Takes k waits = Unit {0}
  Takes k fails = Unit {0}
  Takes k (moves fs m) = measure m < k

  with_header-Takes :
      (rest : Bytes) (k : ℕ) (cipher : Option S) (o : Option (Sv2FrameHeader × Bytes))
      → length rest * 2 + 1 < k
      → Takes k (with_header rest cipher o)
  with_header-Takes rest k cipher none h = tt
  with_header-Takes rest k cipher (some (header, trailing)) h = h

  got_header-Takes :
      (rest : Bytes) (k : ℕ) (o : Option (Bytes × Option S))
      → length rest * 2 + 1 < k
      → Takes k (got_header rest o)
  unfolding got_header
  got_header-Takes rest k none h = tt
  got_header-Takes rest k (some (bytes, cipher)) h = with_header-Takes rest k cipher _ h

  got_payload-Takes :
      (header : Sv2FrameHeader) (rest : Bytes) (k : ℕ) (o : Option (Bytes × Option S))
      → length rest * 2 < k
      → Takes k (got_payload header rest o)
  unfolding got_payload
  got_payload-Takes header rest k none h = tt
  got_payload-Takes header rest k (some (payload, cipher)) h = omega (arith, h)

  header_size-pos : (cipher : Option S) → 0 < header_size cipher
  unfolding header_size
  header_size-pos none = omega arith
  header_size-pos (some s) = omega arith

  resume-eq :
      (next next' : Sv2FrameReader S → Option (List ParsedFrame × Sv2FrameReader S))
      (m : Sv2FrameReader S) (k : ℕ) (s : Step S)
      → Takes k s
      → ((m' : Sv2FrameReader S) → measure m' < k → next m' ≡ next' m')
      → resume next m s ≡ resume next' m s
  resume-eq next next' m k waits h e = refl
  resume-eq next next' m k fails h e = refl
  resume-eq next next' m k (moves fs m') h e = ap (with_frames fs) (e m' h)

module _ {S : Type 0} (decrypt : S → Bytes → Option (Bytes × S)) where
  -- A step that does not wait is the same with more bytes in the buffer.
  pub step-further :
      (cipher : Option S) (buf b : Bytes) (h : Option Sv2FrameHeader)
      → (step_in decrypt cipher buf h ≡ waits)
        ⊎ (step_in decrypt cipher (buf ++ b) h ≡ further b (step_in decrypt cipher buf h))
  unfolding step_in
  step-further cipher buf b none = elim (Bool-cases (ltb (length buf) (header_size cipher))) [
    | inl e ↦ inl (rw e refl)
    | inr e ↦
        let room = ltb→ge _ _ e in
        let more : ltb (length (buf ++ b)) (header_size cipher) ≡ false =
          ge→ltb _ _ (omega (arith, room, length-append buf b)) in
        inr (
          rw
            (
              e,
              more,
              take-append (header_size cipher) buf b room,
              drop-append (header_size cipher) buf b room,
            )
            (got_header-further (drop (header_size cipher) buf) b _))
  ]
  step-further cipher buf b (some h) =
      elim (Bool-cases (ltb (length buf) (payload_wire_len cipher h))) [
        | inl e ↦ inl (rw e refl)
        | inr e ↦
            let room = ltb→ge _ _ e in
            let more : ltb (length (buf ++ b)) (payload_wire_len cipher h) ≡ false =
              ge→ltb _ _ (omega (arith, room, length-append buf b)) in
            inr (
              rw
                (
                  e,
                  more,
                  take-append (payload_wire_len cipher h) buf b room,
                  drop-append (payload_wire_len cipher h) buf b room,
                )
                (got_payload-further h (drop (payload_wire_len cipher h) buf) b _))
      ]

  step_in-Takes :
      (cipher : Option S) (buf : Bytes) (h : Option Sv2FrameHeader)
      → Takes (length buf * 2 + elim h [ none ↦ 0 | some h ↦ 1 ]) (step_in decrypt cipher buf h)
  unfolding step_in
  step_in-Takes cipher buf none = elim (Bool-cases (ltb (length buf) (header_size cipher))) [
    | inl e ↦ rw e tt
    | inr e ↦ rw e (
        got_header-Takes (drop (header_size cipher) buf) _ _ (
          omega
            (arith, ltb→ge _ _ e, header_size-pos cipher, length-drop (header_size cipher) buf)))
  ]
  step_in-Takes cipher buf (some h) =
      elim (Bool-cases (ltb (length buf) (payload_wire_len cipher h))) [
        | inl e ↦ rw e tt
        | inr e ↦ rw e (
            got_payload-Takes h (drop (payload_wire_len cipher h) buf) _ _
              (omega (arith, ltb→ge _ _ e, length-drop (payload_wire_len cipher h) buf)))
      ]

  pub step-Takes : (m : Sv2FrameReader S) → Takes (measure m) (step decrypt m)
  step-Takes m = step_in-Takes m.cipher m.buf m.current_header

  -- Enough fuel is as good as any.
  pub run-fuel :
      (f g : ℕ) (m : Sv2FrameReader S)
      → measure m < f
      → measure m < g
      → run decrypt f m ≡ run decrypt g m
  unfolding run
  run-fuel zero g m h k = absurd (omega (arith, h))
  run-fuel (suc f) zero m h k = absurd (omega (arith, k))
  run-fuel (suc f) (suc g) m h k =
      resume-eq (run decrypt f) (run decrypt g) m (measure m) (step decrypt m) (step-Takes m)
        (λ m' less. run-fuel f g m' (omega (arith, h, less)) (omega (arith, k, less)))
