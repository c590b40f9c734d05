-- ===== src/Sv2/Frame/Feed.antt =====
-- Sv2FrameReader.feed of src/models/sv2/sv2-frame.ts on a stream in pieces.
use mathlib.Core.List.{append_assoc}
use blitzpool.Prelude.{
  ℕ, zero, suc, ◌<◌, ◌≡◌, refl, ap, sym, ◌∙◌, inl, inr, ◌⊎◌, List, [], ◌++◌, Option, none, some,
  arith, length-append,
}
use blitzpool.Sv2.Codec.{Bytes}
use blitzpool.Sv2.Frame.{ParsedFrame}
use blitzpool.Sv2.Frame.Reader.{
  Sv2FrameReader, Step, waits, fails, moves, step, with_frames, resume, run, run_all, measure,
  received, feed,
}
use blitzpool.Sv2.Frame.Pieces.{further, Takes, step-further, step-Takes, run-fuel}

module _ {S : Type 0} where
  pub no_frames : (x : Option (List ParsedFrame × Sv2FrameReader S)) → with_frames [] x ≡ x
  no_frames none = refl
  no_frames (some (fs, m)) = refl

  more_frames :
      (fs gs : List ParsedFrame) (x : Option (List ParsedFrame × Sv2FrameReader S))
      → with_frames (fs ++ gs) x ≡ with_frames fs (with_frames gs x)
  more_frames fs gs none = refl
  more_frames fs gs (some (hs, m)) = rw (append_assoc fs gs hs) refl

module _ {S : Type 0} (decrypt : S → Bytes → Option (Bytes × S)) where
  -- The loop again on what it left, with further bytes.
  abbrev pub then_received :
      Bytes
      → Option (List ParsedFrame × Sv2FrameReader S)
      → Option (List ParsedFrame × Sv2FrameReader S)
  then_received b none = none
  then_received b (some (fs, m)) = with_frames fs (run_all decrypt (received b m))

  then_received-with_frames :
      (b : Bytes) (fs : List ParsedFrame) (x : Option (List ParsedFrame × Sv2FrameReader S))
      → with_frames fs (then_received b x) ≡ then_received b (with_frames fs x)
  then_received-with_frames b fs none = refl
  then_received-with_frames b fs (some (gs, m)) =
      sym (more_frames fs gs (run_all decrypt (received b m)))

  step-received :
      (m : Sv2FrameReader S) (b : Bytes) (s : Step S)
      → step decrypt m ≡ s
      → (s ≡ waits) ⊎ (step decrypt (received b m) ≡ further b s)
  step-received m b s e = elim (step-further decrypt m.cipher m.buf b m.current_header) [
    | inl w ↦ inl (sym e ∙ w)
    | inr k ↦ inr (k ∙ ap (further b) e)
  ]

  -- One step of a run on more bytes, from that the rest of the run can be split.
  received_once :
      (f : ℕ) (m : Sv2FrameReader S) (b : Bytes) (s : Step S)
      → step decrypt m ≡ s
      → measure (received b m) < suc f
      → ((m' : Sv2FrameReader S)
          → measure (received b m') < f
          → run decrypt f (received b m') ≡ then_received b (run decrypt f m'))
      → run decrypt (suc f) (received b m) ≡ then_received b (resume (run decrypt f) m s)
  unfolding run
  received_once f m b waits e h again =
      run-fuel decrypt (suc f) (suc (measure (received b m))) (received b m) h (omega arith)
      ∙ sym (no_frames (run_all decrypt (received b m)))
  received_once f m b fails e h again = elim (step-received m b fails e) [
    | inl w ↦ cc
    | inr k ↦ ap (resume (run decrypt f) (received b m)) k
  ]
  received_once f m b (moves fs m') e h again = elim (step-received m b (moves fs m') e) [
    | inl w ↦ cc
    | inr k ↦
        let less : Takes (measure (received b m)) (moves fs (received b m')) =
          rw k at (step-Takes decrypt (received b m)) in
        ap (resume (run decrypt f) (received b m)) k
        ∙ ap (with_frames fs) (again m' (omega (arith, h, less)))
        ∙ then_received-with_frames b fs (run decrypt f m')
  ]

  -- A run with further bytes behind the buffer is the run without them, and a second one on what it
  -- leaves and those bytes.
  run-received :
      (f : ℕ) (m : Sv2FrameReader S) (b : Bytes)
      → measure (received b m) < f
      → run decrypt f (received b m) ≡ then_received b (run decrypt f m)
  unfolding run
  run-received zero m b h = absurd (omega (arith, h))
  run-received (suc f) m b h =
      received_once f m b (step decrypt m) refl h (λ m' k. run-received f m' b k)

  -- What the reader does with the frames of two pieces, one after the other.
  abbrev pub then_feed :
      Bytes
      → Option (List ParsedFrame × Sv2FrameReader S)
      → Option (List ParsedFrame × Sv2FrameReader S)
  then_feed b none = none
  then_feed b (some (fs, m)) = with_frames fs (feed decrypt b m)

  then_feed-eq :
      (b : Bytes) (x : Option (List ParsedFrame × Sv2FrameReader S))
      → then_received b x ≡ then_feed b x
  unfolding feed
  then_feed-eq b none = refl
  then_feed-eq b (some (fs, m)) = refl

  -- However TCP cuts the bytes, the reader gives the same frames, is left in the same state and
  -- throws on the same streams: two pieces fed one after the other do what they do as one.
  pub feed-append :
      (a b : Bytes) (m : Sv2FrameReader S)
      → feed decrypt (a ++ b) m ≡ then_feed b (feed decrypt a m)
  unfolding feed
  feed-append a b m =
      let all = received b (received a m) in
      let split : run_all decrypt all
          ≡ then_received b (run decrypt (suc (measure all)) (received a m)) =
        run-received (suc (measure all)) (received a m) b (omega arith) in
      let enough : run decrypt (suc (measure all)) (received a m) ≡ run_all decrypt (received a m) =
        run-fuel decrypt (suc (measure all)) (suc (measure (received a m))) (received a m)
          (omega (arith, length-append (m.buf ++ a) b)) (omega arith) in
      ap (λ buf. run_all decrypt (record m { buf = buf })) (sym (append_assoc m.buf a b))
      ∙ split
      ∙ ap (then_received b) enough
      ∙ then_feed-eq b (run_all decrypt (received a m))
