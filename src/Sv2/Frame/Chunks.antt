-- ===== src/Sv2/Frame/Chunks.antt =====
-- The chunks of an encrypted payload in src/models/sv2/sv2-frame.ts, on both sides.
use blitzpool.Prelude.{
  ℕ, zero, suc, ◌+◌, ◌-◌, ◌≤◌, ◌<◌, ◌≡◌, refl, ap, ◌∙◌, inl, inr, ◌⊎◌, [], ◌∷◌, ◌++◌, Option, none,
  some, length, take, drop, min, arith, length-append, length-take, length-drop, take-append-drop,
  leb, leb→le, leb→gt, Bool-cases,
}
use blitzpool.Sv2.Codec.{Bytes}
use blitzpool.Sv2.Frame.{
  plaintext_to_ciphertext_length, sv2_max_plaintext_chunk, sv2_mac_size, chunk_size,
}
use blitzpool.Sv2.Frame.Reader.{decrypt_payload_chunks, encrypt_chunks}

pub take-whole : (n : ℕ) (xs ys : Bytes) → length xs ≡ n → take n (xs ++ ys) ≡ xs
take-whole zero [] ys h = refl
take-whole zero (x ∷ xs) ys h = absurd (omega (arith, h))
take-whole (suc n) [] ys h = absurd (omega (arith, h))
take-whole (suc n) (x ∷ xs) ys h = ap (◌∷◌ x) (take-whole n xs ys (omega (arith, h)))

pub drop-whole : (n : ℕ) (xs ys : Bytes) → length xs ≡ n → drop n (xs ++ ys) ≡ ys
drop-whole zero [] ys h = refl
drop-whole zero (x ∷ xs) ys h = absurd (omega (arith, h))
drop-whole (suc n) [] ys h = absurd (omega (arith, h))
drop-whole (suc n) (x ∷ xs) ys h = drop-whole n xs ys (omega (arith, h))

take-short : (n : ℕ) (xs : Bytes) → length xs ≤ n → take n (xs ++ []) ≡ xs
take-short zero [] h = refl
take-short zero (x ∷ xs) h = absurd (omega arith)
take-short (suc n) [] h = refl
take-short (suc n) (x ∷ xs) h = ap (◌∷◌ x) (take-short n xs (omega arith))

drop-short : (n : ℕ) (xs : Bytes) → length xs ≤ n → drop n (xs ++ []) ≡ []
drop-short zero [] h = refl
drop-short zero (x ∷ xs) h = absurd (omega arith)
drop-short (suc n) [] h = refl
drop-short (suc n) (x ∷ xs) h = drop-short n xs (omega arith)

-- A chunk ends where the next begins: it is full, or it is the last.
IsCut : ℕ → Bytes → Bytes → Type 0
IsCut n xs ys = (length xs ≡ n) ⊎ ((length xs ≤ n) × (ys ≡ []))

take-IsCut : (n : ℕ) (xs ys : Bytes) → IsCut n xs ys → take n (xs ++ ys) ≡ xs
unfolding IsCut
take-IsCut n xs ys (inl h) = take-whole n xs ys h
take-IsCut n xs ys (inr (h, e)) = rw e (take-short n xs h)

drop-IsCut : (n : ℕ) (xs ys : Bytes) → IsCut n xs ys → drop n (xs ++ ys) ≡ ys
unfolding IsCut
drop-IsCut n xs ys (inl h) = drop-whole n xs ys h
drop-IsCut n xs ys (inr (h, e)) = rw e (drop-short n xs h)

empty_drop : (n : ℕ) (xs : Bytes) → length xs ≤ n → drop n xs ≡ []
empty_drop zero [] h = refl
empty_drop zero (x ∷ xs) h = absurd (omega arith)
empty_drop (suc n) [] h = refl
empty_drop (suc n) (x ∷ xs) h = empty_drop n xs (omega arith)

-- One chunk more.
length_step :
    (n : ℕ)
    → 0 < n
    → plaintext_to_ciphertext_length n
      ≡ min sv2_max_plaintext_chunk n
        + sv2_mac_size
        + plaintext_to_ciphertext_length (n - sv2_max_plaintext_chunk)
unfolding plaintext_to_ciphertext_length
length_step n h = ground arith

module _ {S : Type 0} (encrypt : S → Bytes → Bytes × S)
    (grows : (s : S) (p : Bytes) → length (encrypt s p).0 ≡ length p + sv2_mac_size) where
  encrypt_chunks-empty : (fuel : ℕ) (s : S) → encrypt_chunks encrypt fuel s [] ≡ ([], s)
  unfolding encrypt_chunks
  encrypt_chunks-empty zero s = refl
  encrypt_chunks-empty (suc fuel) s = refl

  pub length-encrypt_chunks :
      (fuel : ℕ) (s : S) (p : Bytes)
      → length p ≤ fuel
      → length (encrypt_chunks encrypt fuel s p).0 ≡ plaintext_to_ciphertext_length (length p)
  unfolding encrypt_chunks
  length-encrypt_chunks zero s [] h = unfold plaintext_to_ciphertext_length in refl
  length-encrypt_chunks zero s (b ∷ bs) h = absurd (omega arith)
  length-encrypt_chunks (suc fuel) s [] h = unfold plaintext_to_ciphertext_length in refl
  length-encrypt_chunks (suc fuel) s (b ∷ bs) h =
      let chunk = encrypt s (take sv2_max_plaintext_chunk (b ∷ bs)) in
      let rest = drop sv2_max_plaintext_chunk (b ∷ bs) in
      let parts = encrypt_chunks encrypt fuel chunk.1 rest in
      let left = length-drop sv2_max_plaintext_chunk (b ∷ bs) in
      let tail : length parts.0
          ≡ plaintext_to_ciphertext_length (length (b ∷ bs) - sv2_max_plaintext_chunk) =
        length-encrypt_chunks fuel chunk.1 rest (omega (arith, left))
        ∙ ap plaintext_to_ciphertext_length left in
      omega (
        arith,
        length-append chunk.0 parts.0,
        grows s (take sv2_max_plaintext_chunk (b ∷ bs)),
        length-take sv2_max_plaintext_chunk (b ∷ bs),
        length_step (length (b ∷ bs)) (omega arith),
        tail,
      )

  -- A chunk that the writer makes is full, or the last one.
  chunk-IsCut :
      (fuel : ℕ) (s : S) (p : Bytes)
      → let chunk = encrypt s (take sv2_max_plaintext_chunk p) in
        IsCut chunk_size chunk.0
          (encrypt_chunks encrypt fuel chunk.1 (drop sv2_max_plaintext_chunk p)).0
  unfolding IsCut
  chunk-IsCut fuel s p =
      let size = grows s (take sv2_max_plaintext_chunk p) in
      let taken = length-take sv2_max_plaintext_chunk p in
      elim (Bool-cases (leb (length p) sv2_max_plaintext_chunk)) [
        | inl e ↦ inr (
          omega (arith, size, taken),
          rw (empty_drop sv2_max_plaintext_chunk p (leb→le _ _ e))
              (ap (λ r. r.0) (encrypt_chunks-empty fuel _)),
        )
        | inr e ↦ inl (omega (arith, size, taken, leb→gt _ _ e))
      ]

  module _ (decrypt : S → Bytes → Option (Bytes × S))
      (opens : (s : S) (p : Bytes) → decrypt s (encrypt s p).0 ≡ some (p, (encrypt s p).1)) where
    abbrev after_parts : Bytes → Option (Bytes × S) → Option (Bytes × S)
    after_parts part none = none
    after_parts part (some (parts, s)) = some (part ++ parts, s)

    abbrev after_part : ℕ → Bytes → Option (Bytes × S) → Option (Bytes × S)
    after_part fuel rest none = none
    after_part fuel rest (some (part, s)) =
        after_parts part (decrypt_payload_chunks decrypt fuel s rest)

    decrypt-once :
        (fuel : ℕ) (s : S) (c : Bytes)
        → 0 < length c
        → decrypt_payload_chunks decrypt (suc fuel) s c
          ≡ after_part fuel (drop chunk_size c) (decrypt s (take chunk_size c))
    unfolding decrypt_payload_chunks
    decrypt-once fuel s [] h = absurd (omega arith)
    decrypt-once fuel s (b ∷ bs) h = once (decrypt s (take chunk_size (b ∷ bs)))
      where
        twice :
            (part : Bytes) (o : Option (Bytes × S))
            → elim o [ none ↦ none | some (parts, s'') ↦ some (part ++ parts, s'') ]
              ≡ after_parts part o
        twice part none = refl
        twice part (some (parts, s'')) = refl

        once :
            (o : Option (Bytes × S))
            → elim o [
              | none ↦ none
              | some (part, s') ↦
                  elim (decrypt_payload_chunks decrypt fuel s' (drop chunk_size (b ∷ bs))) [
                    | none ↦ none
                    | some (parts, s'') ↦ some (part ++ parts, s'')
                  ]
            ]
              ≡ after_part fuel (drop chunk_size (b ∷ bs)) o
        once none = refl
        once (some (part, s')) = twice part _

    decrypt-empty : (fuel : ℕ) (s : S) → decrypt_payload_chunks decrypt fuel s [] ≡ some ([], s)
    unfolding decrypt_payload_chunks
    decrypt-empty zero s = refl
    decrypt-empty (suc fuel) s = refl

    pub decrypt_payload_chunks-encrypt_chunks :
        (fuel enough : ℕ) (s : S) (p : Bytes)
        → length p ≤ fuel
        → length (encrypt_chunks encrypt fuel s p).0 ≤ enough
        → decrypt_payload_chunks decrypt enough s (encrypt_chunks encrypt fuel s p).0
          ≡ some (p, (encrypt_chunks encrypt fuel s p).1)
    unfolding encrypt_chunks
    decrypt_payload_chunks-encrypt_chunks zero enough s [] h k = decrypt-empty enough s
    decrypt_payload_chunks-encrypt_chunks zero enough s (b ∷ bs) h k = absurd (omega arith)
    decrypt_payload_chunks-encrypt_chunks (suc fuel) enough s [] h k = decrypt-empty enough s
    decrypt_payload_chunks-encrypt_chunks (suc fuel) zero s (b ∷ bs) h k =
        let chunk = encrypt s (take sv2_max_plaintext_chunk (b ∷ bs)) in
        let parts = encrypt_chunks encrypt fuel chunk.1 (drop sv2_max_plaintext_chunk (b ∷ bs)) in
        absurd (
          omega (
            arith,
            k,
            length-append chunk.0 parts.0,
            grows s (take sv2_max_plaintext_chunk (b ∷ bs)),
          ))
    decrypt_payload_chunks-encrypt_chunks (suc fuel) (suc enough) s (b ∷ bs) h k =
        let first = take sv2_max_plaintext_chunk (b ∷ bs) in
        let rest = drop sv2_max_plaintext_chunk (b ∷ bs) in
        let chunk = encrypt s first in
        let parts = encrypt_chunks encrypt fuel chunk.1 rest in
        let cut = chunk-IsCut fuel s (b ∷ bs) in
        let sizes = length-append chunk.0 parts.0 in
        let again : decrypt_payload_chunks decrypt enough chunk.1 parts.0 ≡ some (rest, parts.1) =
          decrypt_payload_chunks-encrypt_chunks fuel enough chunk.1 rest
            (omega (arith, length-drop sv2_max_plaintext_chunk (b ∷ bs)))
            (omega (arith, k, sizes, grows s first)) in
        decrypt-once enough s (chunk.0 ++ parts.0) (omega (arith, sizes, grows s first))
        ∙ rw
            (
              take-IsCut chunk_size chunk.0 parts.0 cut,
              drop-IsCut chunk_size chunk.0 parts.0 cut,
              opens s first,
              again,
            )
            (ap (λ q. some (q, parts.1)) (take-append-drop sv2_max_plaintext_chunk (b ∷ bs)))
