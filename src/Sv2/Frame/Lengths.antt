-- ===== src/Sv2/Frame/Lengths.antt =====
-- The two length functions of src/models/sv2/sv2-frame.ts.
use blitzpool.Prelude.{ℕ, ◌≡◌, some, arith}
use blitzpool.Sv2.Frame.{plaintext_to_ciphertext_length, ciphertext_to_plaintext_length}

-- The reader finds the length of a payload from the length of what the writer made of it.
pub ciphertext_to_plaintext_length-plaintext_to_ciphertext_length :
    (n : ℕ) → ciphertext_to_plaintext_length (plaintext_to_ciphertext_length n) ≡ some n
unfolding ciphertext_to_plaintext_length plaintext_to_ciphertext_length
ciphertext_to_plaintext_length-plaintext_to_ciphertext_length n = ground arith
