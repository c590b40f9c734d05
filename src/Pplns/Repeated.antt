-- ===== src/Pplns/Repeated.antt =====
-- When the rows of a block of src/services/pplns.service.ts cannot be written: two outputs with one
-- address, which the unique index of the history refuses.
use text.Mathlib.TextEquality.{eq_iff}
use text.Mathlib.TextPositions.{eq_refl}
use blitzpool.Prelude.{
  true-false, ℕ, ◌≡◌, refl, sym, ap, ◌∙◌, Bool, true, false, ◌||◌, List, [], ◌∷◌, ◌++◌, none,
  str_eq, Bool-cases, inl, inr,
}
use blitzpool.Coinbase.Weight.{Address}
use blitzpool.Coinbase.Input.{CoinbaseDistributionEntry}
use blitzpool.Pplns.Books.{
  PayoutRow, coinbase_rows, coinbase_row, has_row, insert_rows, is_among, addresses,
}
use blitzpool.Pplns.Fresh.{repeats}
use blitzpool.Pplns.Rows.{has_row-last}

or_right : {x y : Bool} → x ≡ false → y ≡ true → x || y ≡ true
or_right h k = rw (h, k) refl

-- An address that has its row makes the others fail.
taken_fails :
    (height : ℕ) (a : Address) (es : List CoinbaseDistributionEntry) (rest history : List PayoutRow)
    → has_row height a history ≡ true
    → is_among a (addresses es) ≡ true
    → insert_rows (coinbase_rows height es ++ rest) history ≡ none
unfolding insert_rows is_among
taken_fails height a [] rest history taken among = cc
taken_fails height a (e ∷ es) rest history taken among =
    elim (Bool-cases (has_row height e.address history)) [
      | inl k ↦ rw k refl
      | inr k ↦ elim (Bool-cases (str_eq e.address a)) [
        | inl same ↦ absurd (
            true-false (
              sym taken
              ∙ ap (λ b. has_row height b history) (sym ((eq_iff e.address a).0 same))
              ∙ k))
        | inr other ↦ rw k (
            taken_fails height a es rest (history ++ coinbase_row height e ∷ [])
              (has_row-last height a history (coinbase_row height e) refl ∙ or_right other taken)
              (rw other at among))
      ]
    ]

-- No row is written where two outputs of the distribution have one address.
pub repeated_fails :
    (height : ℕ) (es : List CoinbaseDistributionEntry) (rest history : List PayoutRow)
    → repeats (addresses es) ≡ true
    → insert_rows (coinbase_rows height es ++ rest) history ≡ none
unfolding insert_rows repeats
repeated_fails height [] rest history h = cc
repeated_fails height (e ∷ es) rest history h =
    elim (Bool-cases (has_row height e.address history)) [
      | inl k ↦ rw k refl
      | inr k ↦ elim (Bool-cases (is_among e.address (addresses es))) [
        | inl twice ↦ rw k (
            taken_fails height e.address es rest (history ++ coinbase_row height e ∷ [])
              (has_row-last height e.address history (coinbase_row height e) refl
                ∙ rw (eq_refl e.address) refl)
              twice)
        | inr once ↦
            rw k
              (repeated_fails height es rest (history ++ coinbase_row height e ∷ []) (rw once at h))
      ]
    ]
