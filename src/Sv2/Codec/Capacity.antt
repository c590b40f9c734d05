-- ===== src/Sv2/Codec/Capacity.antt =====
-- The growth of a BufferWriter's buffer, `ensureCapacity` of src/models/sv2/sv2-binary-codec.ts.
use blitzpool.Prelude.{
  ℕ, zero, suc, ◌+◌, ◌*◌, ◌≤◌, ◌<◌, ◌≡◌, refl, Option, none, some, ltb, ltb→ge, ltb→lt, lt→ltb, ◌-◌,
  if◌then◌else◌, arith, Bool-cases, inl, inr,
}

-- `while (newSize < needed) newSize *= 2`; `none` means that the fuel ran out.
unfoldable pub grow : ℕ → ℕ → ℕ → Option ℕ
grow zero needed size = none
grow (suc fuel) needed size =
    let rest = grow fuel needed (size * 2) in if ltb size needed then rest else some size

-- The size of the buffer before a write of `n` bytes at an offset.
unfoldable pub ensure_capacity : ℕ → ℕ → ℕ → ℕ → Option ℕ
ensure_capacity fuel size offset n =
    let grown = grow fuel (offset + n) (size * 2) in
    if ltb size (offset + n) then grown else some size

-- The loop ends with room: each round doubles the size, so as many rounds as the size needed has
-- bytes are enough.
grow-fits :
    (fuel needed size : ℕ)
    → 0 < size
    → needed - size < fuel
    → (m : ℕ) × (grow fuel needed size ≡ some m) × (needed ≤ m) × (size ≤ m)
unfolding grow
grow-fits zero needed size h k = absurd (omega (arith, k))
grow-fits (suc fuel) needed size h k = elim (Bool-cases (ltb size needed)) [
  | inl e ↦
      let (m, found, fits, grows) =
        grow-fits fuel needed (size * 2) (omega arith) (omega (arith, ltb→lt size needed e)) in
      rw e (m, found, fits, omega (arith, grows))
  | inr e ↦ rw e (size, refl, ltb→ge size needed e, omega arith)
]

-- A buffer that is not empty has room for any write after `ensureCapacity`, which ends, and never
-- shrinks.
pub ensure_capacity-fits :
    (size offset n : ℕ)
    → 0 < size
    → (m : ℕ) × (ensure_capacity (offset + n + 1) size offset n ≡ some m)
      × (offset + n ≤ m)
      × (size ≤ m)
unfolding ensure_capacity
ensure_capacity-fits size offset n h = elim (Bool-cases (ltb size (offset + n))) [
  | inl e ↦
      let (m, found, fits, grows) =
        grow-fits (offset + n + 1) (offset + n) (size * 2) (omega arith)
          (omega (arith, ltb→lt size (offset + n) e)) in
      rw e (m, found, fits, omega (arith, grows))
  | inr e ↦ rw e (size, refl, ltb→ge size (offset + n) e, omega arith)
]

grow-empty : (fuel needed : ℕ) → 0 < needed → grow fuel needed 0 ≡ none
unfolding grow
grow-empty zero needed h = refl
grow-empty (suc fuel) needed h = rw (lt→ltb 0 needed h) (grow-empty fuel needed h)

-- From an empty buffer the loop never ends.
pub ensure_capacity-empty :
    (fuel offset n : ℕ) → 0 < offset + n → ensure_capacity fuel 0 offset n ≡ none
unfolding ensure_capacity
ensure_capacity-empty fuel offset n h =
    rw (lt→ltb 0 (offset + n) h) (grow-empty fuel (offset + n) h)
