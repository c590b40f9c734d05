-- ===== src/Sv2/Codec.antt =====
-- BufferReader and BufferWriter of src/models/sv2/sv2-binary-codec.ts.
-- A buffer is the list of its bytes. A method of the reader takes the bytes from the offset on and
-- gives its value and the bytes that are left; a method of the writer gives the bytes that it
-- appends. `none` is a RangeError. A text is its UTF-8 bytes, and an F32 the 32 bits of the float.
pub mod Roundtrip
pub mod Capacity
use blitzpool.Prelude.{
  ℕ, zero, suc, ◌+◌, ◌*◌, ◌/◌, ◌%◌, ◌^◌, Bool, true, false, List, [], ◌∷◌, ◌++◌, Option, none, some,
  ltb, leb, ◌==◌, if◌then◌else◌, length,
}

abbrev pub Bytes : Type 0
Bytes = List ℕ

abbrev pub Put : Type 0
Put = Option Bytes

abbrev pub Get : Type 0 → Type 0
Get A = Bytes → Option (A × Bytes)

-- One write after the other.
infixl 5 ◌>>◌
abbrev pub ◌>>◌ : Put → Put → Put
none >> q = none
some bs >> none = none
some bs >> some cs = some (bs ++ cs)

infixl 5 ◌>>=◌
abbrev pub ◌>>=◌ : {A B : Type 0} → Get A → (A → Get B) → Get B
◌>>=◌ g k bs = elim (g bs) [ none ↦ none | some (a, rest) ↦ k a rest ]

-- `toBuffer`: nothing more is written.
abbrev pub to_buffer : Put
to_buffer = some []

unfoldable pub pure : {A : Type 0} → A → Get A
pure a bs = some (a, bs)

abbrev pub fail : {A : Type 0} → Get A
fail bs = none

-- `value` in `width` bytes, the least significant first, and back.
unfoldable pub le_bytes : ℕ → ℕ → Bytes
le_bytes zero value = []
le_bytes (suc width) value = value % 256 ∷ le_bytes width (value / 256)

unfoldable pub le_value : Bytes → ℕ
le_value [] = 0
le_value (b ∷ bs) = b + 256 * le_value bs

-- `ensure(n)`, and the n bytes.
unfoldable pub read_bytes : ℕ → Get Bytes
read_bytes zero bs = some ([], bs)
read_bytes (suc n) [] = none
read_bytes (suc n) (b ∷ bs) = elim (read_bytes n bs) [
  | none ↦ none
  | some (taken, rest) ↦ some (b ∷ taken, rest)
]

abbrev pub u16_max : ℕ
u16_max = 2 ^ 16

abbrev pub u24_max : ℕ
u24_max = 2 ^ 24

abbrev pub u32_max : ℕ
u32_max = 2 ^ 32

abbrev pub u64_max : ℕ
u64_max = 2 ^ 64

unfoldable pub read_uint : ℕ → Get ℕ
read_uint width = do bs ← read_bytes width; pure (le_value bs)

unfoldable pub read_u8 : Get ℕ
read_u8 = read_uint 1

unfoldable pub read_bool : Get Bool
read_bool = do b ← read_u8; pure (if b == 0 then false else true)

unfoldable pub read_u16 : Get ℕ
read_u16 = read_uint 2

unfoldable pub read_u24 : Get ℕ
read_u24 = read_uint 3

unfoldable pub read_u32 : Get ℕ
read_u32 = read_uint 4

unfoldable pub read_u64 : Get ℕ
read_u64 = read_uint 8

unfoldable pub read_f32 : Get ℕ
read_f32 = read_uint 4

unfoldable pub read_option_u32 : Get (Option ℕ)
read_option_u32 = do
  flag ← read_u8
  (if flag == 0 then pure none else (do v ← read_u32; pure (some v)))

unfoldable pub read_u256 : Get Bytes
read_u256 = read_bytes 32

unfoldable pub read_b0_255 : Get Bytes
read_b0_255 = do len ← read_u8; read_bytes len

unfoldable pub read_str0_255 : Get Bytes
read_str0_255 = do len ← read_u8; read_bytes len

unfoldable pub read_b0_32 : Get Bytes
read_b0_32 = do len ← read_u8; (if ltb 32 len then fail else read_bytes len)

unfoldable pub read_b0_64k : Get Bytes
read_b0_64k = do len ← read_u16; read_bytes len

unfoldable pub read_b0_16m : Get Bytes
read_b0_16m = do len ← read_u24; read_bytes len

-- The loop of the two sequence readers.
unfoldable pub read_each : {A : Type 0} → Get A → ℕ → Get (List A)
read_each read zero = pure []
read_each read (suc n) = do x ← read; xs ← read_each read n; pure (x ∷ xs)

unfoldable pub read_seq0_255 : {A : Type 0} → Get A → Get (List A)
read_seq0_255 read = do count ← read_u8; read_each read count

unfoldable pub read_seq0_64k : {A : Type 0} → Get A → Get (List A)
read_seq0_64k read = do count ← read_u16; read_each read count

-- `v & 0xff`.
unfoldable pub write_u8 : ℕ → Put
write_u8 v = some (v % 256 ∷ [])

unfoldable pub write_bool : Bool → Put
write_bool v = some ((if v then 1 else 0) ∷ [])

-- `writeUInt16LE` throws out of range.
unfoldable pub write_u16 : ℕ → Put
write_u16 v = if ltb v u16_max then some (le_bytes 2 v) else none

unfoldable pub write_u24 : ℕ → Put
write_u24 v = some (le_bytes 3 (v % u24_max))

-- `v >>> 0`.
unfoldable pub write_u32 : ℕ → Put
write_u32 v = some (le_bytes 4 (v % u32_max))

-- `writeBigUInt64LE` throws out of range.
unfoldable pub write_u64 : ℕ → Put
write_u64 v = if ltb v u64_max then some (le_bytes 8 v) else none

unfoldable pub write_f32 : ℕ → Put
write_f32 v = some (le_bytes 4 v)

unfoldable pub write_option_u32 : Option ℕ → Put
write_option_u32 none = write_u8 0
write_option_u32 (some v) = do write_u8 1; write_u32 v

unfoldable pub write_bytes : Bytes → Put
write_bytes v = some v

unfoldable pub write_u256 : Bytes → Put
write_u256 v = if length v == 32 then write_bytes v else none

unfoldable pub write_b0_255 : Bytes → Put
write_b0_255 v = if ltb 255 (length v) then none else (do write_u8 (length v); write_bytes v)

unfoldable pub write_str0_255 : Bytes → Put
write_str0_255 v = if ltb 255 (length v) then none else (do write_u8 (length v); write_bytes v)

unfoldable pub write_b0_32 : Bytes → Put
write_b0_32 v = if ltb 32 (length v) then none else (do write_u8 (length v); write_bytes v)

unfoldable pub write_b0_64k : Bytes → Put
write_b0_64k v = if ltb 65535 (length v) then none else (do write_u16 (length v); write_bytes v)

unfoldable pub write_b0_16m : Bytes → Put
write_b0_16m v = if ltb 16777215 (length v) then none else (do write_u24 (length v); write_bytes v)

unfoldable pub write_each : {A : Type 0} → (A → Put) → List A → Put
write_each write [] = to_buffer
write_each write (x ∷ xs) = do write x; write_each write xs

unfoldable pub write_seq0_255 : {A : Type 0} → (A → Put) → List A → Put
write_seq0_255 write xs =
    if ltb 255 (length xs) then none else (do write_u8 (length xs); write_each write xs)

unfoldable pub write_seq0_64k : {A : Type 0} → (A → Put) → List A → Put
write_seq0_64k write xs =
    if ltb 65535 (length xs) then none else (do write_u16 (length xs); write_each write xs)
