-- ===== src/Sv2/Codec/Roundtrip.antt =====
-- The pairs of a write and a read method in src/models/sv2/sv2-binary-codec.ts.
use native.Mathlib.Nat.{pow-suc, mod-eq_of_lt}
use mathlib.Core.List.{append_assoc}
use blitzpool.Prelude.{
  ℕ, zero, suc, ◌*◌, ◌/◌, ◌^◌, ◌≤◌, ◌<◌, ◌≡◌, refl, ap, Bool, true, false, List, [], ◌∷◌, ◌++◌,
  Option, none, some, ltb, if◌then◌else◌, length, arith, lt→ltb, ge→ltb, ==_iff, All,
}
use blitzpool.Sv2.Codec.{
  Bytes, Put, Get, ◌>>◌, ◌>>=◌, to_buffer, pure, le_bytes, le_value, read_bytes, read_uint, u16_max,
  u24_max, u32_max, u64_max, read_u8, read_bool, read_u16, read_u24, read_u32, read_u64, read_f32,
  read_option_u32, read_u256, read_b0_255, read_str0_255, read_b0_32, read_b0_64k, read_b0_16m,
  read_each, read_seq0_255, read_seq0_64k, write_u8, write_bool, write_u16, write_u24, write_u32,
  write_u64, write_f32, write_option_u32, write_bytes, write_u256, write_b0_255, write_str0_255,
  write_b0_32, write_b0_64k, write_b0_16m, write_each, write_seq0_255, write_seq0_64k,
}

-- The write succeeds, and the read gives the value back and leaves what comes behind.
pub record RoundTrips {A : Type 0} (p : Put) (g : Get A) (v : A) : Type 0 where
  pub bytes : Bytes
  pub written : p ≡ some bytes
  pub read_back : (rest : Bytes) → g (bytes ++ rest) ≡ some (v, rest)

pub end-RoundTrips : {A : Type 0} (v : A) → RoundTrips to_buffer (pure v) v
unfolding pure
end-RoundTrips v = record { bytes = []; written = refl; read_back = λ rest. refl }

-- Round trips compose as writes do.
pub seq-RoundTrips :
    {A B : Type 0} {p q : Put} {g : Get A} (k : A → Get B) {v : A} {u : B}
    → RoundTrips p g v
    → RoundTrips q (k v) u
    → RoundTrips (p >> q) (g >>= k) u
seq-RoundTrips k first second = record {
  bytes = first.bytes ++ second.bytes;
  written = rw (first.written, second.written) refl;
  read_back = λ rest.
      rw (append_assoc first.bytes second.bytes rest, first.read_back (second.bytes ++ rest), ◌>>=◌)
        (second.read_back rest);
}

-- A value that is put together behind the last read.
pub map-RoundTrips :
    {A B : Type 0} {p : Put} {g : Get A} (f : A → B) {v : A}
    → RoundTrips p g v
    → RoundTrips p (g >>= λ x. pure (f x)) (f v)
unfolding pure
map-RoundTrips f h = record {
  bytes = h.bytes;
  written = h.written;
  read_back = λ rest. rw (h.read_back rest, ◌>>=◌) refl;
}

read_bytes-append : (bs rest : Bytes) → read_bytes (length bs) (bs ++ rest) ≡ some (bs, rest)
unfolding read_bytes
read_bytes-append [] rest = refl
read_bytes-append (b ∷ bs) rest = rw (read_bytes-append bs rest)

length-le_bytes : (width v : ℕ) → length (le_bytes width v) ≡ width
unfolding le_bytes
length-le_bytes zero v = refl
length-le_bytes (suc width) v = ap suc (length-le_bytes width (v / 256))

le_value-le_bytes : (width v : ℕ) → v < 256 ^ width → le_value (le_bytes width v) ≡ v
unfolding le_bytes le_value
le_value-le_bytes zero v h = omega arith
le_value-le_bytes (suc width) v h =
    let below : v < 256 ^ width * 256 = rw (← pow-suc 256 width) h in
    omega (arith, le_value-le_bytes width (v / 256) (omega (arith, below)))

uint-RoundTrips :
    (width v : ℕ) → v < 256 ^ width → RoundTrips (some (le_bytes width v)) (read_uint width) v
unfolding read_uint pure
uint-RoundTrips width v h = record {
  bytes = le_bytes width v;
  written = refl;
  read_back = λ rest.
      let taken : read_bytes width (le_bytes width v ++ rest) ≡ some (le_bytes width v, rest) =
        rw (length-le_bytes width v) at (read_bytes-append (le_bytes width v) rest) in
      rw (read_uint, taken, ◌>>=◌, le_value-le_bytes width v h) refl;
}

module _ (v : ℕ) where
  pub u8-RoundTrips : v < 256 → RoundTrips (write_u8 v) read_u8 v
  unfolding write_u8 read_u8 le_bytes
  u8-RoundTrips h = uint-RoundTrips 1 v h

  pub u16-RoundTrips : v < u16_max → RoundTrips (write_u16 v) read_u16 v
  unfolding write_u16 read_u16
  u16-RoundTrips h = rw (lt→ltb v u16_max h) (uint-RoundTrips 2 v h)

  pub u24-RoundTrips : v < u24_max → RoundTrips (write_u24 v) read_u24 v
  unfolding write_u24 read_u24
  u24-RoundTrips h = rw (mod-eq_of_lt h) (uint-RoundTrips 3 v h)

  pub u32-RoundTrips : v < u32_max → RoundTrips (write_u32 v) read_u32 v
  unfolding write_u32 read_u32
  u32-RoundTrips h = rw (mod-eq_of_lt h) (uint-RoundTrips 4 v h)

  pub u64-RoundTrips : v < u64_max → RoundTrips (write_u64 v) read_u64 v
  unfolding write_u64 read_u64
  u64-RoundTrips h = rw (lt→ltb v u64_max h) (uint-RoundTrips 8 v h)

  pub f32-RoundTrips : v < u32_max → RoundTrips (write_f32 v) read_f32 v
  unfolding write_f32 read_f32
  f32-RoundTrips h = uint-RoundTrips 4 v h

pub bool-RoundTrips : (v : Bool) → RoundTrips (write_bool v) read_bool v
unfolding write_bool read_bool read_u8 read_uint read_bytes le_value pure
bool-RoundTrips true = record { bytes = 1 ∷ []; written = refl; read_back = λ rest. refl }
bool-RoundTrips false = record { bytes = 0 ∷ []; written = refl; read_back = λ rest. refl }

-- The sequence of a length and a body under a bound on the length.
prefixed :
    {A : Type 0} (size body : Put) (g : Get ℕ) (k : ℕ → Get A) (limit n : ℕ) (u : A)
    → n ≤ limit
    → RoundTrips size g n
    → RoundTrips body (k n) u
    → RoundTrips (if ltb limit n then none else size >> body) (g >>= k) u
prefixed size body g k limit n u h hs hb = rw (ge→ltb limit n h) (seq-RoundTrips k hs hb)

pub bytes-RoundTrips : (v : Bytes) → RoundTrips (write_bytes v) (read_bytes (length v)) v
unfolding write_bytes
bytes-RoundTrips v = record { bytes = v; written = refl; read_back = read_bytes-append v }

module _ (v : Bytes) where
  pub u256-RoundTrips : length v ≡ 32 → RoundTrips (write_u256 v) read_u256 v
  unfolding write_u256 read_u256
  u256-RoundTrips h = rw ((==_iff (length v) 32).1 h) (rw h at (bytes-RoundTrips v))

  pub b0_255-RoundTrips : length v ≤ 255 → RoundTrips (write_b0_255 v) read_b0_255 v
  unfolding write_b0_255 read_b0_255
  b0_255-RoundTrips h =
      prefixed (write_u8 (length v)) (write_bytes v) read_u8 _ 255 (length v) v h
        (u8-RoundTrips (length v) (omega arith)) (bytes-RoundTrips v)

  pub str0_255-RoundTrips : length v ≤ 255 → RoundTrips (write_str0_255 v) read_str0_255 v
  unfolding write_str0_255 read_str0_255
  str0_255-RoundTrips h =
      prefixed (write_u8 (length v)) (write_bytes v) read_u8 _ 255 (length v) v h
        (u8-RoundTrips (length v) (omega arith)) (bytes-RoundTrips v)

  pub b0_32-RoundTrips : length v ≤ 32 → RoundTrips (write_b0_32 v) read_b0_32 v
  unfolding write_b0_32 read_b0_32
  b0_32-RoundTrips h =
      prefixed (write_u8 (length v)) (write_bytes v) read_u8 _ 32 (length v) v h
        (u8-RoundTrips (length v) (omega arith)) (rw (ge→ltb 32 (length v) h) (bytes-RoundTrips v))

  pub b0_64k-RoundTrips : length v ≤ 65535 → RoundTrips (write_b0_64k v) read_b0_64k v
  unfolding write_b0_64k read_b0_64k
  b0_64k-RoundTrips h =
      prefixed (write_u16 (length v)) (write_bytes v) read_u16 _ 65535 (length v) v h
        (u16-RoundTrips (length v) (omega arith)) (bytes-RoundTrips v)

  pub b0_16m-RoundTrips : length v ≤ 16777215 → RoundTrips (write_b0_16m v) read_b0_16m v
  unfolding write_b0_16m read_b0_16m
  b0_16m-RoundTrips h =
      prefixed (write_u24 (length v)) (write_bytes v) read_u24 _ 16777215 (length v) v h
        (u24-RoundTrips (length v) (omega arith)) (bytes-RoundTrips v)

abbrev pub FitsU32 : Option ℕ → Type 0
FitsU32 none = Unit {0}
FitsU32 (some v) = v < u32_max

pub option_u32-RoundTrips :
    (v : Option ℕ) → FitsU32 v → RoundTrips (write_option_u32 v) read_option_u32 v
unfolding write_option_u32 read_option_u32 pure
option_u32-RoundTrips none h =
    let flag = u8-RoundTrips 0 (omega arith) in
    record {
      bytes = flag.bytes;
      written = flag.written;
      read_back = λ rest. rw (flag.read_back rest, ◌>>=◌) refl;
    }
option_u32-RoundTrips (some v) h =
    seq-RoundTrips _ (u8-RoundTrips 1 (omega arith)) (map-RoundTrips some (u32-RoundTrips v h))

module _ {A : Type 0} (write : A → Put) (read : Get A) (P : A → Type 0)
    (each : (x : A) → P x → RoundTrips (write x) read x) where
  each-RoundTrips :
      (xs : List A) → All P xs → RoundTrips (write_each write xs) (read_each read (length xs)) xs
  unfolding write_each read_each
  each-RoundTrips [] h = end-RoundTrips []
  each-RoundTrips (x ∷ xs) h =
      seq-RoundTrips _ (each x h.0) (map-RoundTrips (◌∷◌ x) (each-RoundTrips xs h.1))

  pub seq0_255-RoundTrips :
      (xs : List A)
      → length xs ≤ 255
      → All P xs
      → RoundTrips (write_seq0_255 write xs) (read_seq0_255 read) xs
  unfolding write_seq0_255 read_seq0_255
  seq0_255-RoundTrips xs h all =
      prefixed (write_u8 (length xs)) (write_each write xs) read_u8 _ 255 (length xs) xs h
        (u8-RoundTrips (length xs) (omega arith)) (each-RoundTrips xs all)

  pub seq0_64k-RoundTrips :
      (xs : List A)
      → length xs ≤ 65535
      → All P xs
      → RoundTrips (write_seq0_64k write xs) (read_seq0_64k read) xs
  unfolding write_seq0_64k read_seq0_64k
  seq0_64k-RoundTrips xs h all =
      prefixed (write_u16 (length xs)) (write_each write xs) read_u16 _ 65535 (length xs) xs h
        (u16-RoundTrips (length xs) (omega arith)) (each-RoundTrips xs all)
