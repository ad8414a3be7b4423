-- ===== src/Wire/ByteIo.antt =====
-- core/wire/byte_io.h: big-endian integers. A load outside the buffer, which is undefined in C++,
-- is `out_of_bounds`. The fields that the source joins by `|` are disjoint, so they are added.
pub mod Bounds
use dnsentinal.Common.{
  ℕ, ◌+◌, ◌-◌, ◌*◌, ◌/◌, ◌%◌, ◌^◌, Bool, true, false, List, [], ◌∷◌, ◌++◌, Option, none, some,
  get_elem?, leb, length, take, drop, if◌then◌else◌, set, ◌==◌,
}
use dnsentinal.Types.{Bytes}
use dnsentinal.Wire.Outcome.{Outcome, ok, out_of_bounds, ◌>>=◌}

-- `buf[off]`
unfoldable pub byte_at : Bytes → ℕ → Outcome ℕ
byte_at buf off = elim (get_elem? buf off) [ none ↦ out_of_bounds | some b ↦ ok b ]

unfoldable pub load_u16 : Bytes → ℕ → Outcome ℕ
load_u16 buf off = do hi ← byte_at buf off; lo ← byte_at buf (off + 1); ok (hi * 2 ^ 8 + lo)

unfoldable pub load_u32 : Bytes → ℕ → Outcome ℕ
load_u32 buf off = do
  a ← byte_at buf off
  b ← byte_at buf (off + 1)
  c ← byte_at buf (off + 2)
  d ← byte_at buf (off + 3)
  ok (a * 2 ^ 24 + b * 2 ^ 16 + c * 2 ^ 8 + d)

-- `buf.subspan(off, n)`, undefined beyond the end
unfoldable pub subspan : Bytes → ℕ → ℕ → Outcome Bytes
subspan buf off n = if leb (off + n) (length buf) then ok (take n (drop off buf)) else out_of_bounds

-- The subtraction of `size_t`, which wraps.
abbrev pub size_sub : ℕ → ℕ → ℕ
size_sub a b = (a + 2 ^ 64 - b) % 2 ^ 64

-- `x & (1 << k)` is not zero
abbrev pub bit : ℕ → ℕ → Bool
bit x k = x / 2 ^ k % 2 == 1

abbrev pub u8 : ℕ → ℕ
u8 v = v % 2 ^ 8

-- The bytes that `put_u16` and `put_u32` append.
unfoldable pub u16_bytes : ℕ → Bytes
u16_bytes v = u8 (v / 2 ^ 8) ∷ u8 v ∷ []

unfoldable pub u32_bytes : ℕ → Bytes
unfolding u16_bytes
u32_bytes v = u16_bytes (v / 2 ^ 16 % 2 ^ 16) ++ u16_bytes (v % 2 ^ 16)

unfoldable pub put_u16 : Bytes → ℕ → Bytes
unfolding u16_bytes
put_u16 out v = out ++ u16_bytes v

unfoldable pub put_u32 : Bytes → ℕ → Bytes
unfolding u32_bytes
put_u32 out v = out ++ u32_bytes v

unfoldable pub store_u16 : Bytes → ℕ → ℕ → Bytes
store_u16 out off v = set (set out off (u8 (v / 2 ^ 8))) (off + 1) (u8 v)
