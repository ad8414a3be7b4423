-- ===== src/Wire/ByteIo/Bounds.antt =====
-- core/wire/byte_io.h: a load inside the buffer gives a value of its width.
use dnsentinal.Common.{
  ℕ, ◌+◌, ◌^◌, ◌≤◌, ◌<◌, ◌≡◌, [], ◌∷◌, zero, suc, All-get, All-take, All-drop, get_elem?_lt, arith,
  length, length-take, drop, le→leb,
}
use dnsentinal.Types.{Bytes, IsByte, AreBytes}
use dnsentinal.Wire.ByteIo.{byte_at, load_u16, load_u32, subspan}
use dnsentinal.Wire.Outcome.{Ensures, gives, Ensures-bind}

pub length-drop-add : (n : ℕ) (xs : Bytes) → n ≤ length xs → length (drop n xs) + n ≡ length xs
length-drop-add zero xs h = omega arith
length-drop-add (suc n) [] h = absurd (omega arith)
length-drop-add (suc n) (x ∷ xs) h = omega (arith, length-drop-add n xs (omega arith))

module _ (buf : Bytes) (off : ℕ) (b : AreBytes buf) where
  pub byte_at-Ensures : off < length buf → Ensures IsByte (byte_at buf off)
  unfolding byte_at
  byte_at-Ensures h =
      let (v, e) = get_elem?_lt buf off h in rw (e, byte_at) (gives (All-get IsByte buf off b e))

module _ (buf : Bytes) (off : ℕ) (b : AreBytes buf) where
  pub load_u16-Ensures : off + 1 < length buf → Ensures (λ v. v < 2 ^ 16) (load_u16 buf off)
  unfolding load_u16
  load_u16-Ensures h = Ensures-bind (byte_at-Ensures buf off b (omega arith)) λ hi p.
      Ensures-bind (byte_at-Ensures buf (off + 1) b (omega arith)) λ lo q. gives (omega arith)

  pub load_u32-Ensures : off + 3 < length buf → Ensures (λ v. v < 2 ^ 32) (load_u32 buf off)
  unfolding load_u32
  load_u32-Ensures h = Ensures-bind (byte_at-Ensures buf off b (omega arith)) λ x p.
      Ensures-bind (byte_at-Ensures buf (off + 1) b (omega arith)) λ y q.
        Ensures-bind (byte_at-Ensures buf (off + 2) b (omega arith)) λ z r.
          Ensures-bind (byte_at-Ensures buf (off + 3) b (omega arith)) λ w s. gives (omega arith)

  pub subspan-Ensures :
      (n : ℕ)
      → off + n ≤ length buf
      → Ensures (λ t. (length t ≡ n) × AreBytes t) (subspan buf off n)
  unfolding subspan
  subspan-Ensures n h = rw (le→leb (off + n) (length buf) h) (
      gives (
        omega (arith, length-take n (drop off buf), length-drop-add off buf (omega arith)),
        All-take IsByte n (drop off buf) (All-drop IsByte off buf b),
      ))
