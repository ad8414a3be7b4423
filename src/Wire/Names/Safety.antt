-- ===== src/Wire/Names/Safety.antt =====
-- core/wire/parser.cpp: `read_name` stays inside the packet, ends, and returns a name within the
-- limits of RFC 1035.
use dnsentinal.Common.{
  ℕ, zero, suc, ◌+◌, ◌-◌, ◌*◌, ◌/◌, ◌%◌, ◌^◌, ◌≤◌, ◌<◌, ◌≡◌, refl, Bool, true, false, [], ◌∷◌, All,
  All-append, arith, length, ltb, leb, ◌==◌, ◌||◌,
}
use dnsentinal.Types.{Bytes, Name, root, IsByte, AreBytes}
use dnsentinal.Name.{ascii_lower, lower, append_label, labels_length, wire_length}
use dnsentinal.Name.Limits.{IsLabel, IsValid, append_label-IsValid, root-IsValid}
use dnsentinal.Wire.ByteIo.{size_sub}
use dnsentinal.Wire.ByteIo.Bounds.{byte_at-Ensures, load_u16-Ensures, subspan-Ensures}
use dnsentinal.Wire.Names.{
  Walk, initial, Round, done, more, read_label, jump, follow_pointer, read_part, round, walk,
  read_name,
}
use dnsentinal.Wire.Outcome.{Ensures, gives, refuses, Ensures-bind, Ensures-if}

-- A valid name of bytes.
pub record IsWireName (n : Name) : Type 0 where
  pub valid : IsValid n
  pub bytes : All AreBytes n.labels

ascii_lower-IsByte : (c : ℕ) → IsByte c → IsByte (ascii_lower c)
unfolding ascii_lower
ascii_lower-IsByte c h = ground arith

lower-AreBytes : (l : Bytes) → AreBytes l → AreBytes (lower l)
unfolding lower
lower-AreBytes [] h = tt
lower-AreBytes (c ∷ cs) h = (ascii_lower-IsByte c h.0, lower-AreBytes cs h.1)

wire_length-root : wire_length root ≡ 1
unfolding wire_length labels_length
wire_length-root = refl

append_label-IsWireName :
    (n : Name) (l : Bytes)
    → IsWireName n
    → AreBytes l
    → IsLabel l
    → wire_length n + 1 + length l ≤ 255
    → IsWireName (append_label n l)
unfolding append_label
append_label-IsWireName n l v b h fits = record {
  valid = (append_label-IsValid n l v.valid h fits).0;
  bytes = All-append AreBytes n.labels (lower l ∷ []) v.bytes (lower-AreBytes l b, tt);
}

module _ (msg : Bytes) (start : ℕ) where
  -- Where the caller goes on: behind the first pointer, or behind what is read so far.
  abbrev Resumes : Bool → Walk → Type 0
  Resumes true w = (start < w.pos) × (w.pos ≤ length msg)
  Resumes false w = start ≤ w.cur

  record Inv (w : Walk) : Type 0 where
    named : IsWireName w.name
    counted : w.wire_len ≡ wire_length w.name
    few : w.jumps ≤ 128
    resumes : Resumes w.jumped w

  -- What the caller of `read_name` gets.
  pub record IsRead (r : Name × ℕ) : Type 0 where
    pub named : IsWireName r.0
    pub onward : start < r.1
    pub inside : r.1 ≤ length msg

  abbrev measure : Walk → ℕ
  measure w = (255 - w.wire_len) + (128 - w.jumps)

  abbrev Post : Walk → Round → Type 0
  Post w (done r) = IsRead r
  Post w (more w') = Inv w' × (measure w' < measure w)

  module _ (b : AreBytes msg) (small : length msg < 2 ^ 64) where
    read_label-Post :
        (len : ℕ) (w : Walk)
        → len < 64
        → w.cur < length msg
        → Inv w
        → Ensures (Post w) (read_label msg len w)
    unfolding read_label
    read_label-Post len w h inside v =
        Ensures-if (len == 0)
          (λ e. gives (record { named = v.named; onward = ground arith; inside = ground arith }))
          λ e.
            Ensures-if (ltb (size_sub (size_sub (length msg) w.cur) 1) len) (λ _. refuses)
              λ room.
                Ensures-if (ltb 255 (w.wire_len + (1 + len))) (λ _. refuses)
                  λ fits.
                    Ensures-bind (subspan-Ensures msg (w.cur + 1) b len (ground arith)) λ text p.
                      let size : wire_length w.name + 1 + length text ≤ 255 =
                        ground (arith, v.counted) in
                      let labelled : IsLabel text = (ground arith, omega arith) in
                      gives (
                        record {
                          named = append_label-IsWireName w.name text v.named p.1 labelled size;
                          counted = omega (
                            arith,
                            (append_label-IsValid w.name text v.named.valid labelled size).1,
                            v.counted,
                          );
                          few = v.few;
                          resumes = ground arith;
                        },
                        ground arith,
                      )

    jump-Post :
        (target : ℕ) (w : Walk)
        → w.cur + 2 ≤ length msg
        → Inv w
        → Ensures (Post w) (jump msg target w)
    unfolding jump
    jump-Post target w inside v =
        Ensures-if (leb w.segment_start target || ltb 128 (w.jumps + 1)) (λ _. refuses)
          λ e. gives (
            record {
              named = v.named;
              counted = v.counted;
              few = ground arith;
              resumes = (ground arith, ground arith);
            },
            ground arith,
          )

    follow_pointer-Post :
        (w : Walk) → w.cur < length msg → Inv w → Ensures (Post w) (follow_pointer msg w)
    unfolding follow_pointer
    follow_pointer-Post w inside v =
        Ensures-if (ltb (size_sub (length msg) w.cur) 2) (λ _. refuses)
          λ e.
            Ensures-bind (load_u16-Ensures msg w.cur b (ground arith))
              λ pointer p. jump-Post (pointer % 2 ^ 14) w (ground arith) v

    round-Post : (w : Walk) → Inv w → Ensures (Post w) (round msg w)
    unfolding round read_part
    round-Post w v =
        Ensures-if (leb (length msg) w.cur) (λ _. refuses)
          λ inside. Ensures-bind (byte_at-Ensures msg w.cur b (ground arith)) λ len p.
            Ensures-if (len / 2 ^ 6 * 2 ^ 6 == 0x00)
              (λ e. read_label-Post len w (ground arith) (ground arith) v)
              λ _.
                Ensures-if (len / 2 ^ 6 * 2 ^ 6 == 0xc0)
                  (λ _. follow_pointer-Post w (ground arith) v) λ _. refuses

    walk-IsRead :
        (fuel : ℕ) (w : Walk) → measure w < fuel → Inv w → Ensures IsRead (walk msg fuel w)
    unfolding walk
    walk-IsRead zero w h v = absurd (omega arith)
    walk-IsRead (suc fuel) w h v =
        Ensures-bind {P = Post w} (round-Post w v)
          (elim [ done r ↦ λ p. gives p | more w' ↦ λ p. walk-IsRead fuel w' (omega arith) p.0 ])

    -- Whatever the bytes of a packet shorter than 2^64 are, `read_name` from a place in it or at its
    -- end ends, reads no byte outside the packet, and fails or returns a name within the size
    -- limits, in both case forms, with a position behind the start and not behind the end of the
    -- packet.
    pub read_name-IsRead : start ≤ length msg → Ensures IsRead (read_name msg start)
    unfolding read_name
    read_name-IsRead h = walk-IsRead 384 (initial start) (omega arith) (record {
      named = record { valid = root-IsValid; bytes = tt };
      counted = omega (arith, wire_length-root);
      few = omega arith;
      resumes = omega arith;
    })
