-- ===== src/Wire/Names.antt =====
-- core/wire/parser.cpp: `read_name`, which reads a name that may be compressed.
pub mod Safety
use dnsentinal.Common.{
  ℕ, zero, suc, ◌+◌, ◌-◌, ◌*◌, ◌/◌, ◌^◌, ◌%◌, Bool, true, false, ◌||◌, ltb, leb, ◌==◌,
  if◌then◌else◌, length,
}
use dnsentinal.Types.{Bytes, Name, root, max_name_wire_length}
use dnsentinal.Name.{append_label}
use dnsentinal.Wire.ByteIo.{byte_at, load_u16, subspan, size_sub}
use dnsentinal.Wire.Outcome.{
  Outcome, ok, fail, out_of_fuel, buffer_too_short, name_too_long, compression_loop,
  invalid_label_type, ◌>>=◌,
}

-- `kMaxPointerJumps`
abbrev pub max_pointer_jumps : ℕ
max_pointer_jumps = 128

-- The variables of the loop.
pub record Walk : Type 0 where
  pub name : Name
  pub pos : ℕ
  pub cur : ℕ
  pub segment_start : ℕ
  pub wire_len : ℕ
  pub jumps : ℕ
  pub jumped : Bool

-- A round returns, or goes on with new variables.
pub data Round : Type 0 where
  done : Name × ℕ → Round
  more : Walk → Round

abbrev pub initial : ℕ → Walk
initial pos = record {
  name = root;
  pos = pos;
  cur = pos;
  segment_start = pos;
  wire_len = 1;
  jumps = 0;
  jumped = false;
}

module _ (msg : Bytes) where
  unfoldable pub read_label : ℕ → Walk → Outcome Round
  read_label len w =
      let wire_len = w.wire_len + (1 + len) in
      if len == 0
      then ok (done (w.name, (if w.jumped then w.pos else w.cur + 1)))
      else if ltb (size_sub (size_sub (length msg) w.cur) 1) len
      then fail buffer_too_short
      else if ltb max_name_wire_length wire_len
      then fail name_too_long
      else (do
        text ← subspan msg (w.cur + 1) len
        ok (
            more (record w {
              name = append_label w.name text;
              cur = w.cur + (1 + len);
              wire_len = wire_len;
            })))

  -- To `target`, if it lies before the segment that holds the pointer.
  unfoldable pub jump : ℕ → Walk → Outcome Round
  jump target w =
      if leb w.segment_start target || ltb max_pointer_jumps (w.jumps + 1)
      then fail compression_loop
      else ok (
          more (record w {
            pos = if w.jumped then w.pos else w.cur + 2;
            jumped = true;
            jumps = w.jumps + 1;
            cur = target;
            segment_start = target;
          }))

  unfoldable pub follow_pointer : Walk → Outcome Round
  follow_pointer w =
      if ltb (size_sub (length msg) w.cur) 2
      then fail buffer_too_short
      else (do pointer ← load_u16 msg w.cur; jump (pointer % 2 ^ 14) w)

  -- `switch (len & 0xC0)`
  unfoldable pub read_part : ℕ → Walk → Outcome Round
  read_part len w =
      let label_type = len / 2 ^ 6 * 2 ^ 6 in
      if label_type == 0x00
      then read_label len w
      else if label_type == 0xc0
      then follow_pointer w
      else fail invalid_label_type

  unfoldable pub round : Walk → Outcome Round
  round w =
      if leb (length msg) w.cur
      then fail buffer_too_short
      else (do len ← byte_at msg w.cur; read_part len w)

  unfoldable pub walk : ℕ → Walk → Outcome (Name × ℕ)
  walk zero w = out_of_fuel
  walk (suc fuel) w = do r ← round w; elim r [ done result ↦ ok result | more w' ↦ walk fuel w' ]

  -- A label takes two bytes of the 254 that a name has, and there are 128 jumps: enough fuel.
  unfoldable pub read_name : ℕ → Outcome (Name × ℕ)
  unfolding walk round read_part read_label follow_pointer jump
  read_name pos = walk 384 (initial pos)
