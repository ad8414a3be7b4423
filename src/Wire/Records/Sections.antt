-- ===== src/Wire/Records/Sections.antt =====
-- core/wire/parser.cpp: a section holds as many records as its header count claims, all of them
-- inside the packet; an OPT record counts although it goes elsewhere.
use dnsentinal.Common.{
  ℕ, zero, suc, ◌+◌, ◌^◌, ◌≤◌, ◌<◌, ◌≡◌, refl, Bool, false, not, ◌||◌, Option, none, some, All,
  All-append, length, length-append, ltb, ◌==◌, arith, if◌then◌else◌, ◌∙◌,
}
use dnsentinal.Types.{Bytes, Name, EdnsInfo, AreBytes}
use dnsentinal.Wire.ByteIo.{size_sub, bit}
use dnsentinal.Wire.ByteIo.Bounds.{load_u16-Ensures, load_u32-Ensures, subspan-Ensures}
use dnsentinal.Wire.Edns.Laws.{IsEdns, parse_opt-IsEdns}
use dnsentinal.Wire.Names.Safety.{IsWireName, read_name-IsRead}
use dnsentinal.Wire.Outcome.{Ensures, gives, refuses, Ensures-bind, Ensures-if, Ensures-map}
use dnsentinal.Wire.Records.Safety.{read_rdata-IsRData}
use dnsentinal.Wire.Records.Shape.{IsRr}
use dnsentinal.Wire.Records.{
  Section, has_opt, is_root, read_opt, read_data, read_fields, read_record, read_section,
}

abbrev pub IsOpt : Option EdnsInfo → Type 0
IsOpt none = Unit
IsOpt (some e) = IsEdns e

abbrev pub opt_count : Option EdnsInfo → ℕ
opt_count none = 0
opt_count (some e) = 1

abbrev pub total : Section → ℕ
total s = length s.out + opt_count s.edns

pub record IsSection (msg : Bytes) (s : Section) : Type 0 where
  pub inside : s.pos ≤ length msg
  pub records : All IsRr s.out
  pub opt : IsOpt s.edns

-- From `s` to `s'`, `n` more records are read; OPT only in the additional section.
pub record Reads (msg : Bytes) (is_additional : Bool) (n : ℕ) (s s' : Section) : Type 0 where
  pub fits : IsSection msg s'
  pub counted : total s' ≡ total s + n
  pub kept : is_additional ≡ false → s'.edns ≡ s.edns

module _ (msg : Bytes) (b : AreBytes msg) (small : length msg < 2 ^ 63) (is_additional : Bool) where
  read_opt-Reads :
      (s : Section) (owner : Name) (cls ttl pos rdlen : ℕ)
      → cls < 2 ^ 16
      → pos + rdlen ≤ length msg
      → IsSection msg s
      → Ensures (Reads msg is_additional 1 s) (read_opt msg is_additional s owner cls ttl pos rdlen)
  unfolding read_opt
  read_opt-Reads s owner cls ttl pos rdlen h fits v =
      Ensures-if (not is_additional || has_opt s.edns || not (is_root owner)) (λ _. refuses)
        λ e. Ensures-bind (subspan-Ensures msg pos b rdlen fits) λ rdata (l, bytes).
          Ensures-bind (parse_opt-IsEdns rdata bytes (omega arith) cls ttl h) λ info i.
            gives (record {
              fits = record { inside = fits; records = v.records; opt = i };
              counted = ground arith;
              kept = λ f. absurd (ground arith);
            })

  read_data-Reads :
      (s : Section) (owner : Name) (rr_type cls ttl pos rdlen : ℕ)
      → IsWireName owner
      → rr_type < 2 ^ 16
      → cls < 2 ^ 16
      → ttl < 2 ^ 32
      → rdlen < 2 ^ 16
      → pos + rdlen ≤ length msg
      → IsSection msg s
      → Ensures (Reads msg is_additional 1 s) (read_data msg s owner rr_type cls ttl pos rdlen)
  unfolding read_data
  read_data-Reads s owner rr_type cls ttl pos rdlen o t c l h fits v =
      Ensures-bind (read_rdata-IsRData msg b small pos rdlen rr_type cls h fits) λ rdata d.
        let low : (if bit ttl 31 then 0 else ttl) < 2 ^ 31 = ground arith in
        gives (record {
          fits = record {
            inside = fits;
            records =
                All-append IsRr s.out _ v.records
                  (record { owner = o; typed = t; classed = c; lived = low; carried = d }, tt);
            opt = v.opt;
          };
          counted = omega (arith, length-append {0} s.out);
          kept = λ _. refl;
        })

  read_fields-Reads :
      (s : Section) (owner : Name) (pos : ℕ)
      → IsWireName owner
      → pos + 10 ≤ length msg
      → IsSection msg s
      → Ensures (Reads msg is_additional 1 s) (read_fields msg is_additional s owner pos)
  unfolding read_fields
  read_fields-Reads s owner pos o room v =
      Ensures-bind (load_u16-Ensures msg pos b (omega arith)) λ rr_type t.
        Ensures-bind (load_u16-Ensures msg (pos + 2) b (omega arith)) λ cls c.
          Ensures-bind (load_u32-Ensures msg (pos + 4) b (omega arith)) λ ttl l.
            Ensures-bind (load_u16-Ensures msg (pos + 8) b (omega arith)) λ rdlen h.
              Ensures-if (ltb (size_sub (length msg) (pos + 10)) rdlen) (λ _. refuses)
                λ e.
                  let fits : pos + 10 + rdlen ≤ length msg = ground arith in
                  Ensures-if (rr_type == 41)
                    (λ _. read_opt-Reads s owner cls ttl (pos + 10) rdlen c fits v)
                    λ _. read_data-Reads s owner rr_type cls ttl (pos + 10) rdlen o t c l h fits v

  read_record-Reads :
      (s : Section)
      → IsSection msg s
      → Ensures (Reads msg is_additional 1 s) (read_record msg is_additional s)
  unfolding read_record
  read_record-Reads s v = Ensures-bind (read_name-IsRead msg s.pos b (omega arith) v.inside) λ r o.
      Ensures-if (ltb (size_sub (length msg) r.1) 10) (λ _. refuses)
        λ e. read_fields-Reads s r.0 r.1 o.named (ground (arith, o.inside)) v

  Reads-trans :
      {n : ℕ} {s t u : Section}
      → Reads msg is_additional 1 s t
      → Reads msg is_additional n t u
      → Reads msg is_additional (suc n) s u
  Reads-trans p q = record {
    fits = q.fits;
    counted = omega (arith, p.counted, q.counted);
    kept = λ e. q.kept e ∙ p.kept e;
  }

  -- Reading a section of `count` records ends, stays inside the packet, and on success has read
  -- exactly `count` records that fit the wire, an OPT record among them only in the additional
  -- section.
  pub read_section-Reads :
      (count : ℕ) (s : Section)
      → IsSection msg s
      → Ensures (Reads msg is_additional count s) (read_section msg count is_additional s)
  unfolding read_section
  read_section-Reads zero s v = gives (record { fits = v; counted = omega arith; kept = λ _. refl })
  read_section-Reads (suc count) s v =
      Ensures-bind (read_record-Reads s v)
        λ t p. Ensures-map (read_section-Reads count t p.fits) λ u q. Reads-trans p q
