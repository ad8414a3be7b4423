-- ===== src/Wire/Edns/Laws.antt =====
-- core/wire/edns.cpp: reading an OPT record ends and stays inside its data, reading what was
-- written gives it back, and the size of a UDP response is within both limits.
use dnsentinal.Common.{
  ℕ, zero, suc, ◌+◌, ◌^◌, ◌≤◌, ◌<◌, ◌≡◌, refl, none, some, length, ltb, arith, max, min, [],
}
use dnsentinal.Types.{Bytes, AreBytes, EdnsInfo}
use dnsentinal.Wire.ByteIo.{size_sub}
use dnsentinal.Wire.ByteIo.Bounds.{load_u16-Ensures}
use dnsentinal.Wire.Edns.{skip_options, parse_opt, opt_ttl, max_udp_response_size}
use dnsentinal.Wire.Outcome.{ok, Ensures, gives, refuses, Ensures-bind, Ensures-if}

-- The fields of an OPT record fit their widths.
pub record IsEdns (e : EdnsInfo) : Type 0 where
  pub payload : e.udp_payload_size < 2 ^ 16
  pub extended : e.extended_rcode < 2 ^ 8
  pub versioned : e.version < 2 ^ 8

module _ (rdata : Bytes) (b : AreBytes rdata) (small : length rdata < 2 ^ 64) where
  skip_options-Ensures :
      (fuel pos : ℕ)
      → pos ≤ length rdata
      → length rdata < pos + fuel
      → Ensures (λ _. Unit {0}) (skip_options fuel rdata pos)
  unfolding skip_options
  skip_options-Ensures zero pos inside h = absurd (omega arith)
  skip_options-Ensures (suc fuel) pos inside h =
      Ensures-if (ltb pos (length rdata))
        (λ e.
          Ensures-if (ltb (size_sub (length rdata) pos) 4) (λ _. refuses)
            λ room. Ensures-bind (load_u16-Ensures rdata (pos + 2) b (ground arith)) λ opt_len p.
              Ensures-if (ltb (size_sub (length rdata) (pos + 4)) opt_len) (λ _. refuses)
                λ fits. skip_options-Ensures fuel (pos + 4 + opt_len) (ground arith) (omega arith))
        λ e. gives tt

  -- Reading an OPT record of less than 2^64 bytes of data, with a class of 16 bits, ends, reads nothing outside its data, and gives fields of their widths.
  pub parse_opt-IsEdns : (cls ttl : ℕ) → cls < 2 ^ 16 → Ensures IsEdns (parse_opt cls ttl rdata)
  unfolding parse_opt
  parse_opt-IsEdns cls ttl h =
      Ensures-bind (skip_options-Ensures (suc (length rdata)) 0 (omega arith) (omega arith))
        λ _ _. gives (record { payload = h; extended = omega arith; versioned = omega arith })

-- The class and TTL of the record that `write_opt` writes are read back as the same EDNS data, if its
-- fields fit their widths.
pub parse_opt-opt_ttl :
    (e : EdnsInfo) → IsEdns e → parse_opt e.udp_payload_size (opt_ttl e) [] ≡ ok e
unfolding parse_opt skip_options opt_ttl
parse_opt-opt_ttl e v = ground arith

-- The response size is 512 without EDNS, and otherwise the client's size brought between 512 and our
-- limit, or to 512 if our limit is less.
pub max_udp_response_size_lem :
    (e : EdnsInfo) (our_limit : ℕ)
    → (max_udp_response_size none our_limit ≡ 512)
      × (max_udp_response_size (some e) our_limit
          ≡ min (max e.udp_payload_size 512) (max our_limit 512))
unfolding max_udp_response_size
max_udp_response_size_lem e our_limit = (refl, ground arith)
