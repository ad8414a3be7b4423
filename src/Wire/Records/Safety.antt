-- ===== src/Wire/Records/Safety.antt =====
-- core/wire/parser.cpp: reading questions and records stays inside the packet, ends, and gives
-- data that fits the wire.
use dnsentinal.Common.{
  ℕ, zero, suc, ◌+◌, ◌^◌, ◌≤◌, ◌<◌, ◌≡◌, not, ◌||◌, List, [], ◌∷◌, ◌++◌, All, All-append, length,
  ltb, ◌==◌, arith,
}
use dnsentinal.Types.{Bytes, Name, RData, ipv4, ipv6, ns, cname, ptr, AreBytes}
use dnsentinal.Wire.ByteIo.{size_sub}
use dnsentinal.Wire.ByteIo.Bounds.{
  byte_at-Ensures, load_u16-Ensures, load_u32-Ensures, subspan-Ensures,
}
use dnsentinal.Wire.Names.{read_name}
use dnsentinal.Wire.Names.Safety.{IsWireName, IsRead, read_name-IsRead}
use dnsentinal.Wire.Outcome.{ok, Ensures, gives, refuses, Ensures-bind, Ensures-if, ◌>>=◌}
use dnsentinal.Wire.Records.Shape.{IsText, IsRData, IsQuestion}
use dnsentinal.Wire.Records.{
  read_strings, read_question, name_rdata, read_mx, read_soa, read_address, read_rdata,
}

read_strings-Ensures :
    (fuel : ℕ) (rdata : Bytes) (p : ℕ) (strings : List Bytes)
    → AreBytes rdata
    → length rdata < 2 ^ 64
    → p ≤ length rdata
    → length rdata < p + fuel
    → All IsText strings
    → Ensures (All IsText) (read_strings fuel rdata p strings)
unfolding read_strings
read_strings-Ensures zero rdata p strings b small inside h v = absurd (omega arith)
read_strings-Ensures (suc fuel) rdata p strings b small inside h v =
    Ensures-if (ltb p (length rdata))
      (λ e. Ensures-bind (byte_at-Ensures rdata p b (ground arith)) λ n small_n.
        Ensures-if (ltb (size_sub (length rdata) (p + 1)) n) (λ _. refuses)
          λ fits. Ensures-bind (subspan-Ensures rdata (p + 1) b n (ground arith)) λ text t.
            read_strings-Ensures fuel rdata (p + 1 + n) (strings ++ text ∷ []) b small
              (ground arith) (omega arith)
              (All-append IsText strings (text ∷ []) v ((omega arith, t.1), tt)))
      λ e. gives v

module _ (msg : Bytes) (b : AreBytes msg) (small : length msg < 2 ^ 63) where
  -- A name read from a place inside the packet.
  abbrev name_at : (pos : ℕ) → pos ≤ length msg → Ensures (IsRead msg pos) (read_name msg pos)
  name_at pos h = read_name-IsRead msg pos b (omega arith) h

  -- Reading a question at a place in a packet shorter than 2^63, or at its end, ends, stays inside the packet and gives a question that fits the wire.
  pub read_question-IsQuestion :
      (pos : ℕ)
      → pos ≤ length msg
      → Ensures (λ r. IsQuestion r.0 × (r.1 ≤ length msg)) (read_question msg pos)
  unfolding read_question
  read_question-IsQuestion pos h = Ensures-bind (name_at pos h) λ r v.
      Ensures-if (ltb (size_sub (length msg) r.1) 4) (λ _. refuses)
        λ room. Ensures-bind (load_u16-Ensures msg r.1 b (ground (arith, v.inside))) λ qtype p.
          Ensures-bind (load_u16-Ensures msg (r.1 + 2) b (ground (arith, v.inside))) λ qclass q.
            gives (record { named = v.named; typed = p; classed = q }, ground (arith, v.inside))

  name_rdata-IsWireName :
      (pos end : ℕ) → pos ≤ length msg → Ensures IsWireName (name_rdata msg pos end)
  unfolding name_rdata
  name_rdata-IsWireName pos end h =
      Ensures-bind (name_at pos h)
        λ r v. Ensures-if (not (r.1 == end)) (λ _. refuses) (λ _. gives v.named)

  read_mx-IsRData :
      (pos rdlen : ℕ)
      → pos + rdlen ≤ length msg
      → Ensures IsRData (read_mx msg pos rdlen (pos + rdlen))
  unfolding read_mx
  read_mx-IsRData pos rdlen h =
      Ensures-if (ltb rdlen 2) (λ _. refuses)
        λ e. Ensures-bind (load_u16-Ensures msg pos b (ground arith)) λ preference p.
          Ensures-bind (name_rdata-IsWireName (pos + 2) (pos + rdlen) (ground arith))
            λ exchange v. gives (p, v)

  read_soa-IsRData :
      (pos end : ℕ) → pos ≤ length msg → end ≤ length msg → Ensures IsRData (read_soa msg pos end)
  unfolding read_soa
  read_soa-IsRData pos end h h' = Ensures-bind (name_at pos h) λ m v.
      Ensures-bind (name_at m.1 v.inside) λ r w.
        Ensures-if (ltb end r.1 || not (size_sub end r.1 == 20)) (λ _. refuses)
          λ e.
            let room : r.1 + 20 ≤ length msg = ground arith in
            Ensures-bind (load_u32-Ensures msg r.1 b (omega arith)) λ _ x₀.
              Ensures-bind (load_u32-Ensures msg (r.1 + 4) b (omega arith)) λ _ x₁.
                Ensures-bind (load_u32-Ensures msg (r.1 + 8) b (omega arith)) λ _ x₂.
                  Ensures-bind (load_u32-Ensures msg (r.1 + 12) b (omega arith)) λ _ x₃.
                    Ensures-bind (load_u32-Ensures msg (r.1 + 16) b (omega arith)) λ _ x₄.
                      gives (record {
                        mname = v.named;
                        rname = w.named;
                        serial = x₀;
                        refresh = x₁;
                        retry = x₂;
                        expire = x₃;
                        minimum = x₄;
                      })

  read_address-IsRData :
      (build : Bytes → RData) (size : ℕ) (rdata : Bytes) (rdlen cls : ℕ)
      → (length rdata ≡ size → AreBytes rdata → IsRData (build rdata))
      → rdlen < 2 ^ 16
      → length rdata ≡ rdlen
      → AreBytes rdata
      → Ensures IsRData (read_address build size rdata rdlen cls)
  unfolding read_address
  read_address-IsRData build size rdata rdlen cls fits h e bytes =
      Ensures-if (not (cls == 1)) (λ _. gives (omega arith, bytes))
        λ _.
          Ensures-if (not (rdlen == size)) (λ _. refuses) λ same. gives (fits (ground arith) bytes)

  name_field-IsRData :
      (build : Name → RData) (pos end : ℕ)
      → ((n : Name) → IsWireName n → IsRData (build n))
      → pos ≤ length msg
      → Ensures IsRData (name_rdata msg pos end >>= λ n. ok (build n))
  name_field-IsRData build pos end fits h =
      Ensures-bind (name_rdata-IsWireName pos end h) λ n v. gives (fits n v)

  -- Decoding RDATA whose length has 16 bits and that lies in a packet shorter than 2^63 ends, stays inside the packet and gives data that fits the wire.
  pub read_rdata-IsRData :
      (pos rdlen rr_type cls : ℕ)
      → rdlen < 2 ^ 16
      → pos + rdlen ≤ length msg
      → Ensures IsRData (read_rdata msg pos rdlen rr_type cls)
  unfolding read_rdata
  read_rdata-IsRData pos rdlen rr_type cls h fits =
      let inside : pos ≤ length msg = omega arith in
      Ensures-bind (subspan-Ensures msg pos b rdlen fits) λ rdata (e, bytes).
        Ensures-if (rr_type == 1)
          (λ _. read_address-IsRData ipv4 4 rdata rdlen cls (λ x y. (x, y)) h e bytes)
          λ _.
            Ensures-if (rr_type == 28)
              (λ _. read_address-IsRData ipv6 16 rdata rdlen cls (λ x y. (x, y)) h e bytes)
              λ _.
                Ensures-if (rr_type == 2)
                  (λ _. name_field-IsRData ns pos (pos + rdlen) (λ n v. v) inside)
                  λ _.
                    Ensures-if (rr_type == 5)
                      (λ _. name_field-IsRData cname pos (pos + rdlen) (λ n v. v) inside)
                      λ _.
                        Ensures-if (rr_type == 12)
                          (λ _. name_field-IsRData ptr pos (pos + rdlen) (λ n v. v) inside)
                          λ _.
                            Ensures-if (rr_type == 15) (λ _. read_mx-IsRData pos rdlen fits)
                              λ _.
                                Ensures-if (rr_type == 6)
                                  (λ _. read_soa-IsRData pos (pos + rdlen) inside fits)
                                  λ _.
                                    Ensures-if (rr_type == 16)
                                      (λ _.
                                        Ensures-bind
                                          (read_strings-Ensures (suc (length rdata)) rdata 0 []
                                            bytes (omega arith) (omega arith) (omega arith) tt)
                                          λ strings v. gives v)
                                      λ _. gives (omega arith, bytes)
