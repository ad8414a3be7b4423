-- ===== src/Wire/Records/Shape.antt =====
-- Questions and records whose fields fit the widths of the wire format.
use dnsentinal.Common.{◌^◌, ◌<◌, ◌≡◌, All, length}
use dnsentinal.Types.{
  Bytes, Question, RData, ipv4, ipv6, ns, cname, soa, mx, txt, ptr, raw, Soa, Rr, AreBytes,
}
use dnsentinal.Wire.Names.Safety.{IsWireName}

pub record IsSoa (d : Soa) : Type 0 where
  pub mname : IsWireName d.mname
  pub rname : IsWireName d.rname
  pub serial : d.serial < 2 ^ 32
  pub refresh : d.refresh < 2 ^ 32
  pub retry : d.retry < 2 ^ 32
  pub expire : d.expire < 2 ^ 32
  pub minimum : d.minimum < 2 ^ 32

abbrev pub IsText : Bytes → Type 0
IsText s = (length s < 256) × AreBytes s

-- RDATA that can be written: addresses of their size, valid names, numbers of their width.
abbrev pub IsRData : RData → Type 0
IsRData (ipv4 a) = (length a ≡ 4) × AreBytes a
IsRData (ipv6 a) = (length a ≡ 16) × AreBytes a
IsRData (ns n) = IsWireName n
IsRData (cname n) = IsWireName n
IsRData (soa d) = IsSoa d
IsRData (mx preference n) = (preference < 2 ^ 16) × IsWireName n
IsRData (txt strings) = All IsText strings
IsRData (ptr n) = IsWireName n
IsRData (raw bytes) = (length bytes < 2 ^ 16) × AreBytes bytes

pub record IsRr (r : Rr) : Type 0 where
  pub owner : IsWireName r.name
  pub typed : r.rr_type < 2 ^ 16
  pub classed : r.cls < 2 ^ 16
  pub lived : r.ttl < 2 ^ 31
  pub carried : IsRData r.rdata

pub record IsQuestion (q : Question) : Type 0 where
  pub named : IsWireName q.qname
  pub typed : q.qtype < 2 ^ 16
  pub classed : q.qclass < 2 ^ 16
