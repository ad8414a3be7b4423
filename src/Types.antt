-- ===== src/Types.antt =====
-- core/include/dnsentinel/types.h: the DNS data types. A byte string (`std::string`,
-- `std::vector<uint8_t>`) is the list of its bytes, each below 256.
pub mod Equality
pub mod RCode
pub mod RrType
use dnsentinal.Common.{ℕ, ◌<◌, All, Bool, false, List, [], Option, none, list_eq, ◌==◌}

abbrev pub Bytes : Type 0
Bytes = List ℕ

-- What a `uint8_t` holds.
abbrev pub IsByte : ℕ → Type 0
IsByte c = c < 256

abbrev pub AreBytes : Bytes → Type 0
AreBytes = All IsByte

-- `kMaxLabelLength` and `kMaxNameWireLength`
abbrev pub max_label_length : ℕ
max_label_length = 63

abbrev pub max_name_wire_length : ℕ
max_name_wire_length = 255

pub record Name : Type 0 where
  pub labels : List Bytes
  pub original_case : List Bytes

abbrev pub root : Name
root = record { labels = []; original_case = [] }

-- `==` of byte strings, and of lists of them
unfoldable pub bytes_eq : Bytes → Bytes → Bool
unfolding list_eq
bytes_eq = list_eq ◌==◌

unfoldable pub labels_eq : List Bytes → List Bytes → Bool
unfolding list_eq bytes_eq
labels_eq = list_eq bytes_eq

-- `Name::operator==`
unfoldable pub name_eq : Name → Name → Bool
unfolding labels_eq
name_eq n o = labels_eq n.labels o.labels

pub record Header : Type 0 where
  pub id : ℕ
  pub qr : Bool
  pub opcode : ℕ
  pub aa : Bool
  pub tc : Bool
  pub rd : Bool
  pub ra : Bool
  pub ad : Bool
  pub cd : Bool
  pub rcode : ℕ
  pub qdcount : ℕ
  pub ancount : ℕ
  pub nscount : ℕ
  pub arcount : ℕ

abbrev pub default_header : Header
default_header = record {
  id = 0;
  qr = false;
  opcode = 0;
  aa = false;
  tc = false;
  rd = false;
  ra = false;
  ad = false;
  cd = false;
  rcode = 0;
  qdcount = 0;
  ancount = 0;
  nscount = 0;
  arcount = 0;
}

pub record Soa : Type 0 where
  pub mname : Name
  pub rname : Name
  pub serial : ℕ
  pub refresh : ℕ
  pub retry : ℕ
  pub expire : ℕ
  pub minimum : ℕ

-- `RData`: the variant of `RDataA` (its four bytes in network order), `RDataAAAA`, `RDataNS`,
-- `RDataCNAME`, `RDataSOA`, `RDataMX`, `RDataTXT`, `RDataPTR` and `RDataRaw`.
pub data RData : Type 0 where
  ipv4 : Bytes → RData
  ipv6 : Bytes → RData
  ns : Name → RData
  cname : Name → RData
  soa : Soa → RData
  mx : ℕ → Name → RData
  txt : List Bytes → RData
  ptr : Name → RData
  raw : Bytes → RData

-- `TrustRank::{Additional, Glue, Authority, Answer}`
pub data TrustRank : Type 0 where
  out_of_bailiwick in_glue in_authority in_answer : TrustRank

-- The enumerators' values, by which ranks are compared.
abbrev pub rank : TrustRank → ℕ
rank out_of_bailiwick = 1
rank in_glue = 2
rank in_authority = 3
rank in_answer = 4

pub record Rr : Type 0 where
  pub name : Name
  pub rr_type : ℕ
  pub cls : ℕ
  pub ttl : ℕ
  pub rdata : RData
  pub trust : TrustRank

pub record Question : Type 0 where
  pub qname : Name
  pub qtype : ℕ
  pub qclass : ℕ

pub record EdnsInfo : Type 0 where
  pub udp_payload_size : ℕ
  pub extended_rcode : ℕ
  pub version : ℕ
  pub dnssec_ok : Bool

pub record Message : Type 0 where
  pub header : Header
  pub questions : List Question
  pub answers : List Rr
  pub authority : List Rr
  pub additional : List Rr
  pub edns : Option EdnsInfo

abbrev pub empty_message : Message
empty_message = record {
  header = default_header;
  questions = [];
  answers = [];
  authority = [];
  additional = [];
  edns = none;
}
