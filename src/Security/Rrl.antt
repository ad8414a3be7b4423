-- ===== src/Security/Rrl.antt =====
-- core/security/rrl.cpp and rrl.h: response rate limiting. A point in time is in nanoseconds and
-- times do not go back; the map from fingerprints is a list of pairs. `af` gives the numbers of
-- the address families, of which the fingerprint takes the low byte.
pub mod Window
use dnsentinal.Common.{
  ℕ, zero, suc, ◌+◌, ◌-◌, ◌*◌, ◌/◌, ◌%◌, ◌^◌, max, Bool, true, false, not, ◌&&◌, ◌||◌, List, [],
  ◌∷◌, ◌++◌, Option, none, some, leb, ltb, ◌==◌, if◌then◌else◌, any, keep_if, length,
}
use dnsentinal.Types.{Bytes, bytes_eq, Message, Question, Rr, empty_message}
use dnsentinal.Types.RrType
use dnsentinal.Types.RCode
use dnsentinal.Name.Text.{to_string}
use dnsentinal.Policy.Acl.{
  Family, inet, inet6, SocketAddress, IpAddress, Subnet, ip_address, network, contains,
}

pub record RrlConfig : Type 0 where
  pub responses_per_second : ℕ
  pub window_seconds : ℕ
  pub slip : ℕ
  pub ipv4_prefix : ℕ
  pub ipv6_prefix : ℕ
  pub exempt : List Subnet
  pub max_entries : ℕ

pub data RrlVerdict : Type 0 where
  send drop_it slip_it : RrlVerdict

pub record Entry : Type 0 where
  pub window_start : ℕ
  pub sent : ℕ
  pub excess : ℕ

abbrev pub new_entry : ℕ → Entry
new_entry now = record { window_start = now; sent = 0; excess = 0 }

abbrev pub second : ℕ
second = 1_000_000_000

-- `window_`, in whole seconds
abbrev pub window_length : RrlConfig → ℕ
window_length config = max config.window_seconds 1

abbrev pub expired : RrlConfig → ℕ → Entry → Bool
expired config now e = leb (window_length config * second) (now - e.window_start)

abbrev pub cap : RrlConfig → ℕ
cap config = config.responses_per_second * window_length config

unfoldable pub count_fresh : RrlConfig → Entry → Entry × RrlVerdict
count_fresh config e =
    let sent = (e.sent + 1) % 2 ^ 32 in
    let excess = (e.excess + 1) % 2 ^ 32 in
    if leb sent (cap config) then (record e { sent = sent }, send) else (
      record e { sent = sent; excess = excess },
      (if not (config.slip == 0) && excess % config.slip == 0 then slip_it else drop_it),
    )

unfoldable pub count : RrlConfig → Entry → ℕ → Entry × RrlVerdict
unfolding count_fresh
count config e now = count_fresh config (if expired config now e then new_entry now else e)

pub record Limiter : Type 0 where
  pub config : RrlConfig
  pub entries : List (Bytes × Entry)
  pub overflow : Entry
  pub overflow_used : Bool
  pub last_sweep : ℕ
  pub dropped : ℕ
  pub slipped : ℕ

abbrev pub new_limiter : RrlConfig → Limiter
new_limiter config = record {
  config = config;
  entries = [];
  overflow = new_entry 0;
  overflow_used = false;
  last_sweep = 0;
  dropped = 0;
  slipped = 0;
}

unfoldable pub forget_expired : Limiter → ℕ → Limiter
forget_expired l now = record l {
  entries = keep_if (λ e. not (expired l.config now e.1)) l.entries;
  last_sweep = now;
}

abbrev pub is_soa : Rr → Bool
is_soa r = r.rr_type == RrType.soa_record

abbrev pub soa_owner : List Rr → Option Bytes
soa_owner [] = none
soa_owner (r ∷ rest) = if is_soa r then some (to_string r.name) else soa_owner rest

abbrev pub first_name : List Question → Bytes
first_name [] = []
first_name (q ∷ rest) = to_string q.qname

abbrev pub first_type : List Question → ℕ
first_type [] = 0
first_type (q ∷ rest) = q.qtype

abbrev pub has_none : List Rr → Bool
has_none [] = true
has_none (r ∷ rest) = false

abbrev pub owner_or : Option Bytes → Bytes → Bytes
owner_or none name = name
owner_or (some owner) name = owner

-- The name a response is counted under: the zone for negative answers.
unfoldable pub counted_name : Message → Bytes
counted_name response =
    let code = response.header.rcode in
    let negative =
      code == RCode.nx_domain || (code == RCode.no_error && has_none response.answers) in
    let name = first_name response.questions in
    if negative then owner_or (soa_owner response.authority) name else name

unfoldable pub fingerprint : (Family → ℕ) → RrlConfig → IpAddress → Message → Bytes
unfolding counted_name network
fingerprint af config ip response =
    let prefix = prefix_of ip.family in
    let net = network prefix ip in
    let qtype = first_type response.questions in
    (af net.family % 2 ^ 8 ∷ net.bytes)
    ++ (response.header.rcode ∷ qtype / 2 ^ 8 ∷ qtype % 2 ^ 8 ∷ counted_name response)
  where
    prefix_of : Family → ℕ
    prefix_of inet = config.ipv4_prefix
    prefix_of inet6 = config.ipv6_prefix

unfoldable pub find_entry : Bytes → List (Bytes × Entry) → Option Entry
find_entry key [] = none
find_entry key ((k, e) ∷ rest) = if bytes_eq k key then some e else find_entry key rest

unfoldable pub put_entry : Bytes → Entry → List (Bytes × Entry) → List (Bytes × Entry)
put_entry key entry [] = (key, entry) ∷ []
put_entry key entry ((k, e) ∷ rest) =
    if bytes_eq k key then (k, entry) ∷ rest else (k, e) ∷ put_entry key entry rest

-- The counters of what was not sent as it is.
abbrev pub tally : RrlVerdict → Limiter → Limiter
tally send l = l
tally drop_it l = record l { dropped = (l.dropped + 1) % 2 ^ 64 }
tally slip_it l = record l { slipped = (l.slipped + 1) % 2 ^ 64 }

abbrev pub store : Limiter → Bytes → Entry × RrlVerdict → RrlVerdict × Limiter
store l key counted =
    (counted.1, tally counted.1 (record l { entries = put_entry key counted.0 l.entries }))

unfoldable pub check_overflow : Limiter → ℕ → RrlVerdict × Limiter
unfolding count
check_overflow l now =
    let entry = if l.overflow_used then l.overflow else new_entry now in
    let counted = count l.config entry now in
    (counted.1, tally counted.1 (record l { overflow = counted.0; overflow_used = true }))

unfoldable pub check_new : Limiter → Bytes → ℕ → RrlVerdict × Limiter
unfolding check_overflow forget_expired count
check_new l key now =
    let full = leb l.config.max_entries (length l.entries) in
    let swept = if full && leb second (now - l.last_sweep) then forget_expired l now else l in
    if leb l.config.max_entries (length swept.entries)
    then check_overflow swept now
    else store swept key (count l.config (new_entry now) now)

unfoldable pub check_entry : Limiter → Bytes → Option Entry → ℕ → RrlVerdict × Limiter
unfolding check_new count
check_entry l key none now = check_new l key now
check_entry l key (some e) now = store l key (count l.config e now)

unfoldable pub check_ip :
    (Bytes → Bool)
    → (Family → ℕ)
    → Limiter
    → Option IpAddress
    → SocketAddress
    → Message
    → ℕ
    → RrlVerdict × Limiter
unfolding check_entry find_entry fingerprint contains
check_ip is_v4_mapped af l none client response now = (send, l)
check_ip is_v4_mapped af l (some ip) client response now =
    let key = fingerprint af l.config ip response in
    if any (λ s. contains is_v4_mapped s client) l.config.exempt
    then (send, l)
    else check_entry l key (find_entry key l.entries) now

unfoldable pub check :
    (Bytes → Bool) → (Family → ℕ) → Limiter → SocketAddress → Message → ℕ → RrlVerdict × Limiter
unfolding check_ip ip_address
check is_v4_mapped af l client response now =
    if l.config.responses_per_second == 0
    then (send, l)
    else check_ip is_v4_mapped af l (ip_address is_v4_mapped client) client response now

-- What a slip sends.
unfoldable pub truncated : Message → Message
truncated response = record empty_message {
  header = record response.header { tc = true };
  questions = response.questions;
  edns = response.edns;
}
