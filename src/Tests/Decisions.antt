-- ===== src/Tests/Decisions.antt =====
-- Policy, security, server selection and the processor on concrete inputs.
use dnsentinal.Common.{
  ◌/◌, ◌^◌, ℕ, ◌+◌, ◌-◌, ◌≤◌, ◌<◌, ◌≡◌, ◌↔◌, ◌⊎◌, refl, min, Bool, true, false, not, ◌||◌, List, [],
  ◌∷◌, All, arith, some, none,
}
use dnsentinal.Types.{Bytes, Rr, Name, Message}
use dnsentinal.Security.Bailiwick.{
  Inside, SameInside, records, filter_to_bailiwick, filter_to_bailiwick_lem,
}
use dnsentinal.Security.Rrl.{RrlConfig, new_entry, cap}
use dnsentinal.Security.Rrl.Window.{sends, sends-cap}
use dnsentinal.Policy.Acl.{inet}
use dnsentinal.Policy.Acl.{contains, inet}
use dnsentinal.Policy.Acl.Numbers.{value}
use dnsentinal.Policy.Acl.Prefixes.{client, subnet_of, contains-subnet_of}
use dnsentinal.Policy.CnameCheck.{cname_chain, TrieLookupResult, CloakedName, block}
use dnsentinal.Policy.CnameCheck.Chain.{IsChain, cname_chain-IsChain}
use dnsentinal.Policy.Rebinding.{
  RebindingConfig, exempt, is_private_address, strip, count_if, strip_lem,
}
use dnsentinal.Resolver.ServerSelection.{
  Selection, Info, new_info, pick, rank, timeout, min_timeout,
}
use dnsentinal.Resolver.ServerSelection.Choice.{NotAfter, pick-NotAfter}
use dnsentinal.Resolver.ServerSelection.Estimates.{timeout-Between}
use dnsentinal.Server.QueryProcessor.{
  Processor, null_ip, reject_reason, other_version, is_address, finish, check_chain, blocked,
  block_event,
}
use dnsentinal.Server.QueryProcessor.Answers.{NonePrivate, finish-NonePrivate}
use dnsentinal.Server.QueryProcessor.Rejections.{AsksOne, reject_reason_iff}
use dnsentinal.Tests.Samples.{www_net, net_name, address, alias, router, query, question, response}

filter_to_bailiwick_lem_example :
    let (kept, removed) = filter_to_bailiwick response net_name in
    (Inside net_name kept.answers × SameInside net_name response.answers kept.answers)
    × (Inside net_name kept.authority × SameInside net_name response.authority kept.authority)
    × (Inside net_name kept.additional × SameInside net_name response.additional kept.additional)
    × (removed + records kept ≡ records response)
    × (kept.header ≡ response.header)
    × (kept.questions ≡ response.questions)
    × (kept.edns ≡ response.edns)
filter_to_bailiwick_lem_example = filter_to_bailiwick_lem response net_name

abbrev rrl : RrlConfig
rrl = record {
  responses_per_second = 2;
  window_seconds = 1;
  slip = 2;
  ipv4_prefix = 24;
  ipv6_prefix = 56;
  exempt = [];
  max_entries = 65536;
}

abbrev times : List ℕ
times = 1 ∷ 2 ∷ 3 ∷ 999_999_999 ∷ []

sends-cap_example : sends rrl (new_entry 0) times ≡ min 4 (cap rrl - 0)
sends-cap_example =
    sends-cap rrl (new_entry 0) times (refl, (refl, (refl, (refl, tt)))) (omega arith)

abbrev never_mapped : Bytes → Bool
never_mapped addr = false

-- Both are in 192.168.0.0/21.
contains-subnet_of_example :
    (contains never_mapped
        (subnet_of inet 21 (192 ∷ 168 ∷ 4 ∷ 0 ∷ []))
        (client inet (192 ∷ 168 ∷ 1 ∷ 7 ∷ []))
      ≡ true)
    ↔ (value (192 ∷ 168 ∷ 1 ∷ 7 ∷ []) / 2 ^ 11 ≡ value (192 ∷ 168 ∷ 4 ∷ 0 ∷ []) / 2 ^ 11)
contains-subnet_of_example =
    contains-subnet_of never_mapped inet 21 (192 ∷ 168 ∷ 1 ∷ 7 ∷ []) (192 ∷ 168 ∷ 4 ∷ 0 ∷ [])
      (omega arith, (omega arith, (omega arith, (omega arith, tt))))
      (omega arith, (omega arith, (omega arith, (omega arith, tt)))) refl refl (omega arith) refl

cname_chain-IsChain_example :
    (chain : List Name) × (cname_chain www_net (alias ∷ []) ≡ some chain)
    × IsChain (alias ∷ []) (www_net ∷ []) www_net chain
cname_chain-IsChain_example = cname_chain-IsChain www_net (alias ∷ [])

abbrev protection : RebindingConfig
protection = record { enabled = true; exempt_zones = [] }

abbrev answers : List Rr
answers = address www_net ∷ router ∷ []

strip_lem_example :
    ((not protection.enabled || exempt protection www_net ≡ true)
        × (strip never_mapped protection www_net answers ≡ ([], answers))
      ⊎ ((not protection.enabled || exempt protection www_net ≡ false)
          × All
              (λ r. is_private_address never_mapped r.rdata ≡ true)
              (strip never_mapped protection www_net answers).0
          × All
              (λ r. not (is_private_address never_mapped r.rdata) ≡ true)
              (strip never_mapped protection www_net answers).1))
    × (count_if is_address (strip never_mapped protection www_net answers).0
          + count_if is_address (strip never_mapped protection www_net answers).1
        ≡ count_if is_address answers)
strip_lem_example = strip_lem never_mapped protection www_net answers is_address

abbrev fast : Info
fast = record new_info { measured = true; srtt = 20_000; rttvar = 5_000; updated = 1 }

abbrev slow : Info
slow = record fast { srtt = 300_000 }

abbrev selection : Selection
selection = record { explore_one_in = 20; servers = (7, slow) ∷ (8, fast) ∷ []; updates = 2 }

-- The first draw below n is n - 1.
abbrev last_of : ℕ → ℕ → ℕ
last_of k n = n - 1

below : (k n : ℕ) → 0 < n → last_of k n < n
below k n h = omega arith

pick-NotAfter_example :
    All
      (λ y.
        NotAfter
          (rank selection 100 (pick selection last_of 100 (7 ∷ 8 ∷ [])))
          (rank selection 100 y))
      (7 ∷ 8 ∷ [])
pick-NotAfter_example = pick-NotAfter selection last_of below 100 7 (8 ∷ []) refl

timeout-Between_example :
    (min min_timeout 1500 ≤ timeout selection 8 1500 100) × (timeout selection 8 1500 100 ≤ 1500)
timeout-Between_example = timeout-Between selection 8 1500 100

reject_reason_iff_example :
    (reject_reason query ≡ none)
    ↔ ((other_version query.edns ≡ false) × (query.header.opcode ≡ 0) × AsksOne query.questions)
reject_reason_iff_example = reject_reason_iff query

abbrev unlisted : Name → TrieLookupResult
unlisted n = record { matched = false; action = block; rule = []; source = [] }

abbrev processor : Processor
processor = record {
  trie = unlisted;
  check_cname_chain = true;
  response = null_ip;
  block_ttl = 60;
  rebinding = protection;
  is_v4_mapped = never_mapped;
}

abbrev resolved : Message
resolved = record response { answers = answers }

finish-NonePrivate_example :
    ((c : CloakedName) × (r : Message) × (some resolved ≡ some r)
      × (check_chain processor false question r ≡ some c)
      × (finish processor false question query (some resolved)
          ≡ (blocked query null_ip 60, block_event question c ∷ [])))
    ⊎ NonePrivate processor (finish processor false question query (some resolved)).0.answers
unfolding exempt
finish-NonePrivate_example =
    finish-NonePrivate processor question query refl refl false (some resolved)
