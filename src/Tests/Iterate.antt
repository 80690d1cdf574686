-- ===== src/Tests/Iterate.antt =====
-- Runs of the resolution: a world with one root server, and what it answers.
use labyrinth.Prelude.{
  ◌≡◌, refl, ℕ, ◌+◌, ◌*◌, ◌/◌, true, false, [], ◌∷◌, Option, none, some, Bytes, arith,
}
use labyrinth.Text.{equal, to_lower, has_suffix, trim_suffix, split, text}
use labyrinth.Dns.Edns.{first_opt}
use labyrinth.Dns.Wire.{read_uint16, read_uint32}
use labyrinth.Dns.Name.{decode_loop, decode_name}
use labyrinth.Dns.Message.{Message, type_a, type_ns, class_in}
use labyrinth.Dns.Rdata.{parse_name}
use labyrinth.Dns.Record.{
  unpack_question, plain_labels, encode_plain_name, copy_rdata, unpack_name_rdata, unpack_rdata,
  unpack_body, unpack_rr, unpack_header, unpack_many, unpack,
}
use labyrinth.Resolver.Upstream.{
  Outside, Config, validate_response_question, checked, receive, exchange, send_query, attempts,
  query_upstream, got,
}
use labyrinth.Security.Bailiwick.{in_zone, filter_in_zone, ns_names, keep_glue, sanitize_bailiwick}
use labyrinth.Cache.Entry.{sanitize_wire_ttl, min_ttl_from, extract_ttl}
use labyrinth.Cache.Shard.{lookup}
use labyrinth.Cache.Store.{store_with_status, store}
use labyrinth.Tests.Cache.{empty}
use labyrinth.Cache.Reads.{find_entry, find_or_sentinel, get, miss}
use labyrinth.Resolver.Classify.{
  referral, soa_covers_name, scan_answers, scan_authority, classify_response,
}
use labyrinth.Resolver.Infra.{new_infra_cache}
use labyrinth.Resolver.Delegation.{
  GoLib, NameServer, add_host, collect_ns, collect_glue, extract_delegation, delegation_records,
  has_ns_record, cache_delegation,
}
use labyrinth.Resolver.World.{World, Validator, Resolver, endless}
use labyrinth.Resolver.Iterate.{resolve_ns_addr}
use labyrinth.Resolver.Iterate.Trap.{IsTrap, resolve_ns_addr-endless}

abbrev pub config : Config
config = record {
  max_depth = 30;
  max_cname_depth = 10;
  upstream_retries = 2;
  qmin_enabled = false;
  caps_0x20_enabled = false;
  prefer_ipv4 = true;
  dnssec_enabled = true;
  dns64_enabled = true;
  fallback_resolvers = [];
}

-- A referral for "ns.x" to the zone "x", whose server is "ns.x", without an address.
abbrev pub referral_bytes : Bytes
referral_bytes =
    0 ∷ 7 ∷ 0x80 ∷ 0 ∷ 0 ∷ 1 ∷ 0 ∷ 0 ∷ 0 ∷ 1 ∷ 0 ∷ 0 ∷ 2 ∷ b'n' ∷ b's' ∷ 1 ∷ b'x' ∷ 0 ∷ 0 ∷ 1 ∷ 0
    ∷ 1 ∷ 1 ∷ b'x' ∷ 0 ∷ 0 ∷ 2 ∷ 0 ∷ 1 ∷ 0 ∷ 0 ∷ 0 ∷ 0 ∷ 0 ∷ 6 ∷ 2 ∷ b'n' ∷ b's' ∷ 1 ∷ b'x' ∷ 0 ∷ []

abbrev pub referral_message : Message
referral_message = record {
  header = record {
    id = 7;
    flags = 0x8000;
    qd_count = 1;
    an_count = 0;
    ns_count = 1;
    ar_count = 0;
  };
  questions = record { name = text "ns.x"; qtype = 1; class = 1 } ∷ [];
  answers = [];
  authority =
      record {
        name = text "x";
        rtype = type_ns;
        class = 1;
        ttl = 0;
        rd_length = 6;
        rdata = 2 ∷ b'n' ∷ b's' ∷ 1 ∷ b'x' ∷ 0 ∷ [];
      }
      ∷ [];
  additional = [];
  edns0 = none;
}

-- Every question is answered with these bytes.
abbrev pub answers_with : Bytes → Outside
answers_with bytes = record {
  now = λ clock. clock * 1000000;
  tx_id = λ clock. some 7;
  random = λ clock i. 0xAA;
  udp = λ clock ip q. some bytes;
  tcp = λ clock ip q. none;
}

pub referral_reply :
    (clock : ℕ)
    → query_upstream
        (answers_with referral_bytes)
        config
        clock
        (text "192.0.2.1")
        (text "ns.x")
        type_a
        class_in
      ≡ (got referral_message, clock + 1)
unfolding query_upstream attempts send_query exchange receive checked validate_response_question
    unpack first_opt unpack_many unpack_header unpack_rr unpack_body unpack_rdata unpack_name_rdata
    unpack_question copy_rdata encode_plain_name plain_labels decode_name decode_loop read_uint16
    read_uint32 equal to_lower trim_suffix has_suffix split
referral_reply clock = refl

abbrev pub root : NameServer
root = record { name = text "a.root-servers.net"; ipv4 = text "192.0.2.1"; ipv6 = [] }

-- Go's library, with addresses left as bytes and the map walked in its own order.
abbrev pub go_lib : GoLib
go_lib = record {
  ip_string = λ ip. ip;
  parse_ip16 = λ s. some s;
  map_order = λ ds. ds;
  mean = λ old sample. (7 * old + 3 * sample) / 10;
}

abbrev pub resolver_with : Bytes → Option Validator → Resolver
resolver_with bytes validator = record {
  out = answers_with bytes;
  cfg = config;
  lib = go_lib;
  root_servers = root ∷ [];
  dnssec_validator = validator;
}

-- Nothing is stored yet.
abbrev pub fresh : World
fresh = record { cache = empty; infra = new_infra_cache; clock = 0 }

missing : (now qtype : ℕ) → get now fresh.cache (text "ns.x") qtype class_in ≡ miss fresh.cache
unfolding get find_or_sentinel find_entry lookup
missing now qtype = ground arith

referred :
    classify_response (sanitize_bailiwick referral_message []) (text "ns.x") type_a ≡ referral
unfolding classify_response scan_answers scan_authority sanitize_bailiwick filter_in_zone keep_glue
    ns_names soa_covers_name equal to_lower has_suffix parse_name decode_name decode_loop
referred = refl

delegated : extract_delegation go_lib (sanitize_bailiwick referral_message []) ≡ (
  record { hostname = text "ns.x"; ipv4 = []; ipv6 = []; ipv4_ttl = 0; ipv6_ttl = 0 } ∷ [],
  text "x",
)
unfolding extract_delegation collect_ns collect_glue add_host sanitize_bailiwick filter_in_zone
    keep_glue ns_names equal to_lower has_suffix parse_name decode_name decode_loop
delegated = refl

unstored :
    (now : ℕ)
    → cache_delegation now (sanitize_bailiwick referral_message []) (text "x") fresh.cache
      ≡ some fresh.cache
unfolding cache_delegation delegation_records has_ns_record sanitize_bailiwick filter_in_zone
    keep_glue ns_names equal to_lower has_suffix parse_name decode_name decode_loop store
    store_with_status extract_ttl min_ttl_from sanitize_wire_ttl
unstored now = refl

trap : IsTrap (resolver_with referral_bytes none) fresh.cache (text "ns.x") referral_message
unfolding equal to_lower trim_suffix has_suffix in_zone
trap = record {
  depth = 28;
  deep = refl;
  plain = refl;
  root = root;
  roots = refl;
  addressed = refl;
  normal = refl;
  replies = referral_reply;
  refers = referred;
  zone = text "x";
  ttl4 = 0;
  ttl6 = 0;
  delegated = delegated;
  inside = refl;
  unstored = unstored;
  misses = missing;
}

resolve_ns_addr-endless_example :
    (resolve_ns_addr (resolver_with referral_bytes none) 1000 (text "ns.x") type_a fresh).0
    ≡ endless
resolve_ns_addr-endless_example =
    resolve_ns_addr-endless (resolver_with referral_bytes none) (text "ns.x") referral_message fresh
      trap 1000
