-- ===== src/Dns/Message.antt =====
-- dns/types.go, dns/message.go and the flag methods of dns/header.go.
use labyrinth.Prelude.{ℕ, ◌/◌, ◌%◌, ◌^◌, Bool, List, Option, Bytes, ◌==◌}

abbrev pub type_a : ℕ
type_a = 1

abbrev pub type_ns : ℕ
type_ns = 2

abbrev pub type_cname : ℕ
type_cname = 5

abbrev pub type_soa : ℕ
type_soa = 6

abbrev pub type_ptr : ℕ
type_ptr = 12

abbrev pub type_mx : ℕ
type_mx = 15

abbrev pub type_aaaa : ℕ
type_aaaa = 28

abbrev pub type_srv : ℕ
type_srv = 33

abbrev pub type_dname : ℕ
type_dname = 39

abbrev pub type_opt : ℕ
type_opt = 41

abbrev pub type_ds : ℕ
type_ds = 43

abbrev pub type_rrsig : ℕ
type_rrsig = 46

abbrev pub type_nsec : ℕ
type_nsec = 47

abbrev pub class_in : ℕ
class_in = 1

abbrev pub rcode_no_error : ℕ
rcode_no_error = 0

abbrev pub rcode_form_err : ℕ
rcode_form_err = 1

abbrev pub rcode_serv_fail : ℕ
rcode_serv_fail = 2

abbrev pub rcode_nx_domain : ℕ
rcode_nx_domain = 3

abbrev pub rcode_refused : ℕ
rcode_refused = 5

pub record Header : Type 0 where
  pub id : ℕ
  pub flags : ℕ
  pub qd_count : ℕ
  pub an_count : ℕ
  pub ns_count : ℕ
  pub ar_count : ℕ

pub record Question : Type 0 where
  pub name : Bytes
  pub qtype : ℕ
  pub class : ℕ

-- `RDataOffset`, which nothing modelled here reads, is left out.
pub record ResourceRecord : Type 0 where
  pub name : Bytes
  pub rtype : ℕ
  pub class : ℕ
  pub ttl : ℕ
  pub rd_length : ℕ
  pub rdata : Bytes

-- `EDNSOption` and `EDNS0`.
pub record EdnsOption : Type 0 where
  pub code : ℕ
  pub data_bytes : Bytes

pub record Edns0 : Type 0 where
  pub udp_size : ℕ
  pub ext_rcode : ℕ
  pub version : ℕ
  pub do_flag : Bool
  pub options : List EdnsOption

-- The sections of a message, and what its OPT record says. `Raw` is left out.
pub record Message : Type 0 where
  pub header : Header
  pub questions : List Question
  pub answers : List ResourceRecord
  pub authority : List ResourceRecord
  pub additional : List ResourceRecord
  pub edns0 : Option Edns0

-- `h.Flags>>n&1 == 1`.
abbrev pub flag : ℕ → Header → Bool
flag n h = h.flags / 2 ^ n % 2 == 1

abbrev pub is_aa : Header → Bool
is_aa = flag 10

abbrev pub is_tc : Header → Bool
is_tc = flag 9

abbrev pub is_ad : Header → Bool
is_ad = flag 5

-- `uint8(h.Flags & 0xF)`.
abbrev pub rcode : Header → ℕ
rcode h = h.flags % 16
