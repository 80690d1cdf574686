-- ===== src/Tests/Samples.antt =====
-- Records and messages for the runs.
use labyrinth.Prelude.{none, ℕ, [], ◌∷◌, ◌++◌, Bytes, length}
use labyrinth.Dns.Message.{Header, ResourceRecord, Message, type_a, type_ns}
use labyrinth.Tests.Names.{text}

abbrev pub record_of : Bytes → ℕ → Bytes → ResourceRecord
record_of name rtype rdata = record {
  name = name;
  rtype = rtype;
  class = 1;
  ttl = 300;
  rd_length = length rdata;
  rdata = rdata;
}

abbrev pub address : Bytes
address = 192 ∷ 0 ∷ 2 ∷ 1 ∷ []

-- "ns.example.com" on the wire.
abbrev pub host : Bytes
host = 2 ∷ (text "ns" ++ (7 ∷ (text "example" ++ (3 ∷ (text "com" ++ (0 ∷ []))))))

abbrev pub www : ResourceRecord
www = record_of (text "www.example.com") type_a address

abbrev pub foreign : ResourceRecord
foreign = record_of (text "notexample.com") type_a address

abbrev pub server : ResourceRecord
server = record_of (text "example.com") type_ns host

abbrev pub glue : ResourceRecord
glue = record_of (text "ns.example.com") type_a address

-- The flags of an authoritative reply.
abbrev pub header_of : ℕ → ℕ → Header
header_of flags answers = record {
  id = 7;
  flags = flags;
  qd_count = 1;
  an_count = answers;
  ns_count = 1;
  ar_count = 2;
}

abbrev pub reply : Message
reply = record {
  header = header_of 0x8400 2;
  questions = [];
  answers = www ∷ foreign ∷ [];
  authority = server ∷ [];
  additional = glue ∷ www ∷ [];
  edns0 = none;
}
