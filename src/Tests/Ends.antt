-- ===== src/Tests/Ends.antt =====
-- The end of a resolution at a world whose server refers to a zone, with the address of its server.
use labyrinth.Prelude.{[], ◌∷◌, none, Bytes}
use labyrinth.Text.{text}
use labyrinth.Dns.Message.{Message, type_a, type_ns}
use labyrinth.Resolver.Delegation.{DelegationNs}

-- A referral for "ns.x" to the zone "x", whose server is "x", with its address.
abbrev glued_bytes : Bytes
glued_bytes =
    0 ∷ 7 ∷ 0x80 ∷ 0 ∷ 0 ∷ 1 ∷ 0 ∷ 0 ∷ 0 ∷ 1 ∷ 0 ∷ 1 ∷ 2 ∷ b'n' ∷ b's' ∷ 1 ∷ b'x' ∷ 0 ∷ 0 ∷ 1 ∷ 0
    ∷ 1 ∷ 1 ∷ b'x' ∷ 0 ∷ 0 ∷ 2 ∷ 0 ∷ 1 ∷ 0 ∷ 0 ∷ 0 ∷ 0 ∷ 0 ∷ 3 ∷ 1 ∷ b'x' ∷ 0 ∷ 1 ∷ b'x' ∷ 0 ∷ 0 ∷ 1
    ∷ 0 ∷ 1 ∷ 0 ∷ 0 ∷ 0 ∷ 0 ∷ 0 ∷ 4 ∷ 192 ∷ 0 ∷ 2 ∷ 7 ∷ []

abbrev glued_message : Message
glued_message = record {
  header = record {
    id = 7;
    flags = 0x8000;
    qd_count = 1;
    an_count = 0;
    ns_count = 1;
    ar_count = 1;
  };
  questions = record { name = text "ns.x"; qtype = 1; class = 1 } ∷ [];
  answers = [];
  authority =
      record {
        name = text "x";
        rtype = type_ns;
        class = 1;
        ttl = 0;
        rd_length = 3;
        rdata = 1 ∷ b'x' ∷ 0 ∷ [];
      }
      ∷ [];
  additional =
      record {
        name = text "x";
        rtype = type_a;
        class = 1;
        ttl = 0;
        rd_length = 4;
        rdata = 192 ∷ 0 ∷ 2 ∷ 7 ∷ [];
      }
      ∷ [];
  edns0 = none;
}

abbrev glued : DelegationNs
glued = record {
  hostname = text "x";
  ipv4 = 192 ∷ 0 ∷ 2 ∷ 7 ∷ [];
  ipv6 = [];
  ipv4_ttl = 0;
  ipv6_ttl = 0;
}
