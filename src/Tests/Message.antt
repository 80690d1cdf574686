-- ===== src/Tests/Message.antt =====
-- Runs of `Unpack` on a reply with a compressed name in its record data.
use labyrinth.Prelude.{none, ◌≡◌, refl, List, [], ◌∷◌, ◌++◌, Bytes, arith}
use labyrinth.Text.{equal, join, split, has_suffix, trim_suffix}
use labyrinth.Text.Labels.{IsLabels}
use labyrinth.Dns.Edns.{uint16_at, take_option, parse_options, parse_opt, first_opt}
use labyrinth.Dns.Wire.{ok, err, truncated, slice_at, read_uint16, read_uint32}
use labyrinth.Dns.Name.{decode_loop, decode_name}
use labyrinth.Dns.Message.{Message, type_ns}
use labyrinth.Dns.Rdata.{parse_name}
use labyrinth.Dns.Record.{
  unpack_question, plain_labels, encode_plain_name, copy_rdata, unpack_name_rdata, unpack_rdata,
  unpack_body, unpack_rr, unpack_header, unpack_many, unpack,
}
use labyrinth.Dns.Record.Safe.{Safe}
use labyrinth.Dns.Record.Whole.{IsCounted, unpack-Safe}
use labyrinth.Dns.Record.Plain.{parse_name-unpack_rdata}
use labyrinth.Tests.Names.{text}
use labyrinth.Tests.Samples.{host}

program : Unit {0}
unfolding equal join split has_suffix trim_suffix slice_at read_uint16 read_uint32 decode_loop
    decode_name parse_name unpack_question plain_labels encode_plain_name copy_rdata
    unpack_name_rdata unpack_rdata unpack_body unpack_rr unpack_header unpack_many first_opt
    parse_opt parse_options take_option uint16_at unpack
program = tt

-- "example.com", asked for and answered: the NS record is "ns" and a pointer to the question.
abbrev packet : Bytes
packet =
    0
    ∷ 7
    ∷ 0x84
    ∷ 0
    ∷ 0
    ∷ 1
    ∷ 0
    ∷ 1
    ∷ 0
    ∷ 0
    ∷ 0
    ∷ 0
    ∷ 7
    ∷ (text "example"
        ++ (3
            ∷ (text "com"
                ++ (0
                    ∷ 0
                    ∷ 2
                    ∷ 0
                    ∷ 1
                    ∷ 0xC0
                    ∷ 12
                    ∷ 0
                    ∷ 2
                    ∷ 0
                    ∷ 1
                    ∷ 0
                    ∷ 0
                    ∷ 1
                    ∷ 44
                    ∷ 0
                    ∷ 5
                    ∷ 2
                    ∷ (text "ns" ++ (0xC0 ∷ 12 ∷ []))))))

abbrev example : Bytes
example = text "example.com"

abbrev read : Message
read = record {
  header = record {
    id = 7;
    flags = 0x8400;
    qd_count = 1;
    an_count = 1;
    ns_count = 0;
    ar_count = 0;
  };
  questions = (record { name = example; qtype = 2; class = 1 }) ∷ [];
  answers =
      (record { name = example; rtype = 2; class = 1; ttl = 300; rd_length = 16; rdata = host })
      ∷ [];
  authority = [];
  additional = [];
  edns0 = none;
}

unpack_run : unpack packet ≡ ok read
unfolding program
unpack_run = refl

-- One option of code 10 with two bytes, and half of another.
options_run :
    parse_options 9 (0 ∷ 10 ∷ 0 ∷ 2 ∷ 7 ∷ 8 ∷ 0 ∷ 3 ∷ []) 8 0
    ≡ ok (record { code = 10; data_bytes = 7 ∷ 8 ∷ [] } ∷ [])
unfolding program
options_run = refl

cut_run : unpack_rr (0 ∷ 0 ∷ 1 ∷ 0 ∷ 1 ∷ 0 ∷ 0 ∷ 0 ∷ 0 ∷ 0 ∷ 4 ∷ 9 ∷ []) 0 ≡ err truncated
unfolding program
cut_run = refl

unpack-Safe_example : Safe IsCounted (unpack packet)
unpack-Safe_example = unpack-Safe packet

abbrev labels : List Bytes
labels = text "ns" ∷ text "example" ∷ text "com" ∷ []

labels-IsLabels : IsLabels labels
labels-IsLabels = ground arith

server_run : decode_name packet 41 ≡ ok (join labels, 46)
unfolding program
server_run = refl

parse_name-unpack_rdata_example :
    (rdata : Bytes) × (unpack_rdata type_ns packet 41 5 ≡ ok rdata)
    × (parse_name rdata 0 ≡ ok (join labels))
parse_name-unpack_rdata_example =
    parse_name-unpack_rdata packet 41 5 46 labels server_run labels-IsLabels
      (omega arith, (omega arith, (omega arith, tt)))
