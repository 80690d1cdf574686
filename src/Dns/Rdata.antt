-- ===== src/Dns/Rdata.antt =====
-- dns/rdata.go: names, the SOA fields and the RRSIG fields out of record data.
use labyrinth.Prelude.{ℕ, Bytes, if◌then◌else◌, ltb, ◌==◌, length, drop, get_or}
use labyrinth.Dns.Wire.{Result, ok, err, invalid_message, ◌>>=◌, uint16_at, uint32_at, read_uint32}
use labyrinth.Dns.Name.{decode_name}

-- `ParseA` and `ParseAAAA`: the bytes of an address. The error, which has a text of its own, is
-- `invalid_message`.
unfoldable pub parse_a : Bytes → Result Bytes
parse_a rdata = if length rdata == 4 then ok rdata else err invalid_message

unfoldable pub parse_aaaa : Bytes → Result Bytes
parse_aaaa rdata = if length rdata == 16 then ok rdata else err invalid_message

-- `ParseNS`, `ParseCNAME`, `ParsePTR` and `ParseDNAME`, which have one body.
unfoldable pub parse_name : Bytes → ℕ → Result Bytes
parse_name msg offset = do (name, _) ← decode_name msg offset; ok name

pub record SoaRecord : Type 0 where
  pub mname : Bytes
  pub rname : Bytes
  pub serial : ℕ
  pub refresh : ℕ
  pub retry : ℕ
  pub expire : ℕ
  pub minimum : ℕ

unfoldable pub parse_soa : Bytes → ℕ → Result SoaRecord
parse_soa msg offset = do
  (mname, o1) ← decode_name msg offset
  (rname, o2) ← decode_name msg o1
  (serial, r1) ← read_uint32 (record { buf = msg; offset = o2 })
  (refresh, r2) ← read_uint32 r1
  (retry, r3) ← read_uint32 r2
  (expire, r4) ← read_uint32 r3
  (minimum, _) ← read_uint32 r4
  ok (record {
    mname = mname;
    rname = rname;
    serial = serial;
    refresh = refresh;
    retry = retry;
    expire = expire;
    minimum = minimum;
  })

pub record RrsigRecord : Type 0 where
  pub type_covered : ℕ
  pub algorithm : ℕ
  pub labels : ℕ
  pub orig_ttl : ℕ
  pub expiration : ℕ
  pub inception : ℕ
  pub key_tag : ℕ
  pub signer_name : Bytes
  pub signature : Bytes

-- `ParseRRSIG`; the error for short data, which has a text of its own, is `invalid_message`.
unfoldable pub parse_rrsig : Bytes → Result RrsigRecord
parse_rrsig rdata = if ltb (length rdata) 18 then err invalid_message else (do
  (name, name_end) ← decode_name rdata 18
  ok (record {
    type_covered = uint16_at rdata 0;
    algorithm = get_or rdata 2 0;
    labels = get_or rdata 3 0;
    orig_ttl = uint32_at rdata 4;
    expiration = uint32_at rdata 8;
    inception = uint32_at rdata 12;
    key_tag = uint16_at rdata 16;
    signer_name = name;
    signature = drop name_end rdata;
  }))
