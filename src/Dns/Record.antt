-- ===== src/Dns/Record.antt =====
-- dns/record.go, dns/question.go, `Header.Unpack` of dns/header.go and `Unpack` of dns/wire.go. A
-- Go slice that is out of range panics, which is the error `out_of_range`.
pub mod Safe
pub mod Opt
pub mod Whole
pub mod Plain
use labyrinth.Prelude.{
  ℕ, zero, suc, ◌+◌, ◌-◌, ◌%◌, Bool, true, false, ◌||◌, List, [], ◌∷◌, ◌++◌, Bytes, leb, ltb, ◌==◌,
  if◌then◌else◌, length,
}
use labyrinth.Text.{equal, trim_suffix, split}
use labyrinth.Dns.Wire.{
  Result, ok, err, truncated, ◌>>=◌, be16, uint16_at, WireReader, read_uint16, read_uint32,
  slice_at,
}
use labyrinth.Dns.Name.{decode_name}
use labyrinth.Dns.Edns.{first_opt}
use labyrinth.Dns.Message.{
  Header, Question, ResourceRecord, Message, type_ns, type_cname, type_ptr, type_dname, type_mx,
  type_soa, type_srv, type_rrsig, type_nsec,
}

-- `UnpackQuestion`: the question, and the offset behind it.
unfoldable pub unpack_question : Bytes → ℕ → Result (Question × ℕ)
unpack_question msg offset = do
  (name, o) ← decode_name msg offset
  (qtype, r1) ← read_uint16 (record { buf = msg; offset = o })
  (class, r2) ← read_uint16 r1
  ok (record { name = name; qtype = qtype; class = class }, r2.offset)

-- The loop of `encodePlainName`, over the labels.
unfoldable pub plain_labels : List Bytes → Bytes
plain_labels [] = 0 ∷ []
plain_labels (l ∷ ls) = (length l % 256) ∷ (l ++ plain_labels ls)

-- `encodePlainName`.
unfoldable pub encode_plain_name : Bytes → Bytes
encode_plain_name name =
    if equal name [] || equal name (b'.' ∷ [])
    then 0 ∷ []
    else plain_labels (split (trim_suffix name (b'.' ∷ [])))

-- `copyRData`.
unfoldable pub copy_rdata : Bytes → ℕ → ℕ → Result Bytes
copy_rdata msg offset n = slice_at msg offset (offset + n)

-- The record data of the types that are a name.
unfoldable pub unpack_name_rdata : Bytes → ℕ → ℕ → Result Bytes
unpack_name_rdata msg start n = elim (decode_name msg start) [
  | ok (name, _) ↦ ok (encode_plain_name name)
  | err _ ↦ copy_rdata msg start n
]

-- The types that are `k` bytes and a name: MX and SRV.
unfoldable pub unpack_prefixed_rdata : ℕ → Bytes → ℕ → ℕ → Result Bytes
unpack_prefixed_rdata k msg start n =
    if leb k n
    then (do
      fixed ← slice_at msg start (start + k)
      elim (decode_name msg (start + k)) [
        | ok (name, _) ↦ ok (fixed ++ encode_plain_name name)
        | err _ ↦ copy_rdata msg start n
      ])
    else copy_rdata msg start n

-- SOA: two names and 20 bytes.
unfoldable pub unpack_soa_rdata : Bytes → ℕ → ℕ → Result Bytes
unpack_soa_rdata msg start n = elim (decode_name msg start) [
  | err _ ↦ copy_rdata msg start n
  | ok (mname, o1) ↦ elim (decode_name msg o1) [
    | err _ ↦ copy_rdata msg start n
    | ok (rname, o2) ↦ if ltb (start + n) (o2 + 20) then copy_rdata msg start n else (do
      numbers ← slice_at msg o2 (o2 + 20)
      ok (encode_plain_name mname ++ (encode_plain_name rname ++ numbers)))
  ]
]

-- NSEC: a name and the rest of the data; and RRSIG, where 18 bytes stand before the name.
unfoldable pub unpack_tailed_rdata : ℕ → Bytes → ℕ → ℕ → Result Bytes
unpack_tailed_rdata k msg start n =
    if leb k n
    then elim (decode_name msg (start + k)) [
      | err _ ↦ copy_rdata msg start n
      | ok (name, name_end) ↦
          if leb name_end (start + n)
          then (do
            fixed ← slice_at msg start (start + k)
            tail ← slice_at msg name_end (start + n)
            ok (fixed ++ (encode_plain_name name ++ tail)))
          else copy_rdata msg start n
    ]
    else copy_rdata msg start n

-- The switch of `UnpackRR`.
unfoldable pub unpack_rdata : ℕ → Bytes → ℕ → ℕ → Result Bytes
unpack_rdata rtype msg start n =
    if rtype == type_ns || rtype == type_cname || rtype == type_ptr || rtype == type_dname
    then unpack_name_rdata msg start n
    else if rtype == type_mx
    then unpack_prefixed_rdata 2 msg start n
    else if rtype == type_soa
    then unpack_soa_rdata msg start n
    else if rtype == type_srv
    then unpack_prefixed_rdata 6 msg start n
    else if rtype == type_rrsig
    then unpack_tailed_rdata 18 msg start n
    else if rtype == type_nsec
    then unpack_tailed_rdata 0 msg start n
    else copy_rdata msg start n

-- The second half of `UnpackRR`, behind the fixed fields.
unfoldable pub unpack_body : Bytes → Bytes → ℕ → ℕ → ℕ → ℕ → ℕ → Result (ResourceRecord × ℕ)
unpack_body msg name rtype class ttl n start =
    if ltb (length msg) (start + n) then err truncated else (do
      rdata ← unpack_rdata rtype msg start n
      ok (
        record {
          name = name;
          rtype = rtype;
          class = class;
          ttl = ttl;
          rd_length = length rdata % 65536;
          rdata = rdata;
        },
        start + n,
      ))

-- `UnpackRR`: the record, and the offset behind it.
unfoldable pub unpack_rr : Bytes → ℕ → Result (ResourceRecord × ℕ)
unpack_rr msg offset = do
  (name, o) ← decode_name msg offset
  (rtype, r1) ← read_uint16 (record { buf = msg; offset = o })
  (class, r2) ← read_uint16 r1
  (ttl, r3) ← read_uint32 r2
  (n, r4) ← read_uint16 r3
  unpack_body msg name rtype class ttl n r4.offset

-- `Header.Unpack`.
unfoldable pub unpack_header : WireReader → Result (Header × WireReader)
unpack_header r = do
  (id, r1) ← read_uint16 r
  (flags, r2) ← read_uint16 r1
  (qd_count, r3) ← read_uint16 r2
  (an_count, r4) ← read_uint16 r3
  (ns_count, r5) ← read_uint16 r4
  (ar_count, r6) ← read_uint16 r5
  ok (
    record {
      id = id;
      flags = flags;
      qd_count = qd_count;
      an_count = an_count;
      ns_count = ns_count;
      ar_count = ar_count;
    },
    r6,
  )

-- The loops of `Unpack`: so many items, one behind the other.
unfoldable pub unpack_many :
    {A : Type 0} → (Bytes → ℕ → Result (A × ℕ)) → Bytes → ℕ → ℕ → Result (List A × ℕ)
unpack_many item msg zero offset = ok ([], offset)
unpack_many item msg (suc count) offset = do
  (x, o) ← item msg offset
  (xs, e) ← unpack_many item msg count o
  ok (x ∷ xs, e)

-- `Unpack`.
unfoldable pub unpack : Bytes → Result Message
unpack buf = if ltb (length buf) 12 then err truncated else (do
  (header, r) ← unpack_header (record { buf = buf; offset = 0 })
  (questions, o1) ← unpack_many unpack_question buf header.qd_count r.offset
  (answers, o2) ← unpack_many unpack_rr buf header.an_count o1
  (authority, o3) ← unpack_many unpack_rr buf header.ns_count o2
  (additional, _) ← unpack_many unpack_rr buf header.ar_count o3
  edns0 ← first_opt additional
  ok (record {
    header = header;
    questions = questions;
    answers = answers;
    authority = authority;
    additional = additional;
    edns0 = edns0;
  }))
