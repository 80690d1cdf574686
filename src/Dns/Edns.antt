-- ===== src/Dns/Edns.antt =====
-- The reading half of dns/edns.go: what an OPT record says.
use labyrinth.Prelude.{
  ℕ, zero, suc, ◌+◌, ◌*◌, ◌/◌, ◌%◌, ◌^◌, List, [], ◌∷◌, Option, none, some, Bytes, if◌then◌else◌,
  leb, ltb, ◌==◌, not, length, get_or,
}
use labyrinth.Dns.Wire.{
  Result, ok, err, ◌>>=◌, out_of_range, out_of_fuel, invalid_message, slice_at,
}
use labyrinth.Dns.Message.{ResourceRecord, EdnsOption, Edns0, type_opt}

-- `binary.BigEndian.Uint16(b[at:])`, which panics where two bytes are not left.
unfoldable pub uint16_at : Bytes → ℕ → Result ℕ
uint16_at b at =
    if ltb (length b) (at + 2)
    then err out_of_range
    else ok (get_or b at 0 * 256 + get_or b (at + 1) 0)

-- The rest of a round, behind the two numbers: an option that runs over the end ends the loop.
unfoldable pub take_option :
    (ℕ → Result (List EdnsOption)) → Bytes → ℕ → ℕ → ℕ → ℕ → Result (List EdnsOption)
take_option later rdata n start code opt_len = if ltb n (start + opt_len) then ok [] else (do
  data_bytes ← slice_at rdata start (start + opt_len)
  options ← later (start + opt_len)
  ok (record { code = code; data_bytes = data_bytes } ∷ options))

-- The loop over the options. Each round takes four bytes at least, so one round more than the data
-- has bytes is fuel enough.
unfoldable pub parse_options : ℕ → Bytes → ℕ → ℕ → Result (List EdnsOption)
parse_options zero rdata n offset = err out_of_fuel
parse_options (suc fuel) rdata n offset =
    let later = λ (next : ℕ). parse_options fuel rdata n next in
    if not (leb (offset + 4) n) then ok [] else (do
      code ← uint16_at rdata offset
      opt_len ← uint16_at rdata (offset + 2)
      take_option later rdata n (offset + 4) code opt_len)

-- `ParseOPT`. The error, which has a text of its own, is `invalid_message`.
unfoldable pub parse_opt : ResourceRecord → Result Edns0
parse_opt rr = if not (rr.rtype == type_opt) then err invalid_message else (do
  options ← parse_options (rr.rd_length + 1) rr.rdata rr.rd_length 0
  ok (record {
    udp_size = rr.class;
    ext_rcode = rr.ttl / 2 ^ 24 % 256;
    version = rr.ttl / 2 ^ 16 % 256;
    do_flag = rr.ttl / 2 ^ 15 % 2 == 1;
    options = options;
  }))

-- The last loop of `Unpack`, over the additional section: the first OPT record is read. `Unpack`
-- drops the error of `ParseOPT`, which that record cannot bring about; a panic goes through.
unfoldable pub first_opt : List ResourceRecord → Result (Option Edns0)
first_opt [] = ok none
first_opt (rr ∷ rrs) =
    if rr.rtype == type_opt then (do edns0 ← parse_opt rr; ok (some edns0)) else first_opt rrs
