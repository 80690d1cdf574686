-- ===== src/Resolver/Upstream.antt =====
-- resolver/upstream.go, and the sending half of resolver/forward.go: one question asked of one
-- server. What the outside world does is a parameter that depends on how often it has been asked.
pub mod Letters
pub mod Accepted
use Prim.Native.Nat.{bit_xor}
use labyrinth.Prelude.{
  ℕ, zero, suc, ◌+◌, ◌-◌, ◌/◌, ◌%◌, Bool, true, false, ◌&&◌, ◌||◌, not, List, [], ◌∷◌, Option, none,
  some, Bytes, if◌then◌else◌, ltb, leb, ◌==◌,
}
use labyrinth.Text.{equal, to_lower, trim_suffix}
use labyrinth.Dns.Wire.{Error, Result, ok, err}
use labyrinth.Dns.Message.{Header, Question, Message, is_tc, rcode, rcode_form_err}
use labyrinth.Dns.Record.{unpack}

-- The errors of the package, and those of its callees.
pub data Failure : Type 0 where
  no_tx_id no_reply tx_id_mismatch no_question question_mismatch : Failure
  cname_chain_too_long loop_detected no_reachable_nameserver : Failure
  bad_wire : Error → Failure

pub data Reply (A : Type 0) : Type 0 where
  got : A → Reply A
  failed : Failure → Reply A

-- The question that is packed and sent, its header flag RD, and whether it has an OPT record.
pub record Query : Type 0 where
  pub id : ℕ
  pub name : Bytes
  pub qtype : ℕ
  pub class : ℕ
  pub rd : Bool
  pub edns : Bool

-- The clock, the source of random numbers and the sockets, by the number of exchanges so far. A
-- socket takes the address of the server and gives the bytes that come back, if any do.
pub record Outside : Type 0 where
  pub now : ℕ → ℕ
  pub tx_id : ℕ → Option ℕ
  pub random : ℕ → ℕ → ℕ
  pub udp : ℕ → Bytes → Query → Option Bytes
  pub tcp : ℕ → Bytes → Query → Option Bytes

-- `ResolverConfig`, less the timeouts, the port and the fields of the client subnet.
pub record Config : Type 0 where
  pub max_depth : ℕ
  pub max_cname_depth : ℕ
  pub upstream_retries : ℕ
  pub qmin_enabled : Bool
  pub caps_0x20_enabled : Bool
  pub prefer_ipv4 : Bool
  pub dnssec_enabled : Bool
  pub dns64_enabled : Bool
  pub fallback_resolvers : List Bytes

abbrev pub is_letter : ℕ → Bool
is_letter c = leb b'a' c && leb c b'z' || leb b'A' c && leb c b'Z'

-- The loop of `randomizeCase`: the number of bytes drawn, and the bits left of the last of them.
unfoldable pub randomize_loop : (ℕ → ℕ) → ℕ → ℕ → ℕ → Bytes → Bytes
randomize_loop random drawn byte bits [] = []
randomize_loop random drawn byte bits (c ∷ cs) =
    let fresh = is_letter c && bits == 0 in
    let b = if fresh then random drawn else byte in
    let left = if fresh then 8 else bits in
    (if is_letter c && not (b % 2 == 0) then bit_xor c 0x20 else c)
    ∷ randomize_loop random (if fresh then drawn + 1 else drawn) (if is_letter c then b / 2 else b)
        (if is_letter c then left - 1 else left) cs

-- `randomizeCase`.
unfoldable pub randomize_case : (ℕ → ℕ) → Bytes → Bytes
randomize_case random name =
    if equal name [] || equal name (b'.' ∷ []) then name else randomize_loop random 0 0 0 name

-- The two forms in which `validateResponseQuestionEx` compares names.
abbrev pub comparable : Bool → Bytes → Bytes
comparable case_sensitive name =
    trim_suffix (if case_sensitive then name else to_lower name) (b'.' ∷ [])

-- `validateResponseQuestionEx`.
unfoldable pub validate_response_question : Bool → Query → Message → Reply Message
validate_response_question case_sensitive q msg = elim msg.questions [
  | [] ↦ failed no_question
  | asked ∷ _ ↦
      if not (equal (comparable case_sensitive asked.name) (comparable case_sensitive q.name))
        || not (asked.qtype == q.qtype)
        || not (asked.class == q.class)
      then failed question_mismatch
      else got msg
]

-- What both ways of sending do with the bytes that come back.
unfoldable pub checked : Bool → Query → Result Message → Reply Message
checked case_sensitive q (err e) = failed (bad_wire e)
checked case_sensitive q (ok msg) =
    if not (msg.header.id == q.id)
    then failed tx_id_mismatch
    else validate_response_question case_sensitive q msg

unfoldable pub receive : Bool → Query → Option Bytes → Reply Message
receive case_sensitive q none = failed no_reply
receive case_sensitive q (some b) = checked case_sensitive q (unpack b)

-- The second half of `sendQuery` and of `sendQueryWithRDECS`, behind the packing.
abbrev pub or_tcp : Reply Message → Reply Message → Reply Message
or_tcp (failed e) over = failed e
or_tcp (got msg) over = if is_tc msg.header then over else got msg

unfoldable pub exchange : Outside → ℕ → Bytes → Bool → Query → Reply Message
exchange out clock ip case_sensitive q =
    or_tcp (receive case_sensitive q (out.udp clock ip q))
      (receive case_sensitive q (out.tcp clock ip q))

abbrev pub query_of : ℕ → Bytes → ℕ → ℕ → Bool → Bool → Query
query_of id name qtype class rd edns = record {
  id = id;
  name = name;
  qtype = qtype;
  class = class;
  rd = rd;
  edns = edns;
}

-- `txID, err := randTXIDFunc()` and the rest of the function.
abbrev pub with_tx_id : Option ℕ → (ℕ → Reply Message) → Reply Message
with_tx_id none rest = failed no_tx_id
with_tx_id (some id) rest = rest id

-- `sendQuery`, without a client subnet.
unfoldable pub send_query : Outside → Config → ℕ → Bytes → Bytes → ℕ → ℕ → Reply Message
send_query out cfg clock ip name qtype class =
    let asked = if cfg.caps_0x20_enabled then randomize_case (out.random clock) name else name in
    with_tx_id (out.tx_id clock)
      (λ id. exchange out clock ip cfg.caps_0x20_enabled (query_of id asked qtype class false true))

-- `sendQueryWithRDECS`, without a client subnet.
unfoldable pub send_query_with_rd :
    Outside → ℕ → Bytes → Bytes → ℕ → ℕ → Bool → Bool → Reply Message
send_query_with_rd out clock ip name qtype class rd edns =
    with_tx_id (out.tx_id clock)
      (λ id. exchange out clock ip false (query_of id name qtype class rd edns))

abbrev pub unless_got : (ℕ → Failure → Reply Message × ℕ) → Reply Message × ℕ → Reply Message × ℕ
unless_got again (got msg, clock) = (got msg, clock)
unless_got again (failed e, clock) = again clock e

-- The loop over the attempts, which both ways of asking have; the second component is the number of
-- exchanges afterwards. `last` is `lastErr`.
unfoldable pub attempts : (ℕ → Reply Message × ℕ) → ℕ → ℕ → Failure → Reply Message × ℕ
attempts send zero clock last = (failed last, clock)
attempts send (suc n) clock last = unless_got (attempts send n) (send clock)

-- `retries`, at least 1.
abbrev pub retries : Config → ℕ
retries cfg = if ltb cfg.upstream_retries 1 then 1 else cfg.upstream_retries

-- `queryUpstreamECS` without a client subnet, `queryUpstreamOnceECS` inside it. The error of no
-- attempt at all does not come about.
unfoldable pub query_upstream : Outside → Config → ℕ → Bytes → Bytes → ℕ → ℕ → Reply Message × ℕ
query_upstream out cfg clock ip name qtype class =
    attempts (λ k. (send_query out cfg k ip name qtype class, k + 1)) (retries cfg) clock no_reply

-- `sendForwardQueryOnceECS`: a server that does not know EDNS is asked again without it.
unfoldable pub send_forward_query_once : Outside → ℕ → Bytes → Bytes → ℕ → ℕ → Reply Message × ℕ
send_forward_query_once out clock ip name qtype class =
    elim (send_query_with_rd out clock ip name qtype class true true) [
      | failed e ↦ (failed e, clock + 1)
      | got msg ↦
          if rcode msg.header == rcode_form_err
          then (send_query_with_rd out (clock + 1) ip name qtype class true false, clock + 2)
          else (got msg, clock + 1)
    ]

-- `sendForwardQueryECS`.
unfoldable pub send_forward_query : Outside → Config → ℕ → Bytes → Bytes → ℕ → ℕ → Reply Message × ℕ
send_forward_query out cfg clock ip name qtype class =
    attempts (λ k. send_forward_query_once out k ip name qtype class) (retries cfg) clock no_reply
