-- ===== src/Resolver/Upstream/Accepted.antt =====
-- What a reply has to carry for resolver/upstream.go to accept it.
use labyrinth.Prelude.{
  ℕ, zero, suc, ◌+◌, ◌≤◌, ◌<◌, ◌≡◌, Bool, true, false, ◌||◌, not, List, [], ◌∷◌, Option, none, some,
  Bytes, refl, ap, sym, ◌∙◌, ◌⊎◌, if◌then◌else◌, ◌==◌, inl, inr, arith, Bool-cases, Option-cases,
}
use labyrinth.Text.{equal, to_lower, trim_suffix}
use labyrinth.Text.Labels.{equal_iff}
use labyrinth.Text.Suffix.{dot, trim-to_lower}
use labyrinth.Dns.Wire.{Result, ok, err}
use labyrinth.Dns.Message.{Question, Message, is_tc}
use labyrinth.Dns.Record.{unpack}
use labyrinth.Resolver.Upstream.{
  Failure, Reply, got, failed, Query, Outside, Config, randomize_case, comparable,
  validate_response_question, checked, receive, or_tcp, exchange, query_of, send_query, unless_got,
  attempts, retries, query_upstream, no_reply,
}
use labyrinth.Resolver.Upstream.Letters.{randomize_case-to_lower}

-- The message has the number of the query and repeats its question; the names agree in the form in
-- which they are compared.
pub record IsReplyTo (case_sensitive : Bool) (q : Query) (msg : Message) : Type 0 where
  pub same_id : msg.header.id ≡ q.id
  pub asked : Question
  pub rest : List Question
  pub first : msg.questions ≡ asked ∷ rest
  pub same_name : comparable case_sensitive asked.name ≡ comparable case_sensitive q.name
  pub same_type : asked.qtype ≡ q.qtype
  pub same_class : asked.class ≡ q.class

abbrev mismatch : Bool → Query → Question → Bool
mismatch cs q asked =
    not (equal (comparable cs asked.name) (comparable cs q.name))
    || not (asked.qtype == q.qtype)
    || not (asked.class == q.class)

validate-IsReplyTo :
    (cs : Bool) (q : Query) (msg m : Message) (qs : List Question)
    → msg.questions ≡ qs
    → msg.header.id ≡ q.id
    → validate_response_question cs q msg ≡ got m
    → (m ≡ msg) × IsReplyTo cs q msg
unfolding validate_response_question
validate-IsReplyTo cs q msg m [] e i h = absurd (ground (arith, e))
validate-IsReplyTo cs q msg m (asked ∷ rest) e i h = elim (Bool-cases (mismatch cs q asked)) [
  | inl b ↦ absurd (ground (arith, e, b))
  | inr g ↦ (
    ground (arith, e, g),
    record {
      same_id = i;
      asked = asked;
      rest = rest;
      first = e;
      same_name = (equal_iff _ _).0 (ground arith);
      same_type = ground arith;
      same_class = ground arith;
    },
  )
]

pub checked-IsReplyTo :
    (cs : Bool) (q : Query) (r : Result Message) (m : Message)
    → checked cs q r ≡ got m
    → (r ≡ ok m) × IsReplyTo cs q m
unfolding checked
checked-IsReplyTo cs q (err e) m h = absurd cc
checked-IsReplyTo cs q (ok msg) m h = elim (Bool-cases (msg.header.id == q.id)) [
  | inr n ↦ absurd (ground (arith, n))
  | inl s ↦
      let (e, v) =
        validate-IsReplyTo cs q msg m msg.questions refl (ground arith) (ground (arith, s)) in
      (ap ok (sym e), rw e v)
]

receive-IsReplyTo :
    (cs : Bool) (q : Query) (b : Option Bytes) (m : Message)
    → receive cs q b ≡ got m
    → IsReplyTo cs q m
unfolding receive
receive-IsReplyTo cs q none m h = absurd cc
receive-IsReplyTo cs q (some b) m h = (checked-IsReplyTo cs q (unpack b) m h).1

pub or_tcp-got :
    (a b : Reply Message) (m : Message)
    → or_tcp a b ≡ got m
    → ((a ≡ got m) × (is_tc m.header ≡ false)) ⊎ (b ≡ got m)
or_tcp-got (failed e) b m h = absurd cc
or_tcp-got (got a) b m h = elim (Bool-cases (is_tc a.header)) [
  | inl t ↦ inr (ground (arith, t))
  | inr f ↦ let e : got a ≡ got m = ground (arith, f) in inl (e, ground arith)
]

exchange-IsReplyTo :
    (out : Outside) (clock : ℕ) (ip : Bytes) (cs : Bool) (q : Query) (m : Message)
    → exchange out clock ip cs q ≡ got m
    → IsReplyTo cs q m
unfolding exchange
exchange-IsReplyTo out clock ip cs q m h =
    let over = receive cs q (out.tcp clock ip q) in
    elim (or_tcp-got (receive cs q (out.udp clock ip q)) over m h) [
      | inl (e, _) ↦ receive-IsReplyTo cs q (out.udp clock ip q) m e
      | inr e ↦ receive-IsReplyTo cs q (out.tcp clock ip q) m e
    ]

-- The name as it is sent.
abbrev pub sent : Outside → Config → ℕ → Bytes → Bytes
sent out cfg clock name =
    if cfg.caps_0x20_enabled then randomize_case (out.random clock) name else name

-- One attempt that is accepted, at the given number of exchanges.
pub record IsAttempt (out : Outside) (cfg : Config) (name : Bytes) (qtype class clock : ℕ)
    (msg : Message) : Type 0 where
  pub id : ℕ
  pub drawn : out.tx_id clock ≡ some id
  pub matching :
      IsReplyTo cfg.caps_0x20_enabled
        (query_of id (sent out cfg clock name) qtype class false true)
        msg

send_query-IsAttempt :
    (out : Outside) (cfg : Config) (clock : ℕ) (ip name : Bytes) (qtype class : ℕ) (m : Message)
    → send_query out cfg clock ip name qtype class ≡ got m
    → IsAttempt out cfg name qtype class clock m
unfolding send_query
send_query-IsAttempt out cfg clock ip name qtype class m h = elim (Option-cases (out.tx_id clock)) [
  | inl n ↦ absurd (ground (arith, n))
  | inr (id, d) ↦ record {
    id = id;
    drawn = d;
    matching = exchange-IsReplyTo out clock ip _ _ m (rw (send_query, d) at h);
  }
]

-- Some attempt of a loop, if the loop gets something.
pub attempts-got :
    (send : ℕ → Reply Message) (n clock : ℕ) (last : Failure) (m : Message) (after : ℕ)
    → attempts (λ k. (send k, k + 1)) n clock last ≡ (got m, after)
    → (k : ℕ) × (clock ≤ k) × (k < clock + n) × (after ≡ k + 1) × (send k ≡ got m)
unfolding attempts
attempts-got send zero clock last m after h = absurd (ground arith)
attempts-got send (suc n) clock last m after h =
    by_reply (send clock) refl h (λ f. attempts-got send n (clock + 1) f m after)
  where
    by_reply :
        (r : Reply Message)
        → send clock ≡ r
        → unless_got (attempts (λ k. (send k, k + 1)) n) (r, clock + 1) ≡ (got m, after)
        → ((f : Failure)
            → attempts (λ k. (send k, k + 1)) n (clock + 1) f ≡ (got m, after)
            → (k : ℕ) × (clock + 1 ≤ k) × (k < clock + 1 + n) × (after ≡ k + 1) × (send k ≡ got m))
        → (k : ℕ) × (clock ≤ k) × (k < clock + suc n) × (after ≡ k + 1) × (send k ≡ got m)
    by_reply (got a) e h ih = (clock, omega arith, omega arith, ground arith, ground (arith, e))
    by_reply (failed f) e h ih =
        let (k, lo, hi, s, g) = ih f h in (k, omega arith, omega arith, s, g)

attempts-clock :
    (send : ℕ → Reply Message) (n clock : ℕ) (last : Failure)
    → (clock ≤ (attempts (λ k. (send k, k + 1)) n clock last).1)
      × ((attempts (λ k. (send k, k + 1)) n clock last).1 ≤ clock + n)
unfolding attempts
attempts-clock send zero clock last = (omega arith, omega arith)
attempts-clock send (suc n) clock last = by_reply (send clock) (attempts-clock send n (clock + 1))
  where
    by_reply :
        (r : Reply Message)
        → ((f : Failure)
            → (clock + 1 ≤ (attempts (λ k. (send k, k + 1)) n (clock + 1) f).1)
              × ((attempts (λ k. (send k, k + 1)) n (clock + 1) f).1 ≤ clock + 1 + n))
        → let after = (unless_got (attempts (λ k. (send k, k + 1)) n) (r, clock + 1)).1 in
          (clock ≤ after) × (after ≤ clock + suc n)
    by_reply (got a) ih = (omega arith, omega arith)
    by_reply (failed f) ih = let (lo, hi) = ih f in (omega arith, omega arith)

-- A query makes as many exchanges as the configuration has retries, at most.
pub query_upstream-clock :
    (out : Outside) (cfg : Config) (clock : ℕ) (ip name : Bytes) (qtype class : ℕ)
    → (clock ≤ (query_upstream out cfg clock ip name qtype class).1)
      × ((query_upstream out cfg clock ip name qtype class).1 ≤ clock + retries cfg)
unfolding query_upstream
query_upstream-clock out cfg clock ip name qtype class =
    attempts-clock (λ k. send_query out cfg k ip name qtype class) (retries cfg) clock no_reply

comparable_lower :
    (cs : Bool) (a b : Bytes)
    → comparable cs a ≡ comparable cs b
    → comparable false a ≡ comparable false b
comparable_lower false a b h = h
comparable_lower true a b h = trim-to_lower a ∙ ap to_lower h ∙ sym (trim-to_lower b)

sent-lower :
    (out : Outside) (cfg : Config) (clock : ℕ) (name : Bytes)
    → to_lower (sent out cfg clock name) ≡ to_lower name
sent-lower out cfg clock name = elim (Bool-cases cfg.caps_0x20_enabled) [
  | inl c ↦ rw c (randomize_case-to_lower (out.random clock) name)
  | inr n ↦ rw n refl
]

-- Whether the case is randomized or not, the reply's question is for the name that was asked, up to
-- case and a dot at the end.
IsAttempt-name :
    (out : Outside) (cfg : Config) (name : Bytes) (qtype class clock : ℕ) (m : Message)
    (a : IsAttempt out cfg name qtype class clock m)
    → comparable false a.matching.asked.name ≡ comparable false name
IsAttempt-name out cfg name qtype class clock m a =
    comparable_lower cfg.caps_0x20_enabled _ _ a.matching.same_name
    ∙ ap (λ t. trim_suffix t dot) (sent-lower out cfg clock name)

-- A reply that `queryUpstreamECS` accepts was accepted at one of its attempts, the last that was
-- made, and there are at most as many as the configuration has retries. It has the random number
-- drawn for that attempt, and repeats the type and the class of the question and the name sent, byte
-- for byte if the case is randomized and in lower case otherwise, a dot at the end left out. Either
-- way it is the name asked for, in lower case and without a dot at the end.
pub query_upstream-IsAttempt :
    (out : Outside) (cfg : Config) (clock : ℕ) (ip name : Bytes) (qtype class : ℕ) (m : Message)
    (after : ℕ)
    → query_upstream out cfg clock ip name qtype class ≡ (got m, after)
    → (k : ℕ) × (clock ≤ k)
      × (k < clock + retries cfg)
      × (after ≡ k + 1)
      × (a : IsAttempt out cfg name qtype class k m) × (comparable false a.matching.asked.name
          ≡ comparable false name)
unfolding query_upstream
query_upstream-IsAttempt out cfg clock ip name qtype class m after h =
    let (k, lo, hi, s, g) =
      attempts-got (λ k. send_query out cfg k ip name qtype class) (retries cfg) clock no_reply m
        after h in
    let a = send_query-IsAttempt out cfg k ip name qtype class m g in
    (k, lo, hi, s, a, IsAttempt-name out cfg name qtype class k m a)
