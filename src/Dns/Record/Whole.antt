-- ===== src/Dns/Record/Whole.antt =====
-- `UnpackQuestion`, `UnpackRR` and `Unpack` as a whole.
use labyrinth.Prelude.{List, ℕ, zero, suc, ◌+◌, ◌≤◌, Bytes, ltb, ◌≡◌, length, arith, refl, ap, ◌∙◌}
use labyrinth.Dns.Wire.{Result, WireReader}
use labyrinth.Dns.Message.{Header, ResourceRecord, Message}
use labyrinth.Dns.Record.{
  unpack_question, unpack_body, unpack_rr, unpack_header, unpack_many, unpack,
}
use labyrinth.Dns.Record.Opt.{HasData, AllHave, first_opt-Safe}
use labyrinth.Dns.Record.Safe.{
  Safe, returned, value, bind-Safe, if-Safe, decode_name-Safe, truncated-IsReturned,
  read_uint16-Safe, read_uint32-Safe, unpack_rdata-Safe,
}

-- The item takes `k` bytes at least, and ends inside the message.
abbrev pub Takes : {A : Type 0} → ℕ → Bytes → ℕ → A × ℕ → Type 0
Takes k msg offset r = (offset + k ≤ r.1) × (r.1 ≤ length msg)

-- `UnpackQuestion` on any message and offset returns a question of 5 bytes at least that ends inside
-- the message, or an error; it does not panic, and its loop ends.
pub unpack_question-Safe :
    (msg : Bytes) (offset : ℕ) → Safe (Takes 5 msg offset) (unpack_question msg offset)
unfolding unpack_question
unpack_question-Safe msg offset =
    bind-Safe (Takes 5 msg offset) _ (decode_name-Safe msg offset) (λ name a.
      bind-Safe (Takes 5 msg offset) _ (read_uint16-Safe (record { buf = msg; offset = name.1 }))
        (λ t b.
          bind-Safe (Takes 5 msg offset) _ (read_uint16-Safe t.1) (λ c d.
            value (omega (arith, a, b.1, d.1), omega (arith, b.1, d.1, d.2, ap length b.0)))))

abbrev pub TakesRecord : ℕ → Bytes → ℕ → ResourceRecord × ℕ → Type 0
TakesRecord k msg offset r = Takes k msg offset r × HasData r.0

unpack_body-Safe :
    (msg name : Bytes) (rtype class ttl n start : ℕ)
    → Safe (TakesRecord 0 msg start) (unpack_body msg name rtype class ttl n start)
unfolding unpack_body
unpack_body-Safe msg name rtype class ttl n start =
    if-Safe (TakesRecord 0 msg start) (ltb (length msg) (start + n))
      (λ t. returned truncated-IsReturned)
      (λ f.
        let inside : start + n ≤ length msg = ground arith in
        bind-Safe (TakesRecord 0 msg start) _ (unpack_rdata-Safe msg start n inside rtype)
          (λ rdata _. value ((omega arith, inside), omega arith)))

weaken :
    {A : Type 0} {P : A → Type 0} (Q : A → Type 0) {r : Result A}
    → Safe P r
    → ((x : A) → P x → Q x)
    → Safe Q r
weaken Q (returned i) f = returned i
weaken Q (value {x} p) f = value (f x p)

-- `UnpackRR` on any message and offset returns a record of 11 bytes at least that ends inside the
-- message and has as many bytes of data as its length says, or an error; it does not panic, and its loops end.
pub unpack_rr-Safe :
    (msg : Bytes) (offset : ℕ) → Safe (TakesRecord 11 msg offset) (unpack_rr msg offset)
unfolding unpack_rr
unpack_rr-Safe msg offset =
    bind-Safe (TakesRecord 11 msg offset) _ (decode_name-Safe msg offset) (λ name a.
      bind-Safe (TakesRecord 11 msg offset) _
        (read_uint16-Safe (record { buf = msg; offset = name.1 }))
        (λ t b. bind-Safe (TakesRecord 11 msg offset) _ (read_uint16-Safe t.1) (λ c d.
          bind-Safe (TakesRecord 11 msg offset) _ (read_uint32-Safe c.1) (λ ttl f.
            bind-Safe (TakesRecord 11 msg offset) _ (read_uint16-Safe ttl.1) (λ n g.
              weaken (TakesRecord 11 msg offset)
                (unpack_body-Safe msg name.0 t.0 c.0 ttl.0 n.0 n.1.offset)
                (λ r h. ((omega (arith, a, b.1, d.1, f.1, g.1, h.0), h.0.1), h.1)))))))

unpack_header-Safe :
    (r : WireReader)
    → Safe (λ p. (p.1.buf ≡ r.buf) × (p.1.offset ≡ r.offset + 12)) (unpack_header r)
unfolding unpack_header
unpack_header-Safe r =
    let P : Header × WireReader → Type 0 = λ p. (p.1.buf ≡ r.buf) × (p.1.offset ≡ r.offset + 12) in
    bind-Safe P _ (read_uint16-Safe r) (λ a a'. bind-Safe P _ (read_uint16-Safe a.1) (λ b b'.
      bind-Safe P _ (read_uint16-Safe b.1) (λ c c'. bind-Safe P _ (read_uint16-Safe c.1) (λ d d'.
        bind-Safe P _ (read_uint16-Safe d.1) (λ e e'. bind-Safe P _ (read_uint16-Safe e.1) (λ f f'.
          value (
            f'.0 ∙ e'.0 ∙ d'.0 ∙ c'.0 ∙ b'.0 ∙ a'.0,
            omega (arith, a'.1, b'.1, c'.1, d'.1, e'.1, f'.1),
          )))))))

-- As many items as were asked for, which all have the property.
unpack_many-Safe :
    {A : Type 0} (P : A → Type 0) (item : Bytes → ℕ → Result (A × ℕ)) (msg : Bytes)
    → ((offset : ℕ) → Safe (λ r. P r.0) (item msg offset))
    → (count offset : ℕ)
    → Safe (λ r. (length r.0 ≡ count) × AllHave P r.0) (unpack_many item msg count offset)
unfolding unpack_many
unpack_many-Safe {A} P item msg h zero offset = value (refl, tt)
unpack_many-Safe {A} P item msg h (suc count) offset =
    let Q = λ (r : List A × ℕ). (length r.0 ≡ suc count) × AllHave P r.0 in
    bind-Safe Q _ (h offset) (λ x p.
      bind-Safe Q _ (unpack_many-Safe P item msg h count x.1)
        (λ xs e. value (ap suc e.0, (p, e.1))))

some_question : (msg : Bytes) (offset : ℕ) → Safe (λ r. Unit {0}) (unpack_question msg offset)
some_question msg offset = weaken (λ r. Unit {0}) (unpack_question-Safe msg offset) (λ r t. tt)

sound_record : (msg : Bytes) (offset : ℕ) → Safe (λ r. HasData r.0) (unpack_rr msg offset)
sound_record msg offset = weaken (λ r. HasData r.0) (unpack_rr-Safe msg offset) (λ r t. t.1)

-- Every section holds as many entries as the header says.
pub record IsCounted (m : Message) : Type 0 where
  pub questions : length m.questions ≡ m.header.qd_count
  pub answers : length m.answers ≡ m.header.an_count
  pub authority : length m.authority ≡ m.header.ns_count
  pub additional : length m.additional ≡ m.header.ar_count

-- `Unpack` of any bytes returns a message in which every section holds as many entries as the header
-- says, or an error; it does not panic, and its loops end, that over the options of an OPT record
-- included.
pub unpack-Safe : (buf : Bytes) → Safe IsCounted (unpack buf)
unfolding unpack
unpack-Safe buf =
    if-Safe IsCounted (ltb (length buf) 12) (λ t. returned truncated-IsReturned)
      (λ f. bind-Safe IsCounted _ (unpack_header-Safe (record { buf = buf; offset = 0 })) (λ h _.
        bind-Safe IsCounted _
          (unpack_many-Safe (λ q. Unit {0}) unpack_question buf (some_question buf) h.0.qd_count
            h.1.offset)
          (λ q q'. bind-Safe IsCounted _ (records h.0.an_count q.1) (λ a a'.
            bind-Safe IsCounted _ (records h.0.ns_count a.1) (λ n n'.
              bind-Safe IsCounted _ (records h.0.ar_count n.1) (λ r r'.
                bind-Safe IsCounted _ (first_opt-Safe r.0 r'.1) (λ e e'. value (record {
                  questions = q'.0;
                  answers = a'.0;
                  authority = n'.0;
                  additional = r'.0;
                }))))))))
  where
    records :
        (count offset : ℕ)
        → Safe
            (λ r. (length r.0 ≡ count) × AllHave HasData r.0)
            (unpack_many unpack_rr buf count offset)
    records = unpack_many-Safe HasData unpack_rr buf (sound_record buf)
