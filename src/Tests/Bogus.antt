-- ===== src/Tests/Bogus.antt =====
-- A resolution whose one answer the validator calls bogus.
use labyrinth.Prelude.{◌≡◌, ◌∙◌, ap, suc, refl, ℕ, false, [], ◌∷◌, none, some}
use labyrinth.Text.{equal, to_lower, has_suffix, trim_suffix, split, text}
use labyrinth.Dns.Name.{decode_loop, decode_name}
use labyrinth.Dns.Message.{Message, type_a, class_in}
use labyrinth.Security.Bailiwick.{contains, filter_in_zone, ns_names, keep_glue, sanitize_bailiwick}
use labyrinth.Resolver.Upstream.{Reply, got, query_upstream}
use labyrinth.Resolver.Delegation.{to_name_server_list}
use labyrinth.Resolver.World.{World, add, Resolver, done, bogus_result, new_visited_set, Visited}
use labyrinth.Resolver.Servers.{select_and_resolve_ns}
use labyrinth.Resolver.Iterate.{
  next_round, first_reply, ask_server, with_server, step, rounds, resolve_from, resolve_iterative,
}
use labyrinth.Resolver.Replies.{Run, Step, Again, stop, query_key, dispatch, finish_answer}
use labyrinth.Resolver.Infra.{insert_entry, sort_by_rtt}
use labyrinth.Resolver.Servers.{first_ipv4}
use labyrinth.Resolver.Classify.{scan_answers, classify_response}
use labyrinth.Resolver.SpecialUse.{special_use_response}
use labyrinth.Resolver.Forward.{match_forward_from}
use labyrinth.Resolver.Upstream.{
  validate_response_question, checked, receive, exchange, send_query, attempts,
}
use labyrinth.Dns.Edns.{first_opt}
use labyrinth.Dns.Wire.{slice_at, read_uint16, read_uint32}
use labyrinth.Dns.Record.{
  unpack_question, copy_rdata, unpack_rdata, unpack_body, unpack_rr, unpack_header, unpack_many,
  unpack,
}
use labyrinth.Resolver.LocalZone.{find_zone, local_lookup}
use labyrinth.Resolver.Forward.{match_forward}
use labyrinth.Resolver.Resolve.{resolve}
use labyrinth.Resolver.Resolve.Guards.{resolve-bogus}
use labyrinth.Tests.Samples.{reply}
use labyrinth.Tests.Iterate.{answers_with, config, root, resolver_with, fresh}
use labyrinth.Tests.Resolve.{no_lookup, distrust, answer_bytes, front_with, root_entry}

abbrev asked : Run
asked =
    resolve_iterative (resolver_with answer_bytes (some distrust)) no_lookup (text "ns.x") type_a
      class_in fresh

abbrev answer_message : Message
answer_message = record {
  header = record {
    id = 7;
    flags = 0x8400;
    qd_count = 1;
    an_count = 1;
    ns_count = 0;
    ar_count = 0;
  };
  questions = record { name = text "ns.x"; qtype = 1; class = 1 } ∷ [];
  answers =
      record {
        name = text "ns.x";
        rtype = type_a;
        class = 1;
        ttl = 300;
        rd_length = 4;
        rdata = 192 ∷ 0 ∷ 2 ∷ 7 ∷ [];
      }
      ∷ [];
  authority = [];
  additional = [];
  edns0 = none;
}

answered :
    query_upstream
      (answers_with answer_bytes)
      config
      0
      (text "192.0.2.1")
      (text "ns.x")
      type_a
      class_in
    ≡ (got answer_message, 1)
unfolding query_upstream attempts send_query exchange receive checked validate_response_question
    unpack first_opt unpack_many unpack_header unpack_rr unpack_body unpack_rdata unpack_question
    copy_rdata decode_name decode_loop read_uint16 read_uint32 equal to_lower trim_suffix has_suffix
    split slice_at
answered = refl

abbrev validating : Resolver
validating = resolver_with answer_bytes (some distrust)

-- The rest of the round, behind the question.
unfoldable judge : Again → Reply Message × ℕ → Step
judge again reply =
    first_reply validating no_lookup again (text "ns.x") type_a class_in false (text "ns.x") type_a
      reply root.ipv4 (root_entry ∷ []) [] none
      (add new_visited_set (query_key root.ipv4 (text "ns.x") [])) fresh

judge-bogus :
    (again : Again)
    → (v : Visited) × (w : World) × (judge again (got answer_message, 1)
        ≡ stop (done bogus_result) v w)
unfolding judge first_reply dispatch finish_answer equal to_lower has_suffix split
    sanitize_bailiwick filter_in_zone keep_glue ns_names classify_response scan_answers
judge-bogus again = (_, _, refl)

first_round :
    (again : Again) (n : ℕ)
    → (rounds validating no_lookup again
        (text "ns.x")
        type_a
        class_in
        false
        (suc n)
        (root_entry ∷ [])
        []
        none
        new_visited_set
        fresh).final
      ≡ done bogus_result
unfolding rounds step with_server select_and_resolve_ns sort_by_rtt insert_entry first_ipv4
    ask_server contains equal judge
first_round again n =
    let rest = rounds validating no_lookup again (text "ns.x") type_a class_in false n in
    ap
      (λ (reply : Reply Message × ℕ).
        (next_round validating no_lookup again (text "ns.x") type_a class_in false rest
          (judge again reply)).final)
      answered
    ∙ ap
        (λ (s : Step).
          (next_round validating no_lookup again (text "ns.x") type_a class_in false rest s).final)
        (judge-bogus again).2

ends_bogus : asked.final ≡ done bogus_result
unfolding resolve_iterative resolve_from to_name_server_list
ends_bogus = first_round _ 29

resolve-bogus_example :
    resolve (front_with answer_bytes (some distrust)) no_lookup (text "ns.x") type_a class_in fresh
    ≡ (done bogus_result, asked.world)
unfolding local_lookup special_use_response match_forward match_forward_from equal to_lower
    trim_suffix has_suffix find_zone
resolve-bogus_example =
    resolve-bogus (front_with answer_bytes (some distrust)) no_lookup (text "ns.x") type_a class_in
      fresh bogus_result refl refl refl ends_bogus refl
