-- ===== src/Resolver/Qmin.antt =====
-- resolver/qmin.go: query name minimization.
pub mod Reveals
use labyrinth.Prelude.{ℕ, Bool, List, [], ◌∷◌, ◌++◌, Bytes, if◌then◌else◌, leb, ◌==◌, length}
use labyrinth.Text.{equal, trim_suffix, split}
use labyrinth.Dns.Message.{type_ns, type_ds}

-- `labels[len(labels)-1]`. `strings.Split` returns one label at least.
unfoldable pub last_label : List Bytes → Bytes
last_label [] = []
last_label (l ∷ []) = l
last_label (l ∷ k ∷ ls) = last_label (k ∷ ls)

-- `minimizeQName`, which does not read the resolver.
unfoldable pub minimize_qname : Bytes → ℕ → Bytes → Bytes × ℕ
minimize_qname full_name qtype current_zone =
    let remaining = trim_suffix full_name (b'.' ∷ current_zone) in
    let labels = split remaining in
    if equal full_name []
    then (full_name, qtype)
    else if qtype == type_ds
    then (full_name, qtype)
    else if equal current_zone []
    then (last_label (split full_name), type_ns)
    else if equal remaining full_name
    then (full_name, qtype)
    else if leb (length labels) 1
    then (full_name, qtype)
    else (last_label labels ++ (b'.' ∷ current_zone), type_ns)
