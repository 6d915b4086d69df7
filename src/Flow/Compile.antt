-- ===== src/Flow/Compile.antt =====
-- crates/geonosis-flow/src/compile.rs: validation of a definition, and the edge selection.
pub mod Index
pub mod Edges
pub mod Reach
pub mod Explored
pub mod Valid
pub mod Accepts
use geonosis.Base.{
  ℕ, zero, suc, ◌+◌, String, Bool, true, false, ◌&&◌, ◌||◌, Option, none, some, List, [], ◌∷◌, ◌++◌,
  Result, ok, err, ◌>>=◌, if◌then◌else◌, ◌==◌, nat_eq, Map, lookup, insert, contains_key, find, any,
  get_elem?, length,
}
use geonosis.Flow.Json.{Serde}
use geonosis.Flow.Dsl.{
  NodeId, FlowNode, Edge, EdgeCondition, otherwise, FlowDefinition, is_success, is_terminal,
  condition_eq,
}
use geonosis.Flow.State.{FlowContext}
use geonosis.Flow.Guard.{eval_guard}

pub data CompileError : Type 0 where
  start_missing duplicate_node edge_from_unknown edge_to_unknown : NodeId → CompileError
  terminal_with_outbound : NodeId → CompileError
  no_success_reachable : CompileError
  bad_subflow : String → CompileError

pub record CompiledFlow : Type 0 where
  pub definition : FlowDefinition
  pub by_id : Map NodeId ℕ
  pub outbound : Map NodeId (List Edge)

node_at : List FlowNode → Option ℕ → Option FlowNode
node_at nodes none = none
node_at nodes (some ix) = get_elem? nodes ix

-- `CompiledFlow::node`; `none` is the panic of an index that is not there.
unfoldable pub node : CompiledFlow → NodeId → Option FlowNode
unfolding node_at
node flow id = node_at flow.definition.nodes (lookup id flow.by_id)

abbrev pub target : Option Edge → Option NodeId
target none = none
target (some e) = some e.to

-- `a.or_else(|| b)`
abbrev pub or_else {ℓ} : {A : Type ℓ} → Option A → Option A → Option A
or_else (some a) b = some a
or_else none b = b

abbrev pub is_otherwise : EdgeCondition → Bool
is_otherwise otherwise = true
is_otherwise _ = false

-- `CompiledFlow::next`
unfoldable pub next : CompiledFlow → NodeId → EdgeCondition → Option NodeId
unfolding find
next flow from on = elim (lookup from flow.outbound) [
  | none ↦ none
  | some edges ↦
      or_else (target (find (λ (e : Edge). e.on == on) edges))
        (target (find (λ (e : Edge). is_otherwise e.on) edges))
]

-- The first of `edges` that has the condition, or else an `Otherwise` edge, its guard passing.
unfoldable pub choose : Serde → FlowContext → EdgeCondition → List Edge → Option Edge
choose serde ctx on edges =
    or_else (find (λ (e : Edge). e.on == on && eval_guard serde e.guard ctx) edges)
      (find (λ (e : Edge). is_otherwise e.on && eval_guard serde e.guard ctx) edges)

-- `CompiledFlow::next_with_guard`
unfoldable pub next_with_guard :
    Serde → CompiledFlow → NodeId → EdgeCondition → FlowContext → Option NodeId
unfolding choose
next_with_guard serde flow from on ctx = elim (lookup from flow.outbound) [
  | none ↦ none
  | some edges ↦ target (choose serde ctx on edges)
]

-- The first loop of `compile`: positions by id.
unfoldable pub index_nodes : List FlowNode → ℕ → Map NodeId ℕ → Result CompileError (Map NodeId ℕ)
index_nodes [] ix by_id = ok by_id
index_nodes (n ∷ nodes) ix by_id =
    if contains_key n.id by_id
    then err (duplicate_node n.id)
    else index_nodes nodes (ix + 1) (insert n.id ix by_id)

abbrev pub edges_from : Map NodeId (List Edge) → NodeId → List Edge
edges_from outbound n = elim (lookup n outbound) [ none ↦ [] | some edges ↦ edges ]

-- `outbound.entry(e.from).or_default().push(e.clone())`
unfoldable pub push_edge : Edge → Map NodeId (List Edge) → Map NodeId (List Edge)
push_edge e outbound = insert e.from (edges_from outbound e.from ++ e ∷ []) outbound

-- The second loop of `compile`: edges by their source.
unfoldable pub group_edges :
    Map NodeId ℕ → List Edge → Map NodeId (List Edge) → Result CompileError (Map NodeId (List Edge))
group_edges by_id [] outbound = ok outbound
group_edges by_id (e ∷ edges) outbound =
    if contains_key e.from by_id
    then (if contains_key e.to by_id
        then group_edges by_id edges (push_edge e outbound)
        else err (edge_to_unknown e.to))
    else err (edge_from_unknown e.from)

-- The third loop of `compile`.
unfoldable pub check_terminals :
    List FlowNode → Map NodeId (List Edge) → Result CompileError (Unit {0})
check_terminals [] outbound = ok tt
check_terminals (n ∷ nodes) outbound =
    if is_terminal n.kind && contains_key n.id outbound
    then err (terminal_with_outbound n.id)
    else check_terminals nodes outbound

-- Pushes the targets of `edges` in order; the head of the list is the end of the vector.
unfoldable pub push_targets : List Edge → List NodeId → List NodeId
push_targets [] queue = queue
push_targets (e ∷ edges) queue = push_targets edges (e.to ∷ queue)

-- `visited.contains(&n)`
abbrev pub has : List NodeId → NodeId → Bool
unfolding any
has visited n = any (λ v. v == n) visited

-- The worklist loop of `compile`, with fuel. The last argument is `saw_success`.
unfoldable pub explore : CompiledFlow → ℕ → List NodeId → List NodeId → Bool → Option Bool
explore flow zero visited queue saw = none
explore flow (suc fuel) visited [] saw = some saw
explore flow (suc fuel) visited (n ∷ queue) saw = elim (has visited n) [
  | true ↦ explore flow fuel visited queue saw
  | false ↦ elim (node flow n) [
    | none ↦ none
    | some found ↦
        explore flow fuel (n ∷ visited) (push_targets (edges_from flow.outbound n) queue)
          (saw || is_success found.kind)
  ]
]

abbrev pub explore_fuel : FlowDefinition → ℕ
explore_fuel def = suc (suc (length def.edges))

unfoldable pub verdict : CompiledFlow → Bool → Result CompileError CompiledFlow
verdict flow true = ok flow
verdict flow false = err no_success_reachable

-- The part of `compile` before the search.
unfoldable pub assemble : FlowDefinition → Result CompileError CompiledFlow
assemble def = index_nodes def.nodes 0 [] >>= λ by_id.
    (if contains_key def.start by_id then ok tt else err (start_missing def.start))
    >>= λ (_ : Unit {0}). group_edges by_id def.edges [] >>= λ outbound.
        check_terminals def.nodes outbound >>= λ (_ : Unit {0}).
        ok (record { definition = def; by_id = by_id; outbound = outbound })

-- `compile`; `none` would be a panic, or fuel that runs out.
unfoldable pub compile : FlowDefinition → Option (Result CompileError CompiledFlow)
unfolding verdict
compile def = elim (assemble def) [
  | err e ↦ some (err e)
  | ok flow ↦ elim (explore flow (explore_fuel def) [] (def.start ∷ []) false) [
    | none ↦ none
    | some saw ↦ some (verdict flow saw)
  ]
]
