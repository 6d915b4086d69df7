-- ===== src/Flow/Compile/Index.antt =====
-- The positions of nodes by id, crates/geonosis-flow/src/compile.rs: `by_id`.
use geonosis.Base.{
  ℕ, zero, suc, ◌+◌, false, none, some, List, [], ◌∷◌, ok, ◌≡◌, refl, ◌≢◌, ◌⊎◌, inl, inr, arith,
  ◌==◌, nat_eq, nat_beq_iff, Map, lookup, insert, contains_key, lookup-insert, get_elem?, In,
  Bool-cases, subst,
}
use geonosis.Flow.Dsl.{NodeId, FlowNode}
use geonosis.Flow.Compile.{index_nodes}

-- No two nodes share an id.
abbrev pub HasDistinctIds : List FlowNode → Type 0
HasDistinctIds [] = Unit
HasDistinctIds (n ∷ nodes) = ((m : FlowNode) → In m nodes → m.id ≢ n.id) × HasDistinctIds nodes

abbrev pub IsFresh : List FlowNode → Map NodeId ℕ → Type 0
IsFresh nodes by_id = (n : FlowNode) → In n nodes → lookup n.id by_id ≡ none

contains_key-false : (k : NodeId) (m : Map NodeId ℕ) → contains_key k m ≡ false → lookup k m ≡ none
unfolding contains_key
contains_key-false k m h = ground arith

not-contains_key : (k : NodeId) (m : Map NodeId ℕ) → lookup k m ≡ none → contains_key k m ≡ false
unfolding contains_key
not-contains_key k m h = ground arith

-- Whether the head is refused, and what the rest has to do if it is not.
index_nodes-cons :
    (n : FlowNode) (nodes : List FlowNode) (ix : ℕ) (by_id m : Map NodeId ℕ)
    → index_nodes (n ∷ nodes) ix by_id ≡ ok m
    → (lookup n.id by_id ≡ none) × (index_nodes nodes (ix + 1) (insert n.id ix by_id) ≡ ok m)
unfolding index_nodes
index_nodes-cons n nodes ix by_id m h = ground (arith, contains_key-false n.id by_id)

-- What was indexed before stays.
pub index_nodes-old :
    (nodes : List FlowNode) (ix : ℕ) (by_id m : Map NodeId ℕ) (k : NodeId) (v : ℕ)
    → index_nodes nodes ix by_id ≡ ok m
    → lookup k by_id ≡ some v
    → lookup k m ≡ some v
unfolding index_nodes
index_nodes-old [] ix by_id m k v h e = ground arith
index_nodes-old (n ∷ nodes) ix by_id m k v h e =
    let step = index_nodes-cons n nodes ix by_id m h in
    index_nodes-old nodes (ix + 1) (insert n.id ix by_id) m k v step.1
      (ground (arith, step.0, lookup-insert n.id k ix by_id, nat_beq_iff n.id k))

-- The node at a position is found under its id.
pub index_nodes-get_elem? :
    (nodes : List FlowNode) (ix : ℕ) (by_id m : Map NodeId ℕ) (j : ℕ) (n : FlowNode)
    → index_nodes nodes ix by_id ≡ ok m
    → get_elem? nodes j ≡ some n
    → lookup n.id m ≡ some (ix + j)
index_nodes-get_elem? [] ix by_id m j n h e = cc
index_nodes-get_elem? (x ∷ nodes) ix by_id m zero n h e =
    let step = index_nodes-cons x nodes ix by_id m h in
    index_nodes-old nodes (ix + 1) (insert x.id ix by_id) m n.id (ix + 0) step.1
      (ground (arith, lookup-insert x.id n.id ix by_id, nat_beq_iff x.id n.id))
index_nodes-get_elem? (x ∷ nodes) ix by_id m (suc j) n h e =
    let step = index_nodes-cons x nodes ix by_id m h in
    ground (arith, index_nodes-get_elem? nodes (ix + 1) (insert x.id ix by_id) m j n step.1 e)

-- A key of the index is the id of the node at its position.
pub index_nodes-lookup :
    (nodes : List FlowNode) (ix : ℕ) (by_id m : Map NodeId ℕ) (k : NodeId) (v : ℕ)
    → index_nodes nodes ix by_id ≡ ok m
    → lookup k m ≡ some v
    → (lookup k by_id ≡ some v)
      ⊎ ((j : ℕ) × (n : FlowNode) × (v ≡ ix + j) × (get_elem? nodes j ≡ some n) × (n.id ≡ k))
unfolding index_nodes
index_nodes-lookup [] ix by_id m k v h e = inl (ground arith)
index_nodes-lookup (x ∷ nodes) ix by_id m k v h e =
    let step = index_nodes-cons x nodes ix by_id m h in
    elim (index_nodes-lookup nodes (ix + 1) (insert x.id ix by_id) m k v step.1 e) [
      | inl old ↦ elim (Bool-cases (x.id == k)) [
        | inl hit ↦
            inr (
              0,
              x,
              ground (arith, lookup-insert x.id k ix by_id),
              refl,
              (nat_beq_iff x.id k).0 hit,
            )
        | inr miss ↦ inl (ground (arith, lookup-insert x.id k ix by_id))
      ]
      | inr (j, n, at, got, same) ↦ inr (suc j, n, omega arith, got, same)
    ]

pub index_nodes-HasDistinctIds :
    (nodes : List FlowNode) (ix : ℕ) (by_id m : Map NodeId ℕ)
    → index_nodes nodes ix by_id ≡ ok m
    → HasDistinctIds nodes × IsFresh nodes by_id
index_nodes-HasDistinctIds [] ix by_id m h = (tt, λ n i. absurd i)
index_nodes-HasDistinctIds (x ∷ nodes) ix by_id m h =
    let step = index_nodes-cons x nodes ix by_id m h in
    let rest = index_nodes-HasDistinctIds nodes (ix + 1) (insert x.id ix by_id) m step.1 in
    (
      (
        λ n i. ground (arith, rest.1 n i, lookup-insert x.id n.id ix by_id, nat_beq_iff x.id n.id),
        rest.0,
      ),
      fresh_cons x nodes ix by_id step.0 rest.1,
    )
  where
    fresh_cons :
        (x : FlowNode) (nodes : List FlowNode) (ix : ℕ) (by_id : Map NodeId ℕ)
        → lookup x.id by_id ≡ none
        → IsFresh nodes (insert x.id ix by_id)
        → IsFresh (x ∷ nodes) by_id
    fresh_cons x nodes ix by_id e f n (inl same) =
        subst (λ (y : FlowNode). lookup y.id by_id ≡ none) same e
    fresh_cons x nodes ix by_id e f n (inr i) =
        ground (arith, f n i, lookup-insert x.id n.id ix by_id)

-- Distinct ids are all indexed.
pub index_nodes-total :
    (nodes : List FlowNode) (ix : ℕ) (by_id : Map NodeId ℕ)
    → HasDistinctIds nodes
    → IsFresh nodes by_id
    → (m : Map NodeId ℕ) × (index_nodes nodes ix by_id ≡ ok m)
unfolding index_nodes
index_nodes-total [] ix by_id d f = (by_id, refl)
index_nodes-total (x ∷ nodes) ix by_id d f = rw (not-contains_key x.id by_id (f x (inl refl))) (
    index_nodes-total nodes (ix + 1) (insert x.id ix by_id) d.1 λ n i.
      ground (arith, f n (inr i), d.0 n i, lookup-insert x.id n.id ix by_id, nat_beq_iff x.id n.id))
