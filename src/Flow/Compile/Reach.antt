-- ===== src/Flow/Compile/Reach.antt =====
-- The worklist of `compile`: it ends, and it sees a success node exactly if one can be reached.
use geonosis.Base.{
  ℕ, zero, suc, ◌+◌, ◌<◌, Bool, true, false, ◌||◌, some, List, [], ◌∷◌, ◌≡◌, refl, ap, inl, inr,
  arith, ◌==◌, nat_eq, nat_beq_iff, any, length, In, All, Bool-cases, Option-cases, if◌then◌else◌,
  select, select-In, In-All,
}
use geonosis.Flow.Dsl.{NodeId, FlowNode, Edge, is_success}
use geonosis.Flow.Compile.{CompiledFlow, edges_from, node, push_targets, has, explore}
use geonosis.Flow.Compile.Edges.{leaving}

-- A path of edges from `s`.
pub data Reach (edges : List Edge) (s : NodeId) : NodeId → Type 0 where
  here : Reach edges s s
  step :
      {n m : NodeId} (e : Edge)
      → In e edges
      → Reach edges s n
      → e.from ≡ n
      → e.to ≡ m
      → Reach edges s m

-- The edges whose source is yet to be visited.
pub unvisited : List NodeId → List Edge → ℕ
unvisited visited [] = 0
unvisited visited (e ∷ edges) =
    if has visited e.from then unvisited visited edges else suc (unvisited visited edges)

length-push_targets :
    (edges : List Edge) (queue : List NodeId)
    → length (push_targets edges queue) ≡ length edges + length queue
unfolding push_targets
length-push_targets [] queue = omega arith
length-push_targets (e ∷ edges) queue = omega (arith, length-push_targets edges (e.to ∷ queue))

pub unvisited-nil : (edges : List Edge) → unvisited [] edges ≡ length edges
unfolding unvisited any
unvisited-nil [] = refl
unvisited-nil (e ∷ edges) = ap suc (unvisited-nil edges)

has-eq : (a b : NodeId) (visited : List NodeId) → a ≡ b → has visited a ≡ has visited b
has-eq a b visited e = ap (has visited) e

unvisited-cons :
    (n : NodeId) (visited : List NodeId) (edges : List Edge)
    → has visited n ≡ false
    → unvisited visited edges ≡ unvisited (n ∷ visited) edges + length (leaving n edges)
unfolding unvisited any select
unvisited-cons n visited [] h = refl
unvisited-cons n visited (e ∷ edges) h = ground (
  arith,
  unvisited-cons n visited edges h,
  nat_beq_iff e.from n,
  nat_beq_iff n e.from,
  has-eq e.from n visited,
)

abbrev pub IsKnown : CompiledFlow → NodeId → Type 0
IsKnown flow id = (n : FlowNode) × (node flow id ≡ some n)

module _ (flow : CompiledFlow) (edges : List Edge) where
  open flow use {outbound}

  -- What the loops before the search establish.
  pub record IsClosed : Type 0 where
    pub grouped : (n : NodeId) → edges_from outbound n ≡ leaving n edges
    pub known : (e : Edge) → In e edges → IsKnown flow e.to

push_targets-All :
    (P : NodeId → Type 0) (es : List Edge) (queue : List NodeId)
    → All (λ (e : Edge). P e.to) es
    → All P queue
    → All P (push_targets es queue)
unfolding push_targets
push_targets-All P [] queue h k = k
push_targets-All P (e ∷ es) queue h k = push_targets-All P es (e.to ∷ queue) h.1 (h.0, k)

pub In-push_targets_old :
    (es : List Edge) (queue : List NodeId) (n : NodeId) → In n queue → In n (push_targets es queue)
unfolding push_targets
In-push_targets_old [] queue n h = h
In-push_targets_old (e ∷ es) queue n h = In-push_targets_old es (e.to ∷ queue) n (inr h)

pub In-push_targets_new :
    (es : List Edge) (queue : List NodeId) (e : Edge) → In e es → In e.to (push_targets es queue)
unfolding push_targets
In-push_targets_new [] queue e h = absurd h
In-push_targets_new (x ∷ es) queue e (inl same) =
    In-push_targets_old es (x.to ∷ queue) e.to (inl (ap (λ (y : Edge). y.to) same))
In-push_targets_new (x ∷ es) queue e (inr h) = In-push_targets_new es (x.to ∷ queue) e h

pub leaving-from :
    (n : NodeId) (edges : List Edge) (e : Edge) → In e (leaving n edges) → In e edges × (e.from ≡ n)
leaving-from n edges e h =
    let found = select-In (λ (x : Edge). x.from == n) edges e h in
    (found.0, (nat_beq_iff e.from n).0 found.1)

module _ (flow : CompiledFlow) (edges : List Edge) (closed : IsClosed flow edges) where
  open flow use {outbound}

  push-IsKnown :
      (n : NodeId) (queue : List NodeId)
      → All (IsKnown flow) queue
      → All (IsKnown flow) (push_targets (edges_from outbound n) queue)
  push-IsKnown n queue known =
      push_targets-All (IsKnown flow) (edges_from outbound n) queue
        (rw (closed.grouped n) (
          In-All (λ (e : Edge). IsKnown flow e.to) (leaving n edges)
            λ e i. closed.known e (leaving-from n edges e i).0))
        known

  -- With one round for each edge and each waiting node, and one more, the search ends.
  pub explore-total :
      (fuel : ℕ) (visited queue : List NodeId) (saw : Bool)
      → All (IsKnown flow) queue
      → length queue + unvisited visited edges < fuel
      → (b : Bool) × (explore flow fuel visited queue saw ≡ some b)
  unfolding explore
  explore-total zero visited queue saw known enough = absurd (omega arith)
  explore-total (suc fuel) visited [] saw known enough = (saw, refl)
  explore-total (suc fuel) visited (n ∷ queue) saw known enough =
      elim (Bool-cases (has visited n)) [
        | inl old ↦ rw (old, explore) (explore-total fuel visited queue saw known.1 (omega arith))
        | inr new ↦
            let (found, at) = known.0 in
            rw (new, explore, at)
              (explore-total fuel (n ∷ visited) (push_targets (edges_from outbound n) queue)
                (saw || is_success found.kind) (push-IsKnown n queue known.1)
                (omega (
                  arith,
                  unvisited-cons n visited edges new,
                  length-push_targets (edges_from outbound n) queue,
                  ap length (closed.grouped n),
                )))
      ]

  -- A node on the search's path, where success was seen.
  abbrev pub SeesSuccess : NodeId → Type 0
  SeesSuccess s =
      (id : NodeId) × (n : FlowNode) × Reach edges s id
      × (node flow id ≡ some n)
      × (is_success n.kind ≡ true)

  push_reached :
      (s n : NodeId) (queue : List NodeId)
      → Reach edges s n
      → All (Reach edges s) queue
      → All (Reach edges s) (push_targets (edges_from outbound n) queue)
  push_reached s n queue r rs =
      push_targets-All (Reach edges s) (edges_from outbound n) queue
        (rw (closed.grouped n) (
          In-All (λ (e : Edge). Reach edges s e.to) (leaving n edges)
            λ e i. step e (leaving-from n edges e i).0 r (leaving-from n edges e i).1 refl))
        rs

  -- What the search reports was there to see.
  pub explore_sound :
      (s : NodeId) (fuel : ℕ) (visited queue : List NodeId) (saw : Bool)
      → All (Reach edges s) queue
      → (saw ≡ true → SeesSuccess s)
      → explore flow fuel visited queue saw ≡ some true
      → SeesSuccess s
  unfolding explore
  explore_sound s zero visited queue saw rs w h = cc
  explore_sound s (suc fuel) visited [] saw rs w h = w (ground arith)
  explore_sound s (suc fuel) visited (n ∷ queue) saw rs w h = elim (Bool-cases (has visited n)) [
    | inl old ↦ explore_sound s fuel visited queue saw rs.1 w (ground arith)
    | inr new ↦ elim (Option-cases (node flow n)) [
      | inl missing ↦ absurd (ground arith)
      | inr (found, at) ↦
          explore_sound s fuel (n ∷ visited) (push_targets (edges_from outbound n) queue)
            (saw || is_success found.kind) (push_reached s n queue rs.0 rs.1)
            (λ e. elim (Bool-cases saw) [
              | inl before ↦ w before
              | inr not_before ↦ (n, found, rs.0, at, ground arith)
            ])
            (ground arith)
    ]
  ]

  -- Once seen, success stays seen.
  pub explore-saw :
      (fuel : ℕ) (visited queue : List NodeId) (b : Bool)
      → explore flow fuel visited queue true ≡ some b
      → b ≡ true
  unfolding explore
  explore-saw zero visited queue b h = cc
  explore-saw (suc fuel) visited [] b h = ground arith
  explore-saw (suc fuel) visited (n ∷ queue) b h = elim (Bool-cases (has visited n)) [
    | inl old ↦ explore-saw fuel visited queue b (ground arith)
    | inr new ↦ elim (Option-cases (node flow n)) [
      | inl missing ↦ absurd (ground arith)
      | inr (found, at) ↦
          explore-saw fuel (n ∷ visited) (push_targets (edges_from outbound n) queue) b
            (ground arith)
    ]
  ]
