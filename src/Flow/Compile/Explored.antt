-- ===== src/Flow/Compile/Explored.antt =====
-- The worklist of `compile` misses nothing: if it reports no success, none can be reached.
use geonosis.Base.{
  ℕ, zero, suc, true, false, some, List, [], ◌∷◌, ◌≡◌, refl, sym, ◌∙◌, ◌⊎◌, inl, inr, arith, ◌==◌,
  nat_eq, nat_beq_iff, any, In, Bool-cases, Option-cases, select, subst, ap,
}
use geonosis.Flow.Dsl.{NodeId, FlowNode, Edge, is_success}
use geonosis.Flow.Compile.{CompiledFlow, edges_from, node, push_targets, has, explore}
use geonosis.Flow.Compile.Edges.{leaving}
use geonosis.Flow.Compile.Reach.{
  Reach, here, step, IsClosed, In-push_targets_old, In-push_targets_new, explore-saw,
}

has_cons :
    (n v : NodeId) (visited : List NodeId)
    → has (n ∷ visited) v ≡ true
    → (n ≡ v) ⊎ (has visited v ≡ true)
unfolding any
has_cons n v visited h = ground (arith, nat_beq_iff n v)

has_head : (n : NodeId) (visited : List NodeId) → has (n ∷ visited) n ≡ true
unfolding any
has_head n visited = ground (arith, nat_beq_iff n n)

has_tail :
    (n v : NodeId) (visited : List NodeId) → has visited v ≡ true → has (n ∷ visited) v ≡ true
unfolding any
has_tail n v visited h = ground arith

nothing_visited : (v : NodeId) → has [] v ≡ true → ⊥
unfolding any
nothing_visited v h = cc

-- An edge of the list leaves its source.
pub In-leaving :
    (n : NodeId) (edges : List Edge) (e : Edge) → In e edges → e.from ≡ n → In e (leaving n edges)
unfolding select
In-leaving n [] e h same = absurd h
In-leaving n (x ∷ edges) e (inl hit) same = elim (Bool-cases (x.from == n)) [
  | inl yes' ↦ rw yes' (inl hit)
  | inr no' ↦ absurd (ground (arith, nat_beq_iff x.from n, ap (λ (y : Edge). y.from) hit))
]
In-leaving n (x ∷ edges) e (inr h) same = elim (Bool-cases (x.from == n)) [
  | inl yes' ↦ rw yes' (inr (In-leaving n edges e h same))
  | inr no' ↦ rw no' (In-leaving n edges e h same)
]

module _ (flow : CompiledFlow) (edges : List Edge) (closed : IsClosed flow edges) where
  open flow use {outbound}

  abbrev IsPlain : NodeId → Type 0
  IsPlain v = (n : FlowNode) → node flow v ≡ some n → is_success n.kind ≡ false

  abbrev Waits : List NodeId → List NodeId → NodeId → Type 0
  Waits visited queue v = (has visited v ≡ true) ⊎ In v queue

  -- What was visited is no success, and its edges lead to what was visited or waits.
  record IsFrontier (visited queue : List NodeId) : Type 0 where
    onward :
        (v : NodeId) (e : Edge)
        → has visited v ≡ true
        → In e edges
        → e.from ≡ v
        → Waits visited queue e.to
    plain : (v : NodeId) → has visited v ≡ true → IsPlain v

  skip-IsFrontier :
      (n : NodeId) (visited queue : List NodeId)
      → has visited n ≡ true
      → IsFrontier visited (n ∷ queue)
      → IsFrontier visited queue
  skip-IsFrontier n visited queue old f = record {
    onward = λ v e h i same. elim (f.onward v e h i same) [
      | inl seen ↦ inl seen
      | inr (inl hit) ↦ inl (subst (λ (k : NodeId). has visited k ≡ true) hit old)
      | inr (inr waits) ↦ inr waits
    ];
    plain = f.plain;
  }

  visit-IsFrontier :
      (n : NodeId) (visited queue : List NodeId)
      → IsPlain n
      → IsFrontier visited (n ∷ queue)
      → IsFrontier (n ∷ visited) (push_targets (edges_from outbound n) queue)
  visit-IsFrontier n visited queue p f = record {
    onward = λ v e h i same. elim (has_cons n v visited h) [
      | inl new ↦ inr (
          In-push_targets_new (edges_from outbound n) queue e
            (rw (closed.grouped n) (In-leaving n edges e i (same ∙ sym new))))
      | inr old ↦ elim (f.onward v e old i same) [
        | inl seen ↦ inl (has_tail n e.to visited seen)
        | inr (inl hit) ↦
            inl (subst (λ (k : NodeId). has (n ∷ visited) k ≡ true) hit (has_head n visited))
        | inr (inr waits) ↦ inr (In-push_targets_old (edges_from outbound n) queue e.to waits)
      ]
    ];
    plain = λ v h. elim (has_cons n v visited h) [
      | inl new ↦ subst IsPlain new p
      | inr old ↦ f.plain v old
    ];
  }

  -- A set that holds all that was visited or waits, is closed under edges, and has no success.
  record IsExplored (visited queue all : List NodeId) : Type 0 where
    holds : (v : NodeId) → Waits visited queue v → has all v ≡ true
    frontier : IsFrontier all []

  skip-IsExplored :
      (n : NodeId) (visited queue all : List NodeId)
      → has visited n ≡ true
      → IsExplored visited queue all
      → IsExplored visited (n ∷ queue) all
  skip-IsExplored n visited queue all old ex = record {
    holds = λ v. elim [
      | inl seen ↦ ex.holds v (inl seen)
      | inr (inl hit) ↦ subst (λ (k : NodeId). has all k ≡ true) hit (ex.holds n (inl old))
      | inr (inr waits) ↦ ex.holds v (inr waits)
    ];
    frontier = ex.frontier;
  }

  visit-IsExplored :
      (n : NodeId) (visited queue all : List NodeId)
      → IsExplored (n ∷ visited) (push_targets (edges_from outbound n) queue) all
      → IsExplored visited (n ∷ queue) all
  visit-IsExplored n visited queue all ex = record {
    holds = λ v. elim [
      | inl seen ↦ ex.holds v (inl (has_tail n v visited seen))
      | inr (inl hit) ↦
          subst (λ (k : NodeId). has all k ≡ true) hit (ex.holds n (inl (has_head n visited)))
      | inr (inr waits) ↦
          ex.holds v (inr (In-push_targets_old (edges_from outbound n) queue v waits))
    ];
    frontier = ex.frontier;
  }

  explore-IsExplored :
      (fuel : ℕ) (visited queue : List NodeId)
      → IsFrontier visited queue
      → explore flow fuel visited queue false ≡ some false
      → (all : List NodeId) × IsExplored visited queue all
  unfolding explore
  explore-IsExplored zero visited queue f h = cc
  explore-IsExplored (suc fuel) visited [] f h =
      (visited, record { holds = λ v. elim [ inl seen ↦ seen | inr i ↦ absurd i ]; frontier = f })
  explore-IsExplored (suc fuel) visited (n ∷ queue) f h = elim (Bool-cases (has visited n)) [
    | inl old ↦
        let (all, ex) =
          explore-IsExplored fuel visited queue (skip-IsFrontier n visited queue old f)
            (ground arith) in
        (all, skip-IsExplored n visited queue all old ex)
    | inr new ↦ elim (Option-cases (node flow n)) [
      | inl missing ↦ absurd (ground arith)
      | inr (found, at) ↦ elim (Bool-cases (is_success found.kind)) [
        | inl wins ↦ absurd (
            ground (
              arith,
              explore-saw flow edges closed fuel (n ∷ visited)
                  (push_targets (edges_from outbound n) queue) false,
            ))
        | inr loses ↦
            let (all, ex) =
              explore-IsExplored fuel (n ∷ visited) (push_targets (edges_from outbound n) queue)
                (visit-IsFrontier n visited queue (λ x got. ground arith) f) (ground arith) in
            (all, visit-IsExplored n visited queue all ex)
      ]
    ]
  ]

  reach_stays :
      (s v : NodeId) (all : List NodeId)
      → IsFrontier all []
      → has all s ≡ true
      → Reach edges s v
      → has all v ≡ true
  reach_stays s v all f h here = h
  reach_stays s v all f h (step e i r from to) =
      elim (f.onward e.from e
        (subst (λ (k : NodeId). has all k ≡ true) (sym from) (reach_stays s _ all f h r)) i refl) [
          | inl seen ↦ subst (λ (k : NodeId). has all k ≡ true) to seen
          | inr i' ↦ absurd i'
        ]

  -- A search from `s` that reports no success leaves none to reach.
  pub explore_complete :
      (s : NodeId) (fuel : ℕ) (v : NodeId) (n : FlowNode)
      → explore flow fuel [] (s ∷ []) false ≡ some false
      → Reach edges s v
      → node flow v ≡ some n
      → is_success n.kind ≡ false
  explore_complete s fuel v n h r at =
      let (all, ex) =
        explore-IsExplored fuel [] (s ∷ [])
          (record {
            onward = λ w e seen. absurd (nothing_visited w seen);
            plain = λ w seen. absurd (nothing_visited w seen);
          })
          h in
      ex.frontier.plain v (reach_stays s v all ex.frontier (ex.holds s (inr (inl refl))) r) n at
