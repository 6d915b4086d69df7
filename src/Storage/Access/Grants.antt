-- ===== src/Storage/Access/Grants.antt =====
-- What the assignments of crates/geonosis-storage/src/memory.rs hold after each way to change them.
use geonosis.Base.{
  ℕ, not, Option, none, some, List, [], ◌∷◌, Map, lookup, insert, remove, lookup-map_values,
  map_values, nat_eq, pair_eq, ◌==◌, ==_iff, select, select-In, any, In, In-append, ◌≡◌, refl, sym,
  ap, ◌∙◌, arith, inl, inr, ◌⊎◌, Bool-cases, Option-cases, insert_other, lookup-insert_self,
  remove_other, lookup-remove_self, if_cases, subst,
}
use geonosis.Storage.Access.{or_empty, ids_at, without, pushed, retained}

abbrev pub Grants : Type 0
Grants = Map (ℕ × ℕ) (List ℕ)

-- An id is assigned at a key.
unfoldable pub Holds : Grants → ℕ × ℕ → ℕ → Type 0
Holds grants key id = In id (ids_at key grants)

without-In : (id x : ℕ) (ids : List ℕ) → In x (without id ids) → In x ids × ¬ (x ≡ id)
unfolding without
without-In id x ids m =
    let (listed, passes) = select-In (λ (r : ℕ). not (r == id)) ids x m in
    (listed, λ q. ground (arith, ==_iff x id))

pushed-In : (id x : ℕ) (ids : List ℕ) → In x (pushed id ids) → In x ids ⊎ (id ≡ x)
unfolding pushed
pushed-In id x ids =
    if_cases (λ (l : List ℕ). In x l → In x ids ⊎ (id ≡ x)) (any (λ (r : ℕ). r == id) ids) _ _
      (λ m. inl m)
      (λ m. elim (In-append x ids (id ∷ []) m) [
        | inl old ↦ inl old
        | inr (inl new) ↦ inr new
        | inr (inr more) ↦ absurd more
      ])

pub ids_at-map_values :
    (id : ℕ) (o : Option (List ℕ))
    → or_empty (elim o [ none ↦ none | some ids ↦ some (without id ids) ]) ≡ without id (or_empty o)
unfolding without select
ids_at-map_values id none = refl
ids_at-map_values id (some ids) = refl

-- A key is this one or another.
key-cases : (k j : ℕ × ℕ) → (k ≡ j) ⊎ ¬ (k ≡ j)
key-cases k j = elim (Bool-cases (k == j)) [
  | inl same ↦ inl ((==_iff k j).0 same)
  | inr other ↦ inr (λ q. ground (arith, ==_iff k j))
]

pub Holds-map_values :
    (id : ℕ) (g : Grants) (key : ℕ × ℕ) (x : ℕ)
    → Holds (map_values (without id) g) key x
    → Holds g key x × ¬ (x ≡ id)
unfolding Holds
Holds-map_values id g key x m = without-In id x (ids_at key g) (
    subst (In x)
      (ap or_empty (lookup-map_values (without id) key g) ∙ ids_at-map_values id (lookup key g)) m)

retained_absent : (at : ℕ × ℕ) (id : ℕ) (g : Grants) → lookup at g ≡ none → retained at id g ≡ g
unfolding retained
retained_absent at id g absent = rw (retained, absent) refl

retained_held :
    (at : ℕ × ℕ) (id : ℕ) (ids : List ℕ) (g : Grants)
    → lookup at g ≡ some ids
    → retained at id g ≡ insert at (without id ids) g
unfolding retained
retained_held at id ids g held = rw (retained, held) refl

pub Holds-retained :
    (at : ℕ × ℕ) (id : ℕ) (g : Grants) (key : ℕ × ℕ) (x : ℕ)
    → Holds (retained at id g) key x
    → Holds g key x
unfolding Holds
Holds-retained at id g key x m = elim (Option-cases (lookup at g)) [
  | inl absent ↦ subst (λ (h : Grants). Holds h key x) (retained_absent at id g absent) m
  | inr (ids, held) ↦
      let m' : Holds (insert at (without id ids) g) key x =
        subst (λ (h : Grants). Holds h key x) (retained_held at id ids g held) m in
      elim (key-cases at key) [
        | inl same ↦
            subst (λ (k : ℕ × ℕ). Holds g k x) same
              (subst (In x) (sym (ap or_empty held))
                (without-In id x ids (
                  subst (In x) (ap or_empty (lookup-insert_self at (without id ids) g)) (
                    subst (λ (k : ℕ × ℕ). Holds (insert at (without id ids) g) k x) (sym same)
                      m'))).0)
        | inr other ↦ subst (In x) (ap or_empty (insert_other at key (without id ids) g other)) m'
      ]
]

pub Holds-pushed :
    (at : ℕ × ℕ) (id : ℕ) (g : Grants) (key : ℕ × ℕ) (x : ℕ)
    → Holds (insert at (pushed id (ids_at at g)) g) key x
    → Holds g key x ⊎ ((at ≡ key) × (id ≡ x))
unfolding Holds
Holds-pushed at id g key x m = elim (key-cases at key) [
  | inl same ↦
      let ids = pushed id (ids_at at g) in
      elim (pushed-In id x (ids_at at g) (
        subst (In x) (ap or_empty (lookup-insert_self at ids g))
          (subst (λ (k : ℕ × ℕ). Holds (insert at ids g) k x) (sym same) m))) [
            | inl old ↦ inl (subst (λ (k : ℕ × ℕ). Holds g k x) same old)
            | inr new ↦ inr (same, new)
          ]
  | inr other ↦
      inl (subst (In x) (ap or_empty (insert_other at key (pushed id (ids_at at g)) g other)) m)
]

pub Holds-remove :
    (at : ℕ × ℕ) (g : Grants) (key : ℕ × ℕ) (x : ℕ)
    → Holds (remove at g) key x
    → ¬ (at ≡ key) × Holds g key x
unfolding Holds
Holds-remove at g key x m = elim (key-cases at key) [
  | inl same ↦ absurd (
      subst (In x) (ap or_empty (lookup-remove_self at g))
        (subst (λ (k : ℕ × ℕ). Holds (remove at g) k x) (sym same) m))
  | inr other ↦ (other, subst (In x) (ap or_empty (remove_other at key g other)) m)
]
