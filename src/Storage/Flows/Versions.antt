-- ===== src/Storage/Flows/Versions.antt =====
-- The latest version of a flow, crates/geonosis-storage/src/memory.rs.
use geonosis.Base.{
  ℕ, String, true, false, Option, none, some, List, [], ◌∷◌, ok, err, ok_or, select, select-In,
  In-select, In, ◌≡◌, refl, arith, inl, inr, Bool-cases, ==_iff, nat_eq, string_eq, subst,
}
use geonosis.Base.Int.{int_ltb, ◌≤ℤ◌}
use geonosis.Flow.Dsl.{FlowDefinition}
use geonosis.Storage.Errors.{StorageError, not_found, found, values}
use geonosis.Storage.Flows.{Flows, is_alias_of, higher, max_by_version, get_auth_flow_by_alias}

some_inj : {a b : FlowDefinition} → some a ≡ some b → a ≡ b
some_inj q = cc

missed : (o : Option FlowDefinition) (e : StorageError) → ok_or o not_found ≡ err e → o ≡ none
missed none e q = refl
missed (some f) e q = cc

-- One of the list, and none of it has a higher version.
abbrev IsMax : List FlowDefinition → FlowDefinition → Type 0
IsMax fs f = In f fs × ((g : FlowDefinition) → In g fs → g.version ≤ℤ f.version)

IsMax-keep :
    (f g : FlowDefinition) (fs : List FlowDefinition)
    → IsMax fs g
    → int_ltb g.version f.version ≡ false
    → IsMax (f ∷ fs) g
IsMax-keep f g fs (m, top) not_higher = (
  inr m,
  λ x n. elim n [
    | inl e ↦ subst (λ (y : FlowDefinition). y.version ≤ℤ g.version) e (ground arith)
    | inr n' ↦ top x n'
  ],
)

IsMax-take :
    (f g : FlowDefinition) (fs : List FlowDefinition)
    → IsMax fs g
    → int_ltb g.version f.version ≡ true
    → IsMax (f ∷ fs) f
IsMax-take f g fs (m, top) higher = (
  inl refl,
  λ x n. elim n [
    | inl e ↦ subst (λ (y : FlowDefinition). y.version ≤ℤ f.version) e (omega arith)
    | inr n' ↦ let below = top x n' in ground arith
  ],
)

higher-IsMax :
    (f : FlowDefinition) (fs : List FlowDefinition) (o : Option FlowDefinition)
    → ((g : FlowDefinition) → o ≡ some g → IsMax fs g)
    → (o ≡ none → fs ≡ [])
    → (g : FlowDefinition) → higher f o ≡ some g
    → IsMax (f ∷ fs) g
higher-IsMax f fs none above empty g q =
    let is_f : f ≡ g = some_inj q in
    rw (empty refl) (
      inl is_f,
      λ x n. elim n [
        | inl e ↦ subst (λ (y : FlowDefinition). y.version ≤ℤ g.version) e (rw (is_f) (omega arith))
        | inr n' ↦ absurd n'
      ],
    )
higher-IsMax f fs (some h) above empty g q = elim (Bool-cases (int_ltb h.version f.version)) [
  | inl less ↦
      subst (λ (y : FlowDefinition). IsMax (f ∷ fs) y) (ground arith)
        (IsMax-take f h fs (above h refl) less)
  | inr more ↦
      subst (λ (y : FlowDefinition). IsMax (f ∷ fs) y) (ground arith)
        (IsMax-keep f h fs (above h refl) more)
]

higher-some : (f : FlowDefinition) (o : Option FlowDefinition) → ¬ (higher f o ≡ none)
higher-some f none q = cc
higher-some f (some h) q = ground arith

max_by_version-none : (fs : List FlowDefinition) → max_by_version fs ≡ none → fs ≡ []
unfolding max_by_version
max_by_version-none [] q = refl
max_by_version-none (f ∷ fs) q = absurd (higher-some f (max_by_version fs) q)

max_by_version-IsMax :
    (fs : List FlowDefinition) (f : FlowDefinition) → max_by_version fs ≡ some f → IsMax fs f
unfolding max_by_version
max_by_version-IsMax [] f q = cc
max_by_version-IsMax (x ∷ fs) f q =
    higher-IsMax x fs (max_by_version fs) (max_by_version-IsMax fs) (max_by_version-none fs) f q

-- The flow that an alias gives is stored in that realm under that alias, and none stored there has a
-- higher version; there is no flow of the alias when none is given.
pub get_auth_flow_by_alias-IsMax :
    (t : Flows) (realm : ℕ) (alias : String)
    → ((f : FlowDefinition)
        → get_auth_flow_by_alias realm alias t ≡ ok f
        → In f (values t.auth_flows)
          × (f.realm_id ≡ realm)
          × (f.alias ≡ alias)
          × ((g : FlowDefinition)
              → In g (values t.auth_flows)
              → g.realm_id ≡ realm
              → g.alias ≡ alias
              → g.version ≤ℤ f.version))
      × ((e : StorageError)
          → get_auth_flow_by_alias realm alias t ≡ err e
          → (g : FlowDefinition) → In g (values t.auth_flows)
          → g.realm_id ≡ realm
          → ¬ (g.alias ≡ alias))
unfolding get_auth_flow_by_alias
get_auth_flow_by_alias-IsMax t realm alias =
    let p = is_alias_of realm alias in
    let all = values t.auth_flows in
    let belongs : (g : FlowDefinition) → g.realm_id ≡ realm → g.alias ≡ alias → p g ≡ true =
      λ g r a. ground (arith, ==_iff g.realm_id realm, ==_iff g.alias alias) in
    (
      λ f q.
          let (m, above) = max_by_version-IsMax (select p all) f (found _ f q) in
          let (stored, passes) = select-In p all f m in
          (
            stored,
            ground (arith, ==_iff f.realm_id realm),
            ground (arith, ==_iff f.alias alias),
            λ g listed r a. above g (In-select p all g listed (belongs g r a)),
          ),
      λ e q g listed r a.
          let none_left = max_by_version-none (select p all) (missed _ e q) in
          subst (In g) none_left (In-select p all g listed (belongs g r a)),
    )
