-- ===== src/SpiHost/Registry/Order.antt =====
-- The order of the providers, crates/geonosis-spi-host/src/registry.rs.
use geonosis.Base.{
  if_cases, ℕ, List, [], ◌∷◌, ◌++◌, string_eq, nat_eq, pair_eq, All, sym, subst, arith, inl, inr,
  Bool-cases,
}
use geonosis.Base.Int.{ℤ, int_ltb, ◌≤ℤ◌}
use geonosis.SpiHost.Registry.Lists.{is_at, list-register, list-register_if_absent}
use geonosis.SpiHost.WitInterface.{WitInterfaceName}
use geonosis.SpiHost.Registry.{
  extended, lists_urn, ProviderBinding, Registry, place, sort_by_priority, list, register,
  register_if_absent,
}

-- The highest priority stands first.
abbrev pub IsSorted : List ProviderBinding → Type 0
IsSorted [] = Unit
IsSorted (b ∷ bs) = All (λ (c : ProviderBinding). c.priority ≤ℤ b.priority) bs × IsSorted bs

below_trans :
    (bs : List ProviderBinding) (p q : ℤ)
    → p ≤ℤ q
    → All (λ (c : ProviderBinding). c.priority ≤ℤ p) bs
    → All (λ (c : ProviderBinding). c.priority ≤ℤ q) bs
below_trans [] p q le h = tt
below_trans (b ∷ bs) p q le (h, rest) = (omega arith, below_trans bs p q le rest)

place-All :
    (P : ProviderBinding → Type 0) (b : ProviderBinding) (bs : List ProviderBinding)
    → P b
    → All P bs
    → All P (place b bs)
unfolding place
place-All P b [] p h = (p, tt)
place-All P b (c ∷ bs) p (q, h) = elim (Bool-cases (int_ltb b.priority c.priority)) [
  | inl later ↦ rw (later) (q, place-All P b bs p h)
  | inr here ↦ rw (here) (p, (q, h))
]

place-IsSorted :
    (b : ProviderBinding) (bs : List ProviderBinding) → IsSorted bs → IsSorted (place b bs)
unfolding place
place-IsSorted b [] h = (tt, tt)
place-IsSorted b (c ∷ bs) (below, h) = elim (Bool-cases (int_ltb b.priority c.priority)) [
  | inl later ↦ rw (later) (
    place-All (λ (d : ProviderBinding). d.priority ≤ℤ c.priority) b bs (ground arith) below,
    place-IsSorted b bs h,
  )
  | inr here ↦
      let top : c.priority ≤ℤ b.priority = ground arith in
      rw (here) ((top, below_trans bs c.priority b.priority top below), (below, h))
]

pub sort_by_priority-IsSorted : (bs : List ProviderBinding) → IsSorted (sort_by_priority bs)
unfolding sort_by_priority
sort_by_priority-IsSorted [] = tt
sort_by_priority-IsSorted (b ∷ bs) =
    place-IsSorted b (sort_by_priority bs) (sort_by_priority-IsSorted bs)

-- `register_if_absent` sorts the list that it extends.
extended-IsSorted :
    (b : ProviderBinding) (bs : List ProviderBinding) → IsSorted bs → IsSorted (extended b bs)
unfolding extended
extended-IsSorted b bs h =
    if_cases IsSorted (lists_urn b.provider_urn bs) bs (sort_by_priority (bs ++ b ∷ [])) h
      (sort_by_priority-IsSorted (bs ++ b ∷ []))

-- Every list that the registry holds has the highest priority first.
abbrev pub IsOrdered : Registry → Type 0
IsOrdered registry =
    (realm : ℕ) (interface : WitInterfaceName) → IsSorted (list registry realm interface)

-- Registering a provider in a registry whose lists all have the highest priority first, with either
-- method, leaves the lists of every realm and interface so.
pub register-IsOrdered :
    (b : ProviderBinding) (registry : Registry)
    → IsOrdered registry
    → IsOrdered (register b registry) × IsOrdered (register_if_absent b registry)
register-IsOrdered b registry h =
    let bs = list registry b.realm_id b.interface in
    (
      λ realm interface. subst IsSorted (sym (list-register b registry realm interface)) (
          if_cases IsSorted (is_at b realm interface) _ _ (sort_by_priority-IsSorted (bs ++ b ∷ []))
            (h realm interface)),
      λ realm interface. subst IsSorted (sym (list-register_if_absent b registry realm interface)) (
          if_cases IsSorted (is_at b realm interface) _ _
            (extended-IsSorted b bs (h b.realm_id b.interface)) (h realm interface)),
    )
