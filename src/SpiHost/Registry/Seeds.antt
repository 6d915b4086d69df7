-- ===== src/SpiHost/Registry/Seeds.antt =====
-- Seeding the built-in providers, crates/geonosis-spi-host/src/registry.rs.
use geonosis.Base.{
  ℕ, String, true, List, [], ◌∷◌, ==_iff, string_eq, nat_eq, ◌≡◌, refl, ◌∙◌, arith, All, All-map,
}
use geonosis.SpiHost.WitInterface.{WitInterfaceName}
use geonosis.SpiHost.WitInterface
use geonosis.SpiHost.Registry.{
  ProviderBinding, Registry, list, register_if_absent, extended, lists_urn, builtin_binding,
  builtin_mapper_urns, builtin_event_urns, builtin_policy_urns, seed_each, seed_builtins,
}
use geonosis.SpiHost.Registry.Lists.{list-register_if_absent, lists_urn-extended}

-- A binding of this name is listed for the interface.
abbrev IsListed : Registry → ℕ → WitInterfaceName → String → Type 0
IsListed registry realm interface urn = lists_urn urn (list registry realm interface) ≡ true

register_if_absent_keeps :
    (b : ProviderBinding) (registry : Registry) (realm : ℕ) (interface : WitInterfaceName)
    (urn : String)
    → IsListed registry realm interface urn
    → IsListed (register_if_absent b registry) realm interface urn
register_if_absent_keeps b registry realm interface urn h = ground (
  arith,
  list-register_if_absent b registry realm interface,
  lists_urn-extended urn b (list registry realm interface),
  ==_iff b.realm_id realm,
  ==_iff b.interface interface,
)

register_if_absent_adds :
    (b : ProviderBinding) (registry : Registry)
    → IsListed (register_if_absent b registry) b.realm_id b.interface b.provider_urn
register_if_absent_adds b registry = ground (
  arith,
  list-register_if_absent b registry b.realm_id b.interface,
  lists_urn-extended b.provider_urn b (list registry b.realm_id b.interface),
  ==_iff b.realm_id b.realm_id,
  ==_iff b.interface b.interface,
  ==_iff b.provider_urn b.provider_urn,
)

-- A name that is listed is left alone.
register_if_absent_listed :
    (b : ProviderBinding) (registry : Registry)
    → IsListed registry b.realm_id b.interface b.provider_urn
    → (realm : ℕ) (interface : WitInterfaceName)
    → list (register_if_absent b registry) realm interface ≡ list registry realm interface
unfolding extended
register_if_absent_listed b registry h realm interface = ground (
  arith,
  list-register_if_absent b registry realm interface,
  ==_iff b.realm_id realm,
  ==_iff b.interface interface,
)

module _ (fresh : String → ℕ) (realm : ℕ) (interface : WitInterfaceName) where
  seed_each_keeps :
      (urns : List String) (registry : Registry) (r : ℕ) (i : WitInterfaceName) (urn : String)
      → IsListed registry r i urn
      → IsListed (seed_each fresh realm interface urns registry) r i urn
  unfolding seed_each
  seed_each_keeps [] registry r i urn h = h
  seed_each_keeps (u ∷ urns) registry r i urn h =
      let b = builtin_binding (fresh u) realm interface u in
      seed_each_keeps urns (register_if_absent b registry) r i urn
        (register_if_absent_keeps b registry r i urn h)

  seed_each_adds :
      (urns : List String) (registry : Registry)
      → All (IsListed (seed_each fresh realm interface urns registry) realm interface) urns
  unfolding seed_each
  seed_each_adds [] registry = tt
  seed_each_adds (u ∷ urns) registry =
      let b = builtin_binding (fresh u) realm interface u in
      let next = register_if_absent b registry in
      (
        seed_each_keeps urns next realm interface u (register_if_absent_adds b registry),
        seed_each_adds urns next,
      )

  seed_each_listed :
      (urns : List String) (registry : Registry)
      → All (IsListed registry realm interface) urns
      → (r : ℕ) (i : WitInterfaceName)
      → list (seed_each fresh realm interface urns registry) r i ≡ list registry r i
  unfolding seed_each
  seed_each_listed [] registry h r i = refl
  seed_each_listed (u ∷ urns) registry (here, h) r i =
      let b = builtin_binding (fresh u) realm interface u in
      let next = register_if_absent b registry in
      let kept : All (IsListed next realm interface) urns =
        All-map (λ urn. register_if_absent_keeps b registry realm interface urn) urns h in
      seed_each_listed urns next kept r i ∙ register_if_absent_listed b registry here r i

-- Every built-in name is listed for its interface in this realm.
unfoldable pub IsSeeded : ℕ → Registry → Type 0
IsSeeded realm registry =
    All (IsListed registry realm WitInterface.mapper) builtin_mapper_urns
    × All (IsListed registry realm WitInterface.event) builtin_event_urns
    × All (IsListed registry realm WitInterface.policy) builtin_policy_urns

pub seed_builtins-IsSeeded :
    (fresh : String → ℕ) (realm : ℕ) (registry : Registry)
    → IsSeeded realm (seed_builtins fresh realm registry)
unfolding IsSeeded seed_builtins
seed_builtins-IsSeeded fresh realm registry =
    let mappers = seed_each fresh realm WitInterface.mapper builtin_mapper_urns registry in
    let events = seed_each fresh realm WitInterface.event builtin_event_urns mappers in
    let by_policy = seed_each_keeps fresh realm WitInterface.policy builtin_policy_urns events in
    let by_event = seed_each_keeps fresh realm WitInterface.event builtin_event_urns mappers in
    (
      All-map
          (λ urn h.
            by_policy realm WitInterface.mapper urn (by_event realm WitInterface.mapper urn h))
          builtin_mapper_urns
          (seed_each_adds fresh realm WitInterface.mapper builtin_mapper_urns registry),
      All-map (λ urn h. by_policy realm WitInterface.event urn h) builtin_event_urns
          (seed_each_adds fresh realm WitInterface.event builtin_event_urns mappers),
      seed_each_adds fresh realm WitInterface.policy builtin_policy_urns events,
    )

seed_builtins_seeded :
    (fresh : String → ℕ) (realm : ℕ) (registry : Registry)
    → IsSeeded realm registry
    → (r : ℕ) (i : WitInterfaceName)
    → list (seed_builtins fresh realm registry) r i ≡ list registry r i
unfolding IsSeeded seed_builtins
seed_builtins_seeded fresh realm registry (mapper, event, policy) r i =
    let mappers = seed_each fresh realm WitInterface.mapper builtin_mapper_urns registry in
    let events = seed_each fresh realm WitInterface.event builtin_event_urns mappers in
    let by_mapper =
      seed_each_keeps fresh realm WitInterface.mapper builtin_mapper_urns registry realm in
    let by_event =
      seed_each_keeps fresh realm WitInterface.event builtin_event_urns mappers realm in
    seed_each_listed fresh realm WitInterface.policy builtin_policy_urns events
      (All-map (λ urn h. by_event WitInterface.policy urn (by_mapper WitInterface.policy urn h))
        builtin_policy_urns policy)
      r i
    ∙ seed_each_listed fresh realm WitInterface.event builtin_event_urns mappers
        (All-map (λ urn h. by_mapper WitInterface.event urn h) builtin_event_urns event) r i
    ∙ seed_each_listed fresh realm WitInterface.mapper builtin_mapper_urns registry mapper r i

-- After a realm is seeded, every built-in mapper, event sink and policy provider is listed for its
-- interface; seeding the realm again, whatever ids it draws, changes no list of any realm.
pub seed_builtins_idem :
    (realm : ℕ) (registry : Registry) (fresh again : String → ℕ)
    → let seeded = seed_builtins fresh realm registry in
      IsSeeded realm seeded
      × ((r : ℕ) (i : WitInterfaceName)
          → list (seed_builtins again realm seeded) r i ≡ list seeded r i)
seed_builtins_idem realm registry fresh again =
    let seeded = seed_builtins fresh realm registry in
    let all_there = seed_builtins-IsSeeded fresh realm registry in
    (all_there, λ r i. seed_builtins_seeded again realm seeded all_there r i)
