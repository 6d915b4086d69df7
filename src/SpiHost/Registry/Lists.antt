-- ===== src/SpiHost/Registry/Lists.antt =====
-- What each method of crates/geonosis-spi-host/src/registry.rs leaves in the lists of the registry.
use geonosis.Base.{
  ℕ, String, Bool, List, [], ◌∷◌, ◌++◌, ◌||◌, ◌&&◌, ==_iff, if◌then◌else◌, ◌==◌, string_eq, nat_eq,
  pair_eq, insert, lookup-insert, any, ◌≡◌, refl, arith,
}
use geonosis.SpiHost.WitInterface.{WitInterfaceName}
use geonosis.SpiHost.Registry.{
  ProviderBinding, Registry, place, sort_by_priority, list, register, register_if_absent, extended,
  lists_urn,
}

-- The list of this realm and interface is the one of the binding.
abbrev pub is_at : ProviderBinding → ℕ → WitInterfaceName → Bool
is_at b realm interface = b.realm_id == realm && b.interface == interface

list-insert :
    (b : ProviderBinding) (bs : List ProviderBinding) (registry : Registry) (realm : ℕ)
    (interface : WitInterfaceName)
    → list (insert (b.realm_id, b.interface) bs registry) realm interface
      ≡ (if is_at b realm interface then bs else list registry realm interface)
unfolding list
list-insert b bs registry realm interface =
    ground (arith, lookup-insert (b.realm_id, b.interface) (realm, interface) bs registry)

pub list-register :
    (b : ProviderBinding) (registry : Registry) (realm : ℕ) (interface : WitInterfaceName)
    → list (register b registry) realm interface ≡ (
        if is_at b realm interface
        then sort_by_priority (list registry b.realm_id b.interface ++ b ∷ [])
        else list registry realm interface)
unfolding register
list-register b registry realm interface = list-insert b _ registry realm interface

pub list-register_if_absent :
    (b : ProviderBinding) (registry : Registry) (realm : ℕ) (interface : WitInterfaceName)
    → list (register_if_absent b registry) realm interface ≡ (
        if is_at b realm interface
        then extended b (list registry b.realm_id b.interface)
        else list registry realm interface)
unfolding register_if_absent
list-register_if_absent b registry realm interface = list-insert b _ registry realm interface

any-place :
    (p : ProviderBinding → Bool) (b : ProviderBinding) (bs : List ProviderBinding)
    → any p (place b bs) ≡ (p b || any p bs)
unfolding any place
any-place p b [] = refl
any-place p b (c ∷ bs) = ground (arith, any-place p b bs)

any-sort_by_priority :
    (p : ProviderBinding → Bool) (bs : List ProviderBinding)
    → any p (sort_by_priority bs) ≡ any p bs
unfolding any sort_by_priority
any-sort_by_priority p [] = refl
any-sort_by_priority p (b ∷ bs) =
    ground (arith, any-place p b (sort_by_priority bs), any-sort_by_priority p bs)

pub any-append :
    (p : ProviderBinding → Bool) (bs cs : List ProviderBinding)
    → any p (bs ++ cs) ≡ (any p bs || any p cs)
unfolding any
any-append p [] cs = refl
any-append p (b ∷ bs) cs = ground (arith, any-append p bs cs)

-- The names in an extended list are the old ones and the new one.
pub lists_urn-extended :
    (urn : String) (b : ProviderBinding) (bs : List ProviderBinding)
    → lists_urn urn (extended b bs) ≡ (lists_urn urn bs || (b.provider_urn == urn))
unfolding lists_urn extended any
lists_urn-extended urn b bs =
    let p = λ (c : ProviderBinding). c.provider_urn == urn in
    ground (
      arith,
      any-sort_by_priority p (bs ++ b ∷ []),
      any-append p bs (b ∷ []),
      ==_iff b.provider_urn urn,
    )
