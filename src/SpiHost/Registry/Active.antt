-- ===== src/SpiHost/Registry/Active.antt =====
-- Which providers are active: `active_bindings` of crates/geonosis-spi-host/src/router.rs against
-- `first_enabled` of registry.rs.
use geonosis.Base.{
  ℕ, String, Bool, true, not, ◌&&◌, Option, none, some, List, [], ◌∷◌, string_eq, ==_iff, any, find,
  select, select-In, In, ◌≡◌, refl, arith, inl, inr,
}
use geonosis.SpiHost.WitInterface.{WitInterfaceName}
use geonosis.SpiHost.Registry.{ProviderBinding, Registry, list, first_enabled, is_replaced}

-- `active_bindings`
unfoldable pub active_bindings : List ProviderBinding → List ProviderBinding
active_bindings bindings =
    select (λ (b : ProviderBinding). b.enabled && not (is_replaced bindings b.provider_urn))
      bindings

-- `bindings.first()`
abbrev pub head : List ProviderBinding → Option ProviderBinding
head [] = none
head (b ∷ bs) = some b

head-select :
    (p : ProviderBinding → Bool) (bs : List ProviderBinding) → head (select p bs) ≡ find p bs
unfolding select find
head-select p [] = refl
head-select p (b ∷ bs) = ground (arith, head-select p bs)

-- The provider that the registry picks is the first one of the slice that the router is given.
pub head-active_bindings :
    (registry : Registry) (realm : ℕ) (interface : WitInterfaceName)
    → head (active_bindings (list registry realm interface))
      ≡ first_enabled registry realm interface
unfolding active_bindings first_enabled
head-active_bindings registry realm interface = head-select _ (list registry realm interface)

is_replaced_by :
    (bindings : List ProviderBinding) (r : ProviderBinding) (urn : String)
    → In r bindings
    → r.replaces ≡ some urn
    → is_replaced bindings urn ≡ true
unfolding is_replaced any
is_replaced_by [] r urn m e = absurd m
is_replaced_by (b ∷ bs) r urn (inl at) e = ground (arith, ==_iff urn urn)
is_replaced_by (b ∷ bs) r urn (inr m) e = ground (arith, is_replaced_by bs r urn m e)

-- A provider of the slice is enabled, is one of the listed bindings, and no listed binding names it in
-- `replaces`, whether that binding is enabled or not and whatever its priority.
pub active_bindings-In :
    (bindings : List ProviderBinding) (b : ProviderBinding)
    → In b (active_bindings bindings)
    → In b bindings
      × (b.enabled ≡ true)
      × ((r : ProviderBinding) → In r bindings → ¬ (r.replaces ≡ some b.provider_urn))
unfolding active_bindings
active_bindings-In bindings b m =
    let (listed, passes) =
      select-In (λ (c : ProviderBinding). c.enabled && not (is_replaced bindings c.provider_urn))
        bindings b m in
    (
      listed,
      ground arith,
      λ r in_list e. ground (arith, is_replaced_by bindings r b.provider_urn in_list e),
    )
