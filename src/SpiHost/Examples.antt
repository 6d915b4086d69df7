-- ===== src/SpiHost/Examples.antt =====
-- Runs of the provider registry and the router.
use geonosis.Base.{
  ℕ, ◌+◌, String, Bool, true, false, Option, none, some, [], ◌∷◌, ok, err, ◌≡◌, refl, inl, In,
  if◌then◌else◌, ◌==◌, string_eq, find, lookup, insert, any, select,
}
use geonosis.Base.Int.{pos}
use geonosis.SpiHost.WitInterface
use geonosis.SpiHost.Registry.{
  ProviderBinding, Registry, place, sort_by_priority, list, register, seed_builtins, first_enabled,
  is_replaced, builtin_binding,
}
use geonosis.SpiHost.Registry.Order.{IsOrdered}
use geonosis.SpiHost.Registry.Seeds.{IsSeeded, seed_builtins_idem}
use geonosis.SpiHost.Registry.Active.{
  active_bindings, head, head-active_bindings, active_bindings-In,
}
use geonosis.SpiHost.Router.{
  LookupOutcome, found, not_found, provider_failed, Decision, deny, skip, Answer, first_match,
  chain, named_attach, fire_forget, first_decision,
}
use geonosis.SpiHost.Router.First.{Ending, first_match-Ending, first_decision-Ending}
use geonosis.SpiHost.Router.Stops.{ChainEnd, AttachEnd, Fired, dispatch_stops}

abbrev binding : String → ℕ → Option String → Bool → ProviderBinding
binding urn priority replaces enabled = record (builtin_binding 1 7 WitInterface.user_storage urn) {
  priority = pos priority;
  replaces = replaces;
  enabled = enabled;
}

abbrev local_users : ProviderBinding
local_users = binding "builtin:user-storage:local" 100 none true

-- A disabled binding that still hides the local users.
abbrev off : ProviderBinding
off = binding "wasm:user-storage:off" 50 (some "builtin:user-storage:local") false

abbrev rest : ProviderBinding
rest = binding "wasm:user-storage:rest" 200 none true

abbrev two : Registry
two = register rest (register local_users [])

higher_priority_wins : first_enabled two 7 WitInterface.user_storage ≡ some rest
unfolding first_enabled list register sort_by_priority place is_replaced find lookup insert any
higher_priority_wins = refl

disabled_still_replaces :
    first_enabled (register off (register local_users [])) 7 WitInterface.user_storage ≡ none
unfolding first_enabled list register sort_by_priority place is_replaced find lookup insert any
disabled_still_replaces = refl

empty-IsOrdered : IsOrdered []
unfolding list lookup
empty-IsOrdered realm interface = tt

seed_builtins_idem_example :
    let seeded = seed_builtins (λ urn. 1) 7 two in
    IsSeeded 7 seeded
    × ((r : ℕ) (i : String) → list (seed_builtins (λ urn. 2) 7 seeded) r i ≡ list seeded r i)
seed_builtins_idem_example = seed_builtins_idem 7 two (λ urn. 1) (λ urn. 2)

head-active_bindings_example :
    head (active_bindings (list two 7 WitInterface.user_storage))
    ≡ first_enabled two 7 WitInterface.user_storage
head-active_bindings_example = head-active_bindings two 7 WitInterface.user_storage

rest_is_active : In rest (active_bindings (rest ∷ local_users ∷ []))
unfolding active_bindings is_replaced select any
rest_is_active = inl refl

active_bindings-In_example :
    In rest (rest ∷ local_users ∷ [])
    × (rest.enabled ≡ true)
    × ((r : ProviderBinding)
        → In r (rest ∷ local_users ∷ [])
        → ¬ (r.replaces ≡ some rest.provider_urn))
active_bindings-In_example = active_bindings-In (rest ∷ local_users ∷ []) rest rest_is_active

-- A directory that counts the calls; only the local users know the name.
abbrev find_user : ProviderBinding → ℕ → Answer ℕ (LookupOutcome String)
find_user b n =
    (n + 1, ok (if b.provider_urn == local_users.provider_urn then found "alice" else not_found))

abbrev decide : ProviderBinding → ℕ → Answer ℕ Decision
decide b n = (n + 1, ok (if b.enabled then skip else deny))

abbrev fail_at_once : ProviderBinding → ℕ → Answer ℕ Unit
fail_at_once b n = (n + 1, err (provider_failed "down"))

two_calls : first_match find_user (rest ∷ local_users ∷ off ∷ []) 0 ≡ (2, ok (some "alice"))
unfolding first_match
two_calls = refl

first_match-Ending_example :
    Ending find_user not_found found
      (rest ∷ local_users ∷ off ∷ [])
      0
      (first_match find_user (rest ∷ local_users ∷ off ∷ []) 0)
first_match-Ending_example = first_match-Ending find_user (rest ∷ local_users ∷ off ∷ []) 0

first_decision-Ending_example :
    Ending decide skip
      (λ (d : Decision). d)
      (rest ∷ off ∷ [])
      0
      (first_decision decide (rest ∷ off ∷ []) 0)
first_decision-Ending_example = first_decision-Ending decide (rest ∷ off ∷ []) 0

abbrev link : ProviderBinding → Unit {0} → ℕ → Answer ℕ Unit
link b acc n = fail_at_once b n

dispatch_stops_example :
    ChainEnd link (rest ∷ local_users ∷ []) tt 0 (chain link (rest ∷ local_users ∷ []) tt 0)
    × AttachEnd fail_at_once
        (rest ∷ local_users ∷ [])
        0
        (named_attach fail_at_once (rest ∷ local_users ∷ []) 0)
    × Fired fail_at_once
        (rest ∷ local_users ∷ [])
        0
        (fire_forget fail_at_once (rest ∷ local_users ∷ []) 0)
dispatch_stops_example =
    dispatch_stops link fail_at_once fail_at_once (rest ∷ local_users ∷ []) tt 0

-- The second provider is not called.
chain_stops : chain link (rest ∷ local_users ∷ []) tt 0 ≡ (1, err (provider_failed "down"))
unfolding chain
chain_stops = refl

fire_forget_runs_all : fire_forget fail_at_once (rest ∷ local_users ∷ []) 0 ≡ 2
unfolding fire_forget
fire_forget_runs_all = refl
