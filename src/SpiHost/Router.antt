-- ===== src/SpiHost/Router.antt =====
-- crates/geonosis-spi-host/src/router.rs: one function per dispatch mode. The closure that runs a
-- provider is an argument; what it changes, in the host or in the provider, is the state `S` that is
-- passed along. The warning that `fire_forget` logs is left out.
pub mod First
pub mod Stops
use geonosis.Base.{
  String, Option, none, some, List, [], ◌∷◌, ◌==◌, string_eq, find, Result, ok, err,
}
use geonosis.SpiHost.Registry.{ProviderBinding}

-- `LookupOutcome` of registry.rs
pub data LookupOutcome (T : Type 0) : Type 0 where
  not_found : LookupOutcome T
  found : T → LookupOutcome T

pub data DispatchError : Type 0 where
  no_provider : DispatchError
  named_not_found : String → DispatchError
  provider_failed : String → DispatchError

pub data Decision : Type 0 where
  permit deny skip : Decision

-- What a call leaves: the state and its result.
abbrev pub Answer : Type 0 → Type 0 → Type 0
Answer S T = S × Result DispatchError T

-- `?` on an awaited call
abbrev pub then_run : {S T U : Type 0} → Answer S T → (S → T → Answer S U) → Answer S U
then_run (s, ok t) next = next s t
then_run (s, err e) next = (s, err e)

module _ {S : Type 0} where
  unfoldable pub first_match :
      {T : Type 0}
      → (ProviderBinding → S → Answer S (LookupOutcome T))
      → List ProviderBinding
      → S
      → Answer S (Option T)
  first_match call [] s = (s, ok none)
  first_match call (b ∷ bs) s = then_run (call b s) (λ s' outcome. elim outcome [
    | found v ↦ (s', ok (some v))
    | not_found ↦ first_match call bs s'
  ])

  unfoldable pub named_select :
      {T : Type 0}
      → (ProviderBinding → S → Answer S T)
      → List ProviderBinding
      → String
      → S
      → Answer S T
  named_select call bindings urn s =
      elim (find (λ (b : ProviderBinding). b.provider_urn == urn) bindings) [
        | none ↦ (s, err (named_not_found urn))
        | some binding ↦ call binding s
      ]

  unfoldable pub chain :
      {T : Type 0}
      → (ProviderBinding → T → S → Answer S T)
      → List ProviderBinding
      → T
      → S
      → Answer S T
  chain call [] acc s = (s, ok acc)
  chain call (b ∷ bs) acc s = then_run (call b acc s) (λ s' next. chain call bs next s')

  -- The loop of `named_attach`, with what it has pushed put before what is still to come.
  unfoldable pub named_attach :
      {T : Type 0}
      → (ProviderBinding → S → Answer S T)
      → List ProviderBinding
      → S
      → Answer S (List (String × T))
  named_attach call [] s = (s, ok [])
  named_attach call (b ∷ bs) s = then_run (call b s) (λ s' v.
      then_run (named_attach call bs s') (λ s'' out. (s'', ok ((b.provider_urn, v) ∷ out))))

  unfoldable pub fire_forget : (ProviderBinding → S → Answer S Unit) → List ProviderBinding → S → S
  fire_forget call [] s = s
  fire_forget call (b ∷ bs) s = fire_forget call bs (call b s).0

  unfoldable pub first_decision :
      (ProviderBinding → S → Answer S Decision)
      → List ProviderBinding
      → S
      → Answer S (Option Decision)
  first_decision call [] s = (s, ok none)
  first_decision call (b ∷ bs) s = then_run (call b s) (λ s' decision. elim decision [
    | skip ↦ first_decision call bs s'
    | permit ↦ (s', ok (some permit))
    | deny ↦ (s', ok (some deny))
  ])
