-- ===== src/SpiHost/Router/Stops.antt =====
-- Failures in the router of crates/geonosis-spi-host/src/router.rs.
use geonosis.Base.{String, List, [], ◌∷◌, ◌++◌, ok, err, ◌≡◌, refl, ap, ◌⊎◌, inl, inr}
use geonosis.SpiHost.Registry.{ProviderBinding}
use geonosis.SpiHost.Router.{DispatchError, Answer, chain, named_attach, fire_forget}
use geonosis.SpiHost.Router.First.{Answer-cases}

-- The providers of the list succeed one after the other, each on what the one before it gave.
pub data Links {S T : Type 0} (run : ProviderBinding → T → S → Answer S T)
    : List ProviderBinding → T → S → T → S → Type 0 where
  unlinked : {acc : T} {s : S} → Links run [] acc s acc s
  linked :
      {b : ProviderBinding} {bs : List ProviderBinding} {acc next out : T} {s t u : S}
      → run b acc s ≡ (t, ok next)
      → Links run bs next t out u
      → Links run (b ∷ bs) acc s out u

-- The providers of the list succeed one after the other, each with its own value.
pub data Slots {S T : Type 0} (attach : ProviderBinding → S → Answer S T)
    : List ProviderBinding → S → List (String × T) → S → Type 0 where
  vacant : {s : S} → Slots attach [] s [] s
  filled :
      {b : ProviderBinding} {bs : List ProviderBinding} {v : T} {out : List (String × T)}
      {s t u : S}
      → attach b s ≡ (t, ok v)
      → Slots attach bs t out u
      → Slots attach (b ∷ bs) s ((b.provider_urn, v) ∷ out) u

-- Every provider of the list is called, each from the state that the one before it left.
pub data Fired {S : Type 0} (fire : ProviderBinding → S → Answer S Unit)
    : List ProviderBinding → S → S → Type 0 where
  nothing : {s : S} → Fired fire [] s s
  fired :
      {b : ProviderBinding} {bs : List ProviderBinding} {s u : S}
      → Fired fire bs (fire b s).0 u
      → Fired fire (b ∷ bs) s u

-- A provider of the list fails where those before it have succeeded; those behind it are in `behind`.
pub record LinkFailed {S T : Type 0} (run : ProviderBinding → T → S → Answer S T)
    (bs : List ProviderBinding) (acc : T) (s t : S) (e : DispatchError) : Type 0 where
  pub before : List ProviderBinding
  pub at : ProviderBinding
  pub behind : List ProviderBinding
  pub given : T
  pub reached : S
  pub split : bs ≡ before ++ at ∷ behind
  pub links : Links run before acc s given reached
  pub failure : run at given reached ≡ (t, err e)

pub record SlotFailed {S T : Type 0} (attach : ProviderBinding → S → Answer S T)
    (bs : List ProviderBinding) (s t : S) (e : DispatchError) : Type 0 where
  pub before : List ProviderBinding
  pub at : ProviderBinding
  pub behind : List ProviderBinding
  pub values : List (String × T)
  pub reached : S
  pub split : bs ≡ before ++ at ∷ behind
  pub slots : Slots attach before s values reached
  pub failure : attach at reached ≡ (t, err e)

-- All providers of a chain succeed, or the answer is the first error.
unfoldable pub ChainEnd :
    {S T : Type 0}
    → (ProviderBinding → T → S → Answer S T)
    → List ProviderBinding
    → T
    → S
    → Answer S T
    → Type 0
ChainEnd {S} {T} run bs acc s answer =
    ((t : S) × (out : T) × (answer ≡ (t, ok out)) × Links run bs acc s out t)
    ⊎ ((t : S) × (e : DispatchError) × (answer ≡ (t, err e)) × LinkFailed run bs acc s t e)

unfoldable pub AttachEnd :
    {S T : Type 0}
    → (ProviderBinding → S → Answer S T)
    → List ProviderBinding
    → S
    → Answer S (List (String × T))
    → Type 0
AttachEnd {S} {T} attach bs s answer =
    ((t : S) × (out : List (String × T)) × (answer ≡ (t, ok out)) × Slots attach bs s out t)
    ⊎ ((t : S) × (e : DispatchError) × (answer ≡ (t, err e)) × SlotFailed attach bs s t e)

module _ {S : Type 0} where
  chain-ChainEnd :
      {T : Type 0} (run : ProviderBinding → T → S → Answer S T) (bs : List ProviderBinding)
      (acc : T) (s : S)
      → ChainEnd run bs acc s (chain run bs acc s)
  unfolding chain ChainEnd
  chain-ChainEnd run [] acc s = inl (s, acc, refl, unlinked)
  chain-ChainEnd run (b ∷ bs) acc s = elim (Answer-cases (run b acc s)) [
    | inl (t, next, e) ↦ rw (e) (elim (chain-ChainEnd run bs next t) [
      | inl (u, out, r, links) ↦ inl (u, out, r, linked e links)
      | inr (u, f, r, h) ↦ inr (
        u,
        f,
        r,
        record {
          before = b ∷ h.before;
          at = h.at;
          behind = h.behind;
          given = h.given;
          reached = h.reached;
          split = ap (λ (rest : List ProviderBinding). b ∷ rest) h.split;
          links = linked e h.links;
          failure = h.failure;
        },
      )
    ])
    | inr (t, f, e) ↦ rw (e) (
        inr (
          t,
          f,
          refl,
          record {
            before = [];
            at = b;
            behind = bs;
            given = acc;
            reached = s;
            split = refl;
            links = unlinked;
            failure = e;
          },
        ))
  ]

  named_attach-AttachEnd :
      {T : Type 0} (attach : ProviderBinding → S → Answer S T) (bs : List ProviderBinding) (s : S)
      → AttachEnd attach bs s (named_attach attach bs s)
  unfolding named_attach AttachEnd
  named_attach-AttachEnd attach [] s = inl (s, [], refl, vacant)
  named_attach-AttachEnd attach (b ∷ bs) s = elim (Answer-cases (attach b s)) [
    | inl (t, v, e) ↦ rw (e) (elim (named_attach-AttachEnd attach bs t) [
      | inl (u, out, r, slots) ↦ inl (u, (b.provider_urn, v) ∷ out, rw (r) refl, filled e slots)
      | inr (u, f, r, h) ↦ inr (
        u,
        f,
        rw (r) refl,
        record {
          before = b ∷ h.before;
          at = h.at;
          behind = h.behind;
          values = (b.provider_urn, v) ∷ h.values;
          reached = h.reached;
          split = ap (λ (rest : List ProviderBinding). b ∷ rest) h.split;
          slots = filled e h.slots;
          failure = h.failure;
        },
      )
    ])
    | inr (t, f, e) ↦ rw (e) (
        inr (
          t,
          f,
          refl,
          record {
            before = [];
            at = b;
            behind = bs;
            values = [];
            reached = s;
            split = refl;
            slots = vacant;
            failure = e;
          },
        ))
  ]

  fire_forget-Fired :
      (fire : ProviderBinding → S → Answer S Unit) (bs : List ProviderBinding) (s : S)
      → Fired fire bs s (fire_forget fire bs s)
  unfolding fire_forget
  fire_forget-Fired fire [] s = nothing
  fire_forget-Fired fire (b ∷ bs) s = fired (fire_forget-Fired fire bs (fire b s).0)

  -- A chain gives what the last provider makes of the outputs handed on from the first one, and a
  -- named attach the values of all providers under their names in order; when a provider fails, both
  -- give the error of the first that does, in the state that it leaves, so that those behind it are
  -- not called. A fire-and-forget calls every provider in order, whatever each one returns.
  pub dispatch_stops :
      {T : Type 0} (run : ProviderBinding → T → S → Answer S T)
      (attach : ProviderBinding → S → Answer S T) (fire : ProviderBinding → S → Answer S Unit)
      (bs : List ProviderBinding) (acc : T) (s : S)
      → ChainEnd run bs acc s (chain run bs acc s)
        × AttachEnd attach bs s (named_attach attach bs s)
        × Fired fire bs s (fire_forget fire bs s)
  dispatch_stops run attach fire bs acc s =
      (chain-ChainEnd run bs acc s, named_attach-AttachEnd attach bs s, fire_forget-Fired fire bs s)
