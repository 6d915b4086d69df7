-- ===== src/SpiHost/Router/First.antt =====
-- The first answer in the router of crates/geonosis-spi-host/src/router.rs.
use geonosis.Base.{
  Option, none, some, List, [], ◌∷◌, ◌++◌, Result, ok, err, ◌≡◌, refl, ap, ◌⊎◌, inl, inr,
}
use geonosis.SpiHost.Registry.{ProviderBinding}
use geonosis.SpiHost.Router.{
  LookupOutcome, found, not_found, DispatchError, Decision, permit, deny, skip, Answer, first_match,
  first_decision,
}

-- Every provider of the list, called in order, passed the request on.
pub data PassesOn {S R : Type 0} (call : ProviderBinding → S → Answer S R) (quiet : R)
    : List ProviderBinding → S → S → Type 0 where
  nobody : {s : S} → PassesOn call quiet [] s s
  passed :
      {b : ProviderBinding} {bs : List ProviderBinding} {s t u : S}
      → call b s ≡ (t, ok quiet)
      → PassesOn call quiet bs t u
      → PassesOn call quiet (b ∷ bs) s u

-- The provider that ended the search: those before it passed the request on, and those behind it were
-- not called.
pub record Stopped {S R : Type 0} (call : ProviderBinding → S → Answer S R) (quiet : R)
    (bindings : List ProviderBinding) (s t : S) (r : Result DispatchError R) : Type 0 where
  pub before : List ProviderBinding
  pub at : ProviderBinding
  pub behind : List ProviderBinding
  pub reached : S
  pub split : bindings ≡ before ++ at ∷ behind
  pub quietly : PassesOn call quiet before s reached
  pub answer : call at reached ≡ (t, r)

later :
    {S R : Type 0} (call : ProviderBinding → S → Answer S R) (quiet : R) (b : ProviderBinding)
    (bs : List ProviderBinding) (s t u : S) (r : Result DispatchError R)
    → call b s ≡ (t, ok quiet)
    → Stopped call quiet bs t u r
    → Stopped call quiet (b ∷ bs) s u r
later call quiet b bs s t u r e h = record {
  before = b ∷ h.before;
  at = h.at;
  behind = h.behind;
  reached = h.reached;
  split = ap (λ (rest : List ProviderBinding). b ∷ rest) h.split;
  quietly = passed e h.quietly;
  answer = h.answer;
}

here :
    {S R : Type 0} (call : ProviderBinding → S → Answer S R) (quiet : R) (b : ProviderBinding)
    (bs : List ProviderBinding) (s t : S) (r : Result DispatchError R)
    → call b s ≡ (t, r)
    → Stopped call quiet (b ∷ bs) s t r
here call quiet b bs s t r e = record {
  before = [];
  at = b;
  behind = bs;
  reached = s;
  split = refl;
  quietly = nobody;
  answer = e;
}

pub Answer-cases :
    {S R : Type 0} (m : Answer S R)
    → ((s : S) × (v : R) × (m ≡ (s, ok v))) ⊎ ((s : S) × (e : DispatchError) × (m ≡ (s, err e)))
Answer-cases (s, ok v) = inl (s, v, refl)
Answer-cases (s, err e) = inr (s, e, refl)

-- How a search over the list ends: with the answer of the first provider that does not pass the
-- request on, with its error, or with nothing when they all do.
unfoldable pub Ending :
    {S R X : Type 0}
    → (ProviderBinding → S → Answer S R)
    → R
    → (X → R)
    → List ProviderBinding
    → S
    → Answer S (Option X)
    → Type 0
Ending {S} {R} {X} call quiet says bs s result =
    ((t : S) × (v : X) × (result ≡ (t, ok (some v)))
      × ¬ (says v ≡ quiet)
      × Stopped call quiet bs s t (ok (says v)))
    ⊎ ((t : S) × (e : DispatchError) × (result ≡ (t, err e)) × Stopped call quiet bs s t (err e))
    ⊎ ((t : S) × (result ≡ (t, ok none)) × PassesOn call quiet bs s t)

module _ {S R X : Type 0} (call : ProviderBinding → S → Answer S R) (quiet : R) (says : X → R)
    (b : ProviderBinding) (bs : List ProviderBinding) (s t : S) where
  Ending-later :
      (result : Answer S (Option X))
      → call b s ≡ (t, ok quiet)
      → Ending call quiet says bs t result
      → Ending call quiet says (b ∷ bs) s result
  unfolding Ending
  Ending-later result e (inl (u, v, r, loud, h)) =
      inl (u, v, r, loud, later call quiet b bs s t u _ e h)
  Ending-later result e (inr (inl (u, f, r, h))) =
      inr (inl (u, f, r, later call quiet b bs s t u _ e h))
  Ending-later result e (inr (inr (u, r, h))) = inr (inr (u, r, passed e h))

  Ending-here :
      (v : X)
      → call b s ≡ (t, ok (says v))
      → ¬ (says v ≡ quiet)
      → Ending call quiet says (b ∷ bs) s (t, ok (some v))
  unfolding Ending
  Ending-here v e loud = inl (t, v, refl, loud, here call quiet b bs s t _ e)

  Ending-err :
      (f : DispatchError) → call b s ≡ (t, err f) → Ending call quiet says (b ∷ bs) s (t, err f)
  unfolding Ending
  Ending-err f e = inr (inl (t, f, refl, here call quiet b bs s t _ e))

-- The user lookup ends with the first provider that finds the user or fails, and with nothing when no
-- provider finds the user and none fails.
pub first_match-Ending :
    {S T : Type 0} (call : ProviderBinding → S → Answer S (LookupOutcome T))
    (bs : List ProviderBinding) (s : S)
    → Ending call not_found found bs s (first_match call bs s)
unfolding first_match Ending
first_match-Ending call [] s = inr (inr (s, refl, nobody))
first_match-Ending call (b ∷ bs) s = elim (Answer-cases (call b s)) [
  | inl (t, found v, e) ↦ rw (e) (Ending-here call not_found found b bs s t v e (λ q. cc))
  | inl (t, not_found, e) ↦
      rw (e) (Ending-later call not_found found b bs s t _ e (first_match-Ending call bs t))
  | inr (t, f, e) ↦ rw (e) (Ending-err call not_found found b bs s t f e)
]

-- The policy decision is that of the first provider that permits, denies or fails, and there is none
-- when every provider skips.
pub first_decision-Ending :
    {S : Type 0} (call : ProviderBinding → S → Answer S Decision) (bs : List ProviderBinding)
    (s : S)
    → Ending call skip (λ (d : Decision). d) bs s (first_decision call bs s)
unfolding first_decision Ending
first_decision-Ending call [] s = inr (inr (s, refl, nobody))
first_decision-Ending call (b ∷ bs) s =
    let own = λ (d : Decision). d in
    elim (Answer-cases (call b s)) [
      | inl (t, permit, e) ↦ rw (e) (Ending-here call skip own b bs s t permit e (λ q. cc))
      | inl (t, deny, e) ↦ rw (e) (Ending-here call skip own b bs s t deny e (λ q. cc))
      | inl (t, skip, e) ↦
          rw (e) (Ending-later call skip own b bs s t _ e (first_decision-Ending call bs t))
      | inr (t, f, e) ↦ rw (e) (Ending-err call skip own b bs s t f e)
    ]
