-- ===== src/Flow/DryRun/Turns.antt =====
-- One turn of the dry run, crates/geonosis-flow/src/dry_run.rs, against one round of the executor.
use geonosis.Base.{
  ℕ, String, Option, none, some, List, [], ◌∷◌, Result, ok, nat_eq, ◌≡◌, refl, sym, ap, ◌∙◌, Bool,
  false, arith, ◌&&◌, ◌==◌, find, subst,
}
use geonosis.Base.Int.{pos, ◌+ℤ◌, wrap_i32}
use geonosis.Flow.Json.{Serde}
use geonosis.Flow.Dsl.{
  NodeId, NodeKind, Edge, EdgeCondition, otherwise, status, condition_eq, is_terminal,
}
use geonosis.Flow.State.{FlowContext, FlowState}
use geonosis.Flow.Guard.{eval_guard}
use geonosis.Flow.Compile.{
  CompiledFlow, next_with_guard, or_else, choose, target, edges_from, is_otherwise,
}
use geonosis.Flow.Compile.Edges.{next_with_guard-edges_from}
use geonosis.Flow.Executor.{
  Env, FormBody, StepInput, FlowFailure, invalid_credential, FlowError, AuthnStepOutcome, Success,
  Round, continue, push_history, advance, merge_amr, extend_locals, absorb, next_on, next_after,
  after_failure, authenticated, submitted, rendered, dispatched, visit,
}
use geonosis.Flow.DryRun.{
  ExpectedOutcome, Texts, preferred, next_node, as_edge_condition, expected_condition,
}

-- An authenticator that succeeds and contributes nothing.
abbrev pub neutral : Success
neutral = record { amr = []; authn_level_delta = pos 0; user_id = none; locals = [] }

-- What the dispatcher answers where the dry run expects the given outcome.
abbrev pub answer : Option ExpectedOutcome → AuthnStepOutcome
answer none = AuthnStepOutcome.success neutral
answer (some ExpectedOutcome.success) = AuthnStepOutcome.success neutral
answer (some ExpectedOutcome.failure) = AuthnStepOutcome.failure invalid_credential
answer (some ExpectedOutcome.skip) = AuthnStepOutcome.skip

abbrev pub IsBroker : NodeKind → Type 0
IsBroker (NodeKind.broker i) = Unit
IsBroker _ = ⊥

otherwise-eq : (c : EdgeCondition) → (c == otherwise) ≡ is_otherwise c
otherwise-eq otherwise = refl
otherwise-eq EdgeCondition.success = refl
otherwise-eq EdgeCondition.failure = refl
otherwise-eq (status x) = refl

find_same :
    (p q : Edge → Bool) → ((e : Edge) → p e ≡ q e) → (es : List Edge) → find p es ≡ find q es
unfolding find
find_same p q h [] = refl
find_same p q h (e ∷ es) = ground (arith, h e, find_same p q h es)

-- Where a condition leads nowhere, `Otherwise` leads nowhere.
choose_fallback :
    (serde : Serde) (ctx : FlowContext) (on : EdgeCondition) (edges : List Edge)
    → choose serde ctx on edges ≡ none
    → choose serde ctx otherwise edges ≡ none
unfolding choose
choose_fallback serde ctx on edges h =
    let same =
      find_same (λ (e : Edge). e.on == otherwise && eval_guard serde e.guard ctx)
        (λ (e : Edge). is_otherwise e.on && eval_guard serde e.guard ctx)
        (λ e. ap (λ b. b && eval_guard serde e.guard ctx) (otherwise-eq e.on)) edges in
    fall_through (find (λ (e : Edge). e.on == on && eval_guard serde e.guard ctx) edges)
      (find (λ (e : Edge). is_otherwise e.on && eval_guard serde e.guard ctx) edges)
      (find (λ (e : Edge). e.on == otherwise && eval_guard serde e.guard ctx) edges) h same
  where
    fall_through : (a b c : Option Edge) → or_else a b ≡ none → c ≡ b → or_else c b ≡ none
    fall_through none b c h e = rw (e, h)
    fall_through (some x) b c h e = cc

module _ (texts : Texts) (env : Env) (flow : CompiledFlow) (s : FlowState) (form : FormBody) where
  -- A round that goes to `t` and leaves the context alone.
  abbrev pub Follows : NodeId → Round → Type 0
  Follows t r =
      (s' : FlowState) × (r ≡ continue s') × (s'.current_node ≡ t) × (s'.context ≡ s.context)

  follows :
      (t id : NodeId) (s' : FlowState) (o : Option NodeId)
      → s'.context ≡ s.context
      → o ≡ some t
      → Follows t (advance s' id o)
  unfolding advance
  follows t id s' o c h = (record s' { current_node = t }, rw h, refl, c)

  next_with_guard-fallback :
      (id : NodeId) (on : EdgeCondition)
      → next_with_guard env.serde flow id on s.context ≡ none
      → next_with_guard env.serde flow id otherwise s.context ≡ none
  next_with_guard-fallback id on h =
      next_with_guard-edges_from env.serde flow id otherwise s.context
      ∙ ap target (
          choose_fallback env.serde s.context on (edges_from flow.outbound id)
            (untargeted _ (sym (next_with_guard-edges_from env.serde flow id on s.context) ∙ h)))
    where
      untargeted : (o : Option Edge) → target o ≡ none → o ≡ none
      untargeted none e = refl
      untargeted (some x) e = cc

  otherwise_only :
      (id t : NodeId)
      → next_node env.serde texts flow s.context id otherwise ≡ some t
      → next_with_guard env.serde flow id otherwise s.context ≡ some t
  unfolding next_node
  otherwise_only id t h = ground arith

  failure_first :
      (id t : NodeId)
      → next_node env.serde texts flow s.context id EdgeCondition.failure ≡ some t
      → next_with_guard env.serde flow id EdgeCondition.failure s.context ≡ some t
  unfolding next_node
  failure_first id t h = ground (arith, next_with_guard-fallback id EdgeCondition.failure)

  next_after-same :
      (id : NodeId) (on : EdgeCondition) (s' : FlowState)
      → s'.context ≡ s.context
      → next_after env flow s' id on ≡ next_node env.serde texts flow s.context id on
  unfolding next_after next_on next_node
  next_after-same id on s' c =
      ap
        (λ (ctx : FlowContext).
          or_else (next_with_guard env.serde flow id on ctx)
            (next_with_guard env.serde flow id otherwise ctx))
        c

  next_on-same :
      (id : NodeId) (on : EdgeCondition) (s' : FlowState)
      → s'.context ≡ s.context
      → next_on env flow s' id on ≡ next_with_guard env.serde flow id on s.context
  unfolding next_on
  next_on-same id on s' c = ap (next_with_guard env.serde flow id on) c

  logged :
      (ctx : FlowContext) (id : NodeId) (now : ℕ) (outcome : String)
      → (push_history (record s { context = ctx }) id now outcome).context ≡ ctx
  unfolding push_history
  logged ctx id now outcome = refl

  failing :
      (t id : NodeId) (s' : FlowState) (reason : FlowFailure) (o : Option NodeId)
      → s'.context ≡ s.context
      → o ≡ some t
      → Follows t (after_failure env flow s' reason o)
  unfolding after_failure
  failing t id s' reason o c h = (record s' { current_node = t }, rw h, refl, c)

  -- A page that is posted back goes where the dry run's synthetic submit goes.
  submitted-Follows :
      (id t : NodeId)
      → next_node env.serde texts flow s.context id EdgeCondition.success ≡ some t
      → Follows t (submitted env flow s id)
  unfolding submitted
  submitted-Follows id t h =
      let c = logged s.context id (env.clock 0) "submit" in
      follows t id (push_history s id (env.clock 0) "submit") _ c
        (next_after-same id EdgeCondition.success (push_history s id (env.clock 0) "submit") c ∙ h)

  module _ (level : wrap_i32 (s.context.authn_level +ℤ pos 0) ≡ s.context.authn_level) where
    absorb-neutral : absorb s.context neutral ≡ s.context
    unfolding absorb merge_amr extend_locals
    absorb-neutral = ground (arith, level)

    succeeded :
        (id t : NodeId)
        → next_node env.serde texts flow s.context id EdgeCondition.success ≡ some t
        → Follows t (authenticated env flow s id (AuthnStepOutcome.success neutral))
    unfolding authenticated
    succeeded id t h =
        let s' =
          push_history (record s { context = absorb s.context neutral }) id (env.clock 0)
            "success" in
        let c = logged (absorb s.context neutral) id (env.clock 0) "success" ∙ absorb-neutral in
        follows t id s' _ c (next_after-same id EdgeCondition.success s' c ∙ h)

    -- The executor's round after the expected answer goes where the dry run goes.
    answered :
        (id t : NodeId) (o : Option ExpectedOutcome)
        → next_node env.serde texts flow s.context id (expected_condition o) ≡ some t
        → Follows t (authenticated env flow s id (answer o))
    unfolding expected_condition as_edge_condition authenticated
    answered id t none h = succeeded id t h
    answered id t (some ExpectedOutcome.success) h = succeeded id t h
    answered id t (some ExpectedOutcome.failure) h =
        let s' = push_history s id (env.clock 0) "failure" in
        let c = logged s.context id (env.clock 0) "failure" in
        failing t id s' invalid_credential _ c
          (next_on-same id EdgeCondition.failure s' c ∙ failure_first id t h)
    answered id t (some ExpectedOutcome.skip) h =
        let s' = push_history s id (env.clock 0) "skip" in
        let c = logged s.context id (env.clock 0) "skip" in
        follows t id s' _ c (next_on-same id otherwise s' c ∙ otherwise_only id t h)

    -- A round at any node that is no broker and no terminal, with a posted form.
    pub visit-Follows :
        (id t : NodeId) (kind : NodeKind) (o : Option ExpectedOutcome)
        → ¬ IsBroker kind
        → is_terminal kind ≡ false
        → ((urn : String) → env.dispatch 0 urn s (StepInput.submit form) ≡ ok (answer o))
        → next_node env.serde texts flow s.context id (preferred kind o) ≡ some t
        → Follows t (visit env flow s (StepInput.submit form) id kind)
    unfolding visit rendered dispatched preferred
    visit-Follows id t (NodeKind.start config) o b x d h =
        let s' = push_history s id (env.clock 0) "advance" in
        let c = logged s.context id (env.clock 0) "advance" in
        follows t id s' _ c (next_on-same id otherwise s' c ∙ otherwise_only id t h)
    visit-Follows id t (NodeKind.render template) o b x d h = submitted-Follows id t h
    visit-Follows id t (NodeKind.authenticator urn) o b x d h =
        subst (λ (r : Result FlowError AuthnStepOutcome). Follows t (dispatched env flow s id r))
          (sym (d urn)) (answered id t o h)
    visit-Follows id t (NodeKind.broker idp_alias) o b x d h = absurd (b tt)
    visit-Follows id t (NodeKind.switch condition) o b x d h =
        follows t id s _ refl (next_after-same id (status condition) s refl ∙ h)
    visit-Follows id t (NodeKind.action name) o b x d h =
        follows t id s _ refl (next_on-same id otherwise s refl ∙ otherwise_only id t h)
    visit-Follows id t (NodeKind.sub_flow name) o b x d h =
        follows t id s _ refl (next_on-same id otherwise s refl ∙ otherwise_only id t h)
    visit-Follows id t (NodeKind.success config) o b x d h = cc
    visit-Follows id t (NodeKind.failure reason) o b x d h = cc
