-- ===== src/Flow/Executor/Rounds.antt =====
-- One round of the loop, crates/geonosis-flow/src/executor.rs: what it keeps, where it leads and
-- when it reports success.
use mathlib.Core.List.{append-nil, append_assoc}
use geonosis.Base.{
  ℕ, String, Option, none, some, List, [], ◌∷◌, ◌++◌, Result, ok, err, ◌≡◌, refl, sym, ap, ◌∙◌, inl,
  inr, true, arith, Option-cases, Result-cases,
}
use geonosis.Core.Subject.{Subject, local}
use geonosis.Flow.Dsl.{NodeId, NodeKind, EdgeCondition, otherwise, status, is_success}
use geonosis.Flow.State.{FlowContext, FlowState, FlowHistoryEntry}
use geonosis.Flow.Compile.{CompiledFlow, next_with_guard}
use geonosis.Flow.Executor.{
  Env, StepInput, FlowError, AuthnStepOutcome, Round, continue, return, done, push_history, advance,
  absorb, next_on, next_after, after_failure, authenticated, submitted, rendered, dispatched, visit,
  resolved_user,
}

-- What a step leaves alone; the history only grows.
pub record IsKept (s s' : FlowState) : Type 0 where
  pub id : s'.id ≡ s.id
  pub realm_id : s'.realm_id ≡ s.realm_id
  pub flow_id : s'.flow_id ≡ s.flow_id
  pub flow_version : s'.flow_version ≡ s.flow_version
  pub started_at : s'.started_at ≡ s.started_at
  pub expires_at : s'.expires_at ≡ s.expires_at
  pub csrf_token : s'.csrf_token ≡ s.csrf_token
  pub history : (more : List FlowHistoryEntry) × (s'.history ≡ s.history ++ more)

pub IsKept-refl : (s : FlowState) → IsKept s s
IsKept-refl s = record {
  id = refl;
  realm_id = refl;
  flow_id = refl;
  flow_version = refl;
  started_at = refl;
  expires_at = refl;
  csrf_token = refl;
  history = ([], sym (append-nil s.history));
}

pub IsKept-trans : (s t u : FlowState) → IsKept s t → IsKept t u → IsKept s u
IsKept-trans s t u k l = record {
  id = l.id ∙ k.id;
  realm_id = l.realm_id ∙ k.realm_id;
  flow_id = l.flow_id ∙ k.flow_id;
  flow_version = l.flow_version ∙ k.flow_version;
  started_at = l.started_at ∙ k.started_at;
  expires_at = l.expires_at ∙ k.expires_at;
  csrf_token = l.csrf_token ∙ k.csrf_token;
  history = (
    k.history.0 ++ l.history.0,
    l.history.1
        ∙ ap (λ h. h ++ l.history.0) k.history.1
        ∙ append_assoc s.history k.history.0 l.history.0,
  );
}

pub move-IsKept : (s : FlowState) (t : NodeId) → IsKept s (record s { current_node = t })
move-IsKept s t = record {
  id = refl;
  realm_id = refl;
  flow_id = refl;
  flow_version = refl;
  started_at = refl;
  expires_at = refl;
  csrf_token = refl;
  history = ([], sym (append-nil s.history));
}

push_history-IsKept :
    (s : FlowState) (ctx : FlowContext) (id : NodeId) (now : ℕ) (outcome : String)
    → IsKept s (push_history (record s { context = ctx }) id now outcome)
unfolding push_history
push_history-IsKept s ctx id now outcome = record {
  id = refl;
  realm_id = refl;
  flow_id = refl;
  flow_version = refl;
  started_at = refl;
  expires_at = refl;
  csrf_token = refl;
  history = (record { node = id; at = now; outcome = outcome } ∷ [], refl);
}

module _ (env : Env) (flow : CompiledFlow) (id : NodeId) where
  -- Some selection among the edges out of the node led to `t`.
  abbrev pub Leads : NodeId → Type 0
  Leads t =
      (on : EdgeCondition) × (ctx : FlowContext) × (next_with_guard env.serde flow id on ctx
        ≡ some t)

  -- A round keeps the flow's identity. It goes on along an edge, or returns at the node where it is.
  abbrev pub IsRound : FlowState → Round → Type 0
  IsRound s (continue s') = IsKept s s' × Leads s'.current_node
  IsRound s (return s' r) = IsKept s s' × (s'.current_node ≡ s.current_node)

  advance-IsRound :
      (s s' : FlowState) (o : Option NodeId)
      → IsKept s s'
      → s'.current_node ≡ s.current_node
      → ((t : NodeId) → o ≡ some t → Leads t)
      → IsRound s (advance s' id o)
  unfolding advance
  advance-IsRound s s' none k at l = (k, at)
  advance-IsRound s s' (some t) k at l = (IsKept-trans s s' _ k (move-IsKept s' t), l t refl)

  next_on-Leads :
      (s : FlowState) (on : EdgeCondition) (t : NodeId)
      → next_on env flow s id on ≡ some t
      → Leads t
  unfolding next_on
  next_on-Leads s on t h = (on, s.context, h)

  next_after-Leads :
      (s : FlowState) (on : EdgeCondition) (t : NodeId)
      → next_after env flow s id on ≡ some t
      → Leads t
  unfolding next_after
  next_after-Leads s on t h = elim (Option-cases (next_on env flow s id on)) [
    | inl missed ↦ next_on-Leads s otherwise t (ground arith)
    | inr (u, hit) ↦ next_on-Leads s on t (ground arith)
  ]

  submitted-IsRound : (s : FlowState) → IsRound s (submitted env flow s id)
  unfolding submitted
  submitted-IsRound s =
      advance-IsRound s _ _ (push_history-IsKept s s.context id (env.clock 0) "submit")
        (unfold push_history in refl) (next_after-Leads _ EdgeCondition.success)

  at_push_history :
      (s : FlowState) (ctx : FlowContext) (now : ℕ) (outcome : String)
      → (push_history (record s { context = ctx }) id now outcome).current_node ≡ s.current_node
  unfolding push_history
  at_push_history s ctx now outcome = refl

  authenticated-IsRound :
      (s : FlowState) (o : AuthnStepOutcome) → IsRound s (authenticated env flow s id o)
  unfolding authenticated
  authenticated-IsRound s (AuthnStepOutcome.render r) = (IsKept-refl s, refl)
  authenticated-IsRound s (AuthnStepOutcome.success o) =
      let ctx = absorb s.context o in
      advance-IsRound s _ _ (push_history-IsKept s ctx id (env.clock 0) "success")
        (at_push_history s ctx (env.clock 0) "success") (next_after-Leads _ EdgeCondition.success)
  authenticated-IsRound s AuthnStepOutcome.skip =
      advance-IsRound s _ _ (push_history-IsKept s s.context id (env.clock 0) "skip")
        (at_push_history s s.context (env.clock 0) "skip") (next_on-Leads _ otherwise)
  authenticated-IsRound s (AuthnStepOutcome.failure reason) =
      failing
        (next_on env flow (push_history s id (env.clock 0) "failure") id EdgeCondition.failure)
        (next_on-Leads _ EdgeCondition.failure)
    where
      kept : IsKept s (push_history s id (env.clock 0) "failure")
      kept = push_history-IsKept s s.context id (env.clock 0) "failure"

      failing :
          (o : Option NodeId)
          → ((t : NodeId) → o ≡ some t → Leads t)
          → IsRound s (after_failure env flow (push_history s id (env.clock 0) "failure") reason o)
      failing none l = (kept, at_push_history s s.context (env.clock 0) "failure")
      failing (some t) l = (IsKept-trans s _ _ kept (move-IsKept _ t), l t refl)

  rendered-IsRound :
      (s : FlowState) (template : String) (input : StepInput)
      → IsRound s (rendered env flow s id template input)
  unfolding rendered
  rendered-IsRound s template StepInput.start = (IsKept-refl s, refl)
  rendered-IsRound s template StepInput.resume = (IsKept-refl s, refl)
  rendered-IsRound s template (StepInput.submit form) = submitted-IsRound s
  rendered-IsRound s template (StepInput.idp_callback c) = submitted-IsRound s

  dispatched-IsRound :
      (s : FlowState) (r : Result FlowError AuthnStepOutcome)
      → IsRound s (dispatched env flow s id r)
  unfolding dispatched
  dispatched-IsRound s (ok o) = authenticated-IsRound s o
  dispatched-IsRound s (err e) = (IsKept-refl s, refl)

  pub visit-IsRound :
      (s : FlowState) (input : StepInput) (kind : NodeKind)
      → IsRound s (visit env flow s input id kind)
  unfolding visit
  visit-IsRound s input (NodeKind.start config) =
      advance-IsRound s _ _ (push_history-IsKept s s.context id (env.clock 0) "advance")
        (at_push_history s s.context (env.clock 0) "advance")
        (next_on-Leads (push_history s id (env.clock 0) "advance") otherwise)
  visit-IsRound s input (NodeKind.render template) = rendered-IsRound s template input
  visit-IsRound s input (NodeKind.authenticator urn) =
      dispatched-IsRound s (env.dispatch 0 urn s input)
  visit-IsRound s input (NodeKind.broker idp_alias) = (IsKept-refl s, refl)
  visit-IsRound s input (NodeKind.switch condition) =
      advance-IsRound s s _ (IsKept-refl s) refl (next_after-Leads s (status condition))
  visit-IsRound s input (NodeKind.action name) =
      advance-IsRound s s _ (IsKept-refl s) refl (next_on-Leads s otherwise)
  visit-IsRound s input (NodeKind.sub_flow name) =
      advance-IsRound s s _ (IsKept-refl s) refl (next_on-Leads s otherwise)
  visit-IsRound s input (NodeKind.success config) = (
    push_history-IsKept s s.context id (env.clock 0) "success",
    at_push_history s s.context (env.clock 0) "success",
  )
  visit-IsRound s input (NodeKind.failure reason) = (
    push_history-IsKept s s.context id (env.clock 0) "failure",
    at_push_history s s.context (env.clock 0) "failure",
  )

  -- Only a success node reports a subject: the user of the context, under a new entry of the history.
  abbrev pub IsDone : FlowState → NodeKind → FlowState → Subject → Type 0
  IsDone s kind s' subject =
      (is_success kind ≡ true)
      × (subject ≡ local (resolved_user env flow s.context))
      × (s'.context ≡ s.context)
      × (s'.history ≡ s.history ++ record { node = id; at = env.clock 0; outcome = "success" } ∷ [])

  authenticated-not_done :
      (s s' : FlowState) (o : AuthnStepOutcome) (subject : Subject)
      → ¬ (authenticated env flow s id o ≡ return s' (ok (done subject)))
  unfolding authenticated advance after_failure
  authenticated-not_done s s' (AuthnStepOutcome.render r) subject h = ground arith
  authenticated-not_done s s' (AuthnStepOutcome.success o) subject h = ground arith
  authenticated-not_done s s' AuthnStepOutcome.skip subject h = ground arith
  authenticated-not_done s s' (AuthnStepOutcome.failure reason) subject h = ground arith

  pub visit-IsDone :
      (s s' : FlowState) (input : StepInput) (kind : NodeKind) (subject : Subject)
      → visit env flow s input id kind ≡ return s' (ok (done subject))
      → IsDone s kind s' subject
  unfolding visit advance push_history
  visit-IsDone s s' input (NodeKind.start config) subject h = absurd (ground arith)
  visit-IsDone s s' input (NodeKind.render template) subject h = absurd (rendered-not_done input h)
    where
      rendered-not_done :
          (input : StepInput)
          → ¬ (rendered env flow s id template input ≡ return s' (ok (done subject)))
      rendered-not_done StepInput.start e = ground arith
      rendered-not_done StepInput.resume e = ground arith
      rendered-not_done (StepInput.submit form) e = ground arith
      rendered-not_done (StepInput.idp_callback c) e = ground arith
  visit-IsDone s s' input (NodeKind.authenticator urn) subject h =
      absurd (elim (Result-cases (env.dispatch 0 urn s input)) [
        | inl (o, e) ↦ authenticated-not_done s s' o subject (ground arith)
        | inr (x, e) ↦ ground arith
      ])
  visit-IsDone s s' input (NodeKind.broker idp_alias) subject h = absurd (ground arith)
  visit-IsDone s s' input (NodeKind.switch condition) subject h = absurd (ground arith)
  visit-IsDone s s' input (NodeKind.action name) subject h = absurd (ground arith)
  visit-IsDone s s' input (NodeKind.sub_flow name) subject h = absurd (ground arith)
  visit-IsDone s s' input (NodeKind.success config) subject h = ground arith
  visit-IsDone s s' input (NodeKind.failure reason) subject h = absurd (ground arith)
