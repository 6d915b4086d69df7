-- ===== src/Flow/Executor.antt =====
-- crates/geonosis-flow/src/executor.rs and authenticator.rs: one step of a flow.
pub mod Choice
pub mod Rounds
pub mod Steps
pub mod Ends
use geonosis.Base.{
  ℕ, zero, suc, String, Option, none, some, List, [], ◌∷◌, ◌++◌, Result, ok, err, if◌then◌else◌,
  ltb, ◌==◌, string_eq, str_append, Map, insert, any,
}
use geonosis.Base.Int.{ℤ, ◌+ℤ◌, wrap_i32}
use geonosis.Core.Subject.{Subject, local}
use geonosis.Flow.Json.{Value, Serde}
use geonosis.Flow.Dsl.{NodeId, NodeKind, EdgeCondition, otherwise, status}
use geonosis.Flow.State.{FlowContext, FlowState}
use geonosis.Flow.Compile.{CompiledFlow, node, next_with_guard, or_else}

-- `DeadEnd` carries the node's id; the source carries its text.
pub data FlowError : Type 0 where
  invalid : String → FlowError
  dead_end : NodeId → FlowError
  expired : FlowError
  internal : String → FlowError

abbrev pub FormBody : Type 0
FormBody = Map String String

pub record RawCallback : Type 0 where
  pub query : Map String String
  pub body : Map String String

pub data StepInput : Type 0 where
  start : StepInput
  submit : FormBody → StepInput
  idp_callback : RawCallback → StepInput
  resume : StepInput

pub record RenderInstruction : Type 0 where
  pub template : String
  pub locals : List (String × Value)

pub data FlowFailure : Type 0 where
  invalid_credential user_disabled user_not_found consent_denied : FlowFailure
  broker_error spi_error other : String → FlowFailure

-- A redirect carries the text of its URL.
pub data StepOutput : Type 0 where
  render : RenderInstruction → StepOutput
  redirect : String → StepOutput
  done : Subject → StepOutput
  failed : FlowFailure → StepOutput

pub record Success : Type 0 where
  pub amr : List String
  pub authn_level_delta : ℤ
  pub user_id : Option String
  pub locals : List (String × Value)

pub data AuthnStepOutcome : Type 0 where
  render : RenderInstruction → AuthnStepOutcome
  success : Success → AuthnStepOutcome
  skip : AuthnStepOutcome
  failure : FlowFailure → AuthnStepOutcome

-- What the step asks of the world. `clock` and `dispatch` are indexed by the rounds of the loop that
-- are still to come; `dispatch` is the injected `AuthnDispatcher`.
pub record Env : Type 0 where
  pub clock : ℕ → ℕ
  pub dispatch : ℕ → String → FlowState → StepInput → Result FlowError AuthnStepOutcome
  pub parse_user_id : String → Option ℕ
  pub new_user_id : ℕ
  pub serde : Serde

abbrev pub later : Env → Env
later env = record env { clock = λ k. env.clock (suc k); dispatch = λ k. env.dispatch (suc k) }

-- What one round of the loop does: `continue`, or a return. `state` is changed in place, so a return
-- carries it, an error included.
pub data Round : Type 0 where
  continue : FlowState → Round
  return : FlowState → Result FlowError StepOutput → Round

unfoldable pub push_history : FlowState → NodeId → ℕ → String → FlowState
push_history s id now outcome = record s {
  history = s.history ++ record { node = id; at = now; outcome = outcome } ∷ [];
}

unfoldable pub advance : FlowState → NodeId → Option NodeId → Round
advance s id none = return s (err (dead_end id))
advance s id (some n) = continue (record s { current_node = n })

-- `if !amr.contains(&a) { amr.push(a) }` for each value.
unfoldable pub merge_amr : List String → List String → List String
merge_amr amr [] = amr
merge_amr amr (a ∷ more) = merge_amr (if any (λ b. b == a) amr then amr else amr ++ a ∷ []) more

unfoldable pub extend_locals : List (String × Value) → List (String × Value) → List (String × Value)
extend_locals locals [] = locals
extend_locals locals ((k, v) ∷ more) = extend_locals (insert k v locals) more

unfoldable pub absorb : FlowContext → Success → FlowContext
absorb ctx o = record ctx {
  amr = merge_amr ctx.amr o.amr;
  authn_level = wrap_i32 (ctx.authn_level +ℤ o.authn_level_delta);
  user_id = or_else o.user_id ctx.user_id;
  locals = extend_locals ctx.locals o.locals;
}

module _ (env : Env) (flow : CompiledFlow) where
  -- `next_with_guard` on the state as it is now.
  unfoldable pub next_on : FlowState → NodeId → EdgeCondition → Option NodeId
  next_on s id on = next_with_guard env.serde flow id on s.context

  -- Success or, failing that, `Otherwise`.
  unfoldable pub next_after : FlowState → NodeId → EdgeCondition → Option NodeId
  next_after s id on = or_else (next_on s id on) (next_on s id otherwise)

  unfoldable pub after_failure : FlowState → FlowFailure → Option NodeId → Round
  after_failure s reason none = return s (ok (failed reason))
  after_failure s reason (some n) = continue (record s { current_node = n })

  -- The arm of an authenticator node, after the dispatch.
  unfoldable pub authenticated : FlowState → NodeId → AuthnStepOutcome → Round
  unfolding push_history advance after_failure
  authenticated s id (AuthnStepOutcome.render r) = return s (ok (StepOutput.render r))
  authenticated s id (AuthnStepOutcome.success o) =
      let s' =
        push_history (record s { context = absorb s.context o }) id (env.clock 0) "success" in
      advance s' id (next_after s' id EdgeCondition.success)
  authenticated s id AuthnStepOutcome.skip =
      let s' = push_history s id (env.clock 0) "skip" in advance s' id (next_on s' id otherwise)
  authenticated s id (AuthnStepOutcome.failure reason) =
      let s' = push_history s id (env.clock 0) "failure" in
      after_failure s' reason (next_on s' id EdgeCondition.failure)

  -- The page was posted back.
  unfoldable pub submitted : FlowState → NodeId → Round
  unfolding push_history advance
  submitted s id =
      let s' = push_history s id (env.clock 0) "submit" in
      advance s' id (next_after s' id EdgeCondition.success)

  unfoldable pub show : FlowState → String → Round
  show s template =
      return s (ok (StepOutput.render (record { template = template; locals = s.context.locals })))

  unfoldable pub rendered : FlowState → NodeId → String → StepInput → Round
  unfolding submitted show
  rendered s id template (StepInput.submit form) = submitted s id
  rendered s id template (StepInput.idp_callback callback) = submitted s id
  rendered s id template StepInput.start = show s template
  rendered s id template StepInput.resume = show s template

  -- `s.parse::<UserId>().ok()`, and a new id where there is none.
  unfoldable pub resolved_user : FlowContext → ℕ
  resolved_user ctx = elim ctx.user_id [
    | none ↦ env.new_user_id
    | some text ↦ elim (env.parse_user_id text) [ none ↦ env.new_user_id | some id ↦ id ]
  ]

  unfoldable pub dispatched : FlowState → NodeId → Result FlowError AuthnStepOutcome → Round
  unfolding authenticated
  dispatched s id (err e) = return s (err e)
  dispatched s id (ok outcome) = authenticated s id outcome

  -- One round of the loop, at a node of the given id and kind.
  unfoldable pub visit : FlowState → StepInput → NodeId → NodeKind → Round
  unfolding push_history advance rendered dispatched next_on next_after show
  visit s input id (NodeKind.start config) =
      let s' = push_history s id (env.clock 0) "advance" in advance s' id (next_on s' id otherwise)
  visit s input id (NodeKind.render template) = rendered s id template input
  visit s input id (NodeKind.authenticator urn) = dispatched s id (env.dispatch 0 urn s input)
  visit s input id (NodeKind.broker idp_alias) = show s (str_append "broker::" idp_alias)
  visit s input id (NodeKind.switch condition) = advance s id (next_after s id (status condition))
  visit s input id (NodeKind.action name) = advance s id (next_on s id otherwise)
  visit s input id (NodeKind.sub_flow name) = advance s id (next_on s id otherwise)
  visit s input id (NodeKind.success config) =
      return (push_history s id (env.clock 0) "success")
        (ok (done (local (resolved_user s.context))))
  visit s input id (NodeKind.failure reason) =
      return (push_history s id (env.clock 0) "failure") (ok (failed (other reason)))

-- A call of `step`: still running when the fuel is gone, an index out of bounds, or a return.
pub data Run : Type 0 where
  unfinished : Run
  panicked : Run
  finished : FlowState → Result FlowError StepOutput → Run

-- The loop, with fuel.
unfoldable pub run : ℕ → Env → CompiledFlow → FlowState → StepInput → Run
run zero env flow s input = unfinished
run (suc fuel) env flow s input = elim (node flow s.current_node) [
  | none ↦ panicked
  | some n ↦ elim (visit env flow s input n.id n.kind) [
    | return s' r ↦ finished s' r
    | continue s' ↦ run fuel (later env) flow s' input
  ]
]

-- `DefaultExecutor::step`
unfoldable pub step : ℕ → Env → CompiledFlow → FlowState → StepInput → Run
step fuel env flow s input =
    if ltb s.expires_at (env.clock 0)
    then finished s (err expired)
    else run fuel (later (later env)) flow (record s { last_activity_at = env.clock 1 }) input
