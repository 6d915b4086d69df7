-- ===== src/Flow/Guard.antt =====
-- crates/geonosis-flow/src/guard.rs: whether an edge's guard lets a context pass.
use Prim.Native.Char.{code}
use geonosis.Base.{
  String, Bool, true, false, not, ◌&&◌, ◌||◌, Option, none, some, List, [], ◌∷◌, if◌then◌else◌,
  nat_beq, ◌==◌, string_eq, all,
}
use geonosis.Flow.Json.{
  Value, bool, number, string, array, object, end, field, Serde, get, of_ℤ, of_option, of_strings,
  of_entries,
}
use geonosis.Flow.State.{FlowContext}

unfoldable pub context_as_json : FlowContext → Value
context_as_json ctx = object (
    field "context"
      (object (
        field "username" (of_option ctx.username) (
          field "user_id" (of_option ctx.user_id) (
            field "amr" (array (of_strings ctx.amr)) (
              field "authn_level" (of_ℤ ctx.authn_level) (
                field "requested_acr" (of_option ctx.requested_acr) (
                  field "session_id" (of_option ctx.session_id)
                    (field "locals" (object (of_entries ctx.locals)) end))))))))
      end)

-- The first segment grows by `c`.
extend_first : Prim.Native.Char.Char → List String → List String
extend_first c [] = String.◌∷◌ c String.[] ∷ []
extend_first c (s ∷ rest) = String.◌∷◌ c s ∷ rest

-- `path.split('.')`
unfoldable pub split_dots : String → List String
unfolding extend_first
split_dots String.[] = String.[] ∷ []
split_dots (String.◌∷◌ c s) =
    if nat_beq (code c) b'.' then String.[] ∷ split_dots s else extend_first c (split_dots s)

walk : Value → List String → Option Value
walk cursor [] = some cursor
walk cursor (segment ∷ rest) = elim (get cursor segment) [ none ↦ none | some v ↦ walk v rest ]

unfoldable pub resolve_path : Value → String → Option Value
unfolding walk
resolve_path value path = walk value (split_dots path)

-- `a.to_string() == *b`, and the texts of the two booleans.
coerced_equals : Serde → Value → Value → Bool
coerced_equals serde (number a) (string b) = serde.number_text a == b
coerced_equals serde (string b) (number a) = serde.number_text a == b
coerced_equals serde (bool a) (string b) = (a && b == "true") || (not a && b == "false")
coerced_equals serde (string b) (bool a) = (a && b == "true") || (not a && b == "false")
coerced_equals serde _ _ = false

unfoldable pub json_equals : Serde → Value → Value → Bool
unfolding coerced_equals
json_equals serde actual expected =
    if serde.value_eq actual expected then true else coerced_equals serde actual expected

-- One `(path, expected)` of a guard; a path that leads nowhere fails.
unfoldable pub entry_passes : Serde → Value → String × Value → Bool
unfolding json_equals
entry_passes serde ctx_value (path, expected) = elim (resolve_path ctx_value path) [
  | some actual ↦ json_equals serde actual expected
  | none ↦ false
]

unfoldable pub eval_guard : Serde → List (String × Value) → FlowContext → Bool
unfolding entry_passes all
eval_guard serde [] ctx = true
eval_guard serde (g ∷ guard) ctx = all (entry_passes serde (context_as_json ctx)) (g ∷ guard)
