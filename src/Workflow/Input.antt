-- ===== src/Workflow/Input.antt =====
-- internal/workflow/workflow.go: `resolveInput`, which puts the outputs of earlier steps into the
-- input of a step.
use enterprise_security_reco.Prelude.{
  String, Bool, true, false, ◌&&◌, Option, none, some, List, [], ◌∷◌, ◌==◌, if◌then◌else◌, lookup,
  drop,
}
use enterprise_security_reco.Strings.{is_empty, split}
use enterprise_security_reco.Errors.{Error, raised}
use enterprise_security_reco.Domain.{StepStatus, skipped}
use enterprise_security_reco.Json.{Json, null, text, array, object, Items, Members}
use enterprise_security_reco.Workflow.{Step, State, StepState}
use enterprise_security_reco.Workflow.Checks.{binding_source}
use enterprise_security_reco.Workflow.Condition.{member_of, field}

-- A value, an error, or a panic.
pub data Outcome (A : Type 0) : Type 0 where
  value : A → Outcome A
  failed : Error → Outcome A
  panics : Outcome A

infixl 5 ◌>>=◌
abbrev pub ◌>>=◌ : {A B : Type 0} → Outcome A → (A → Outcome B) → Outcome B
value a >>= f = f a
failed e >>= f = failed e
panics >>= f = panics

-- The text before a final `[]`, if it ends so.
unfoldable pub before_brackets : String → Option String
before_brackets String.[] = none
before_brackets (String.◌∷◌ c s) =
    let rest = before_brackets s in
    if String.◌∷◌ c s == "[]"
    then some ""
    else elim rest [ none ↦ none | some t ↦ some (String.◌∷◌ c t) ]

unfoldable pub set_member : String → Json → Members → Members
set_member key new Members.no_members = Members.member key new Members.no_members
set_member key new (Members.member k old members) =
    let rest = set_member key new members in
    if k == key then Members.member key new members else Members.member k old rest

unfoldable pub is_skipped : StepStatus → Bool
is_skipped skipped = true
is_skipped other = false

-- `json.Unmarshal` into `any`, and `json.Marshal`; a decoded object is that of a map.
module _ (unmarshal : String → Option Json) (marshal : Json → String) where
  -- The field of one item of an array; a text is looked into if it is itself an object.
  unfoldable pub item_field : Json → String → Option Json
  item_field (text raw) part = elim (unmarshal raw) [ none ↦ none | some v ↦ field v part ]
  item_field (object members) part = member_of members part
  item_field other part = none

  unfoldable pub extract : Items → String → Items
  extract Items.no_items part = Items.no_items
  extract (Items.item v items) part =
      let rest = extract items part in
      elim (item_field v part) [ none ↦ rest | some w ↦ Items.item w rest ]

  -- The part of a path with brackets: an array under the key.
  unfoldable pub enter_array : String → Json → Outcome Json
  enter_array key (object members) = elim (member_of members key) [
    | some (array items) ↦ value (array items)
    | _ ↦ failed (raised "binding is not an array")
  ]
  enter_array key other = failed (raised "binding is not an object")

  unfoldable pub enter_field : String → Json → Outcome Json
  enter_field part (array items) = value (array (extract items part))
  enter_field part (object members) = elim (member_of members part) [
    | none ↦ failed (raised "binding not found")
    | some v ↦ value v
  ]
  enter_field part other = failed (raised "binding is not an object")

  unfoldable pub enter : String → Json → Outcome Json
  enter part v = elim (before_brackets part) [
    | some key ↦ enter_array key v
    | none ↦ enter_field part v
  ]

  unfoldable pub follow : List String → Json → Outcome Json
  follow [] v = value v
  follow (part ∷ parts) v = enter part v >>= follow parts

  -- The value of a binding, `none` where a skipped source has left nothing to bind.
  unfoldable pub bound_value : String → Option StepState → Outcome (Option Json)
  bound_value binding none = failed (raised "binding source has no state")
  bound_value binding (some source) =
      if is_empty source.run.output && is_skipped source.run.status
      then value none
      else elim (unmarshal source.run.output) [
        | none ↦ failed (raised "binding source output")
        | some v ↦ follow (drop 2 (split b'.' binding)) v >>= (λ r. value (some r))
      ]

  -- An assignment to the map `target`; `none` is the nil map, that `null` is decoded to.
  unfoldable pub assign : String → Option Json → Option Members → Outcome (Option Members)
  assign key none target = value target
  assign key (some v) none = panics
  assign key (some v) (some members) = value (some (set_member key v members))

  unfoldable pub bind_all :
      State → List (String × String) → Option Members → Outcome (Option Members)
  bind_all state [] target = value target
  bind_all state ((key, binding) ∷ bindings) target = do
    v ← bound_value binding (lookup (binding_source binding) state.steps)
    target' ← assign key v target
    bind_all state bindings target'

  unfoldable pub decode_target : String → Outcome (Option Members)
  decode_target input = elim (unmarshal input) [
    | some (object members) ↦ value (some members)
    | some null ↦ value none
    | _ ↦ failed (raised "input is not an object")
  ]

  abbrev encode_target : Option Members → String
  encode_target none = marshal null
  encode_target (some members) = marshal (object members)

  unfoldable pub resolve_input : Step → State → Outcome String
  resolve_input s state = do
    target ← decode_target s.input
    bound ← bind_all state s.bindings target
    value (encode_target bound)
