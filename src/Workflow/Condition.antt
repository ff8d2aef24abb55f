-- ===== src/Workflow/Condition.antt =====
-- internal/workflow/workflow.go: `condition`, on the outputs of the steps before.
use enterprise_security_reco.Prelude.{
  String, Bool, true, false, not, Option, none, some, List, [], ◌∷◌, ◌==◌, if◌then◌else◌, lookup,
}
use enterprise_security_reco.Strings.{is_empty, cut, split}
use enterprise_security_reco.Domain.{StepStatus, succeeded}
use enterprise_security_reco.Json.{Json, null, bool, number, text, array, object, Items, Members}
use enterprise_security_reco.Workflow.{State, StepState}
use enterprise_security_reco.Workflow.Checks.{binding_source}

-- The outcome of a condition. `fault` is Go's panic for a slice beyond the end of an array.
pub data Checked : Type 0 where
  holds : Bool → Checked
  fault : Checked

unfoldable pub member_of : Members → String → Option Json
member_of Members.no_members key = none
member_of (Members.member k value members) key =
    let rest = member_of members key in if k == key then some value else rest

-- `value.(map[string]any)[part]`, `none` where either step fails.
unfoldable pub field : Json → String → Option Json
field (object members) part = member_of members part
field other part = none

-- The loop over the parts of the path.
unfoldable pub descend : List String → Json → Option Json
descend [] value = some value
descend (part ∷ parts) value = elim (field value part) [
  | none ↦ none
  | some inner ↦ descend parts inner
]

abbrev pub has_items : Items → Bool
has_items Items.no_items = false
has_items (Items.item value items) = true

-- The last switch of `condition`.
unfoldable pub is_nonempty : Option Json → Bool
is_nonempty none = false
is_nonempty (some (array items)) = has_items items
is_nonempty (some (text s)) = not (is_empty s)
is_nonempty (some null) = false
is_nonempty (some (bool b)) = true
is_nonempty (some (number n)) = true
is_nonempty (some (object _)) = true

unfoldable pub changes_listed : Option Json → Bool
changes_listed (some (array items)) = has_items items
changes_listed other = false

-- `parts[2:]` of the path, once the output has been decoded.
unfoldable pub nonempty_at : List String → Json → Checked
nonempty_at [] value = fault
nonempty_at (p ∷ []) value = fault
nonempty_at (p ∷ q ∷ parts) value = holds (is_nonempty (descend parts value))

unfoldable pub has_succeeded : StepStatus → Bool
has_succeeded succeeded = true
has_succeeded other = false

-- `json.Unmarshal` of an output; `none` is its error.
module _ (unmarshal : String → Option Json) where
  unfoldable pub changed_output : String → Bool
  changed_output output = elim (unmarshal output) [
    | none ↦ false
    | some value ↦ changes_listed (field value "changes")
  ]

  unfoldable pub nonempty_output : String → String → Checked
  nonempty_output reference output = elim (unmarshal output) [
    | none ↦ holds false
    | some value ↦ nonempty_at (split b'.' reference) value
  ]

  unfoldable pub check_kind : String → String → StepState → Checked
  check_kind kind reference s =
      if kind == "success"
      then holds (has_succeeded s.run.status)
      else if kind == "changed"
      then holds (changed_output s.run.output)
      else if kind == "nonempty"
      then nonempty_output reference s.run.output
      else holds false

  unfoldable pub check_state : String → String → Option StepState → Checked
  check_state kind reference none = holds false
  check_state kind reference (some s) = check_kind kind reference s

  unfoldable pub condition : String → State → Checked
  condition expr state =
      let (kind, reference, found) = cut b':' expr in
      if is_empty expr
      then holds true
      else check_state kind reference (lookup (binding_source reference) state.steps)
