-- ===== src/Workflow/Checks.antt =====
-- internal/workflow/workflow.go: `Validate`. A map's entries are visited in the order of its list;
-- another order reports another error, of an invalid definition.
use enterprise_security_reco.Prelude.{
  suc, String, Bool, ◌&&◌, ◌||◌, not, Option, none, some, List, [], ◌∷◌, ◌==◌, if◌then◌else◌,
  contains, length, ltb, get_or,
}
use enterprise_security_reco.Strings.{is_empty, has_prefix, split, cut}
use enterprise_security_reco.Errors.{Error}
use enterprise_security_reco.Capability.{Registry, get, validate_definition_input}
use enterprise_security_reco.Workflow.{Step, Definition}
use enterprise_security_reco.Workflow.Graph.{
  by_id, ids_of, Visit, visited, cyclic, out_of_fuel, visit_all, visit, transitively_depends_on,
}

-- The errors of `Validate`, with what their texts name. `no_fuel` is none of them, and is never
-- returned.
pub data Invalid : Type 0 where
  missing_name missing_id no_fuel : Invalid
  duplicate_step invalid_input cyclic_dependency : String → Invalid
  unknown_capability unsupported_condition unknown_dependency : String → String → Invalid
  unsupported_binding unknown_binding_source unknown_condition_source : String → String → Invalid
  binding_not_dependency condition_not_dependency : String → String → Invalid
  input_schema : String → Error → Invalid

infixr 20 ◌<|>◌
abbrev pub ◌<|>◌ : Option Invalid → Option Invalid → Option Invalid
some e <|> later = some e
none <|> later = later

-- The first error that a loop returns.
unfoldable pub first_error {ℓ} : {A : Type ℓ} → (A → Option Invalid) → List A → Option Invalid
first_error check [] = none
first_error check (x ∷ xs) = check x <|> first_error check xs

unfoldable pub when : Bool → Invalid → Option Invalid
when fails e = if fails then some e else none

abbrev pub supported_condition : String → Bool
supported_condition c =
    is_empty c || has_prefix c "success:" || has_prefix c "changed:" || has_prefix c "nonempty:"

-- The step that a binding or a condition names.
unfoldable pub binding_source : String → String
binding_source binding = get_or (split b'.' binding) 0 ""

unfoldable pub condition_source : String → String
unfolding binding_source
condition_source c = binding_source (cut b':' c).1

abbrev pub supported_binding : String → Bool
supported_binding binding =
    let parts = split b'.' binding in
    not (ltb (length parts) 3 || not (get_or parts 1 "" == "output"))

-- `valid_json` is `json.Valid`.
module _ {W : Type 0} (valid_json : String → Bool) (r : Registry W) where
  unfoldable pub schema_error : Step → Option Invalid
  schema_error s = elim (validate_definition_input r s.capability s.input) [
    | none ↦ none
    | some e ↦ some (input_schema s.id e)
  ]

  unfoldable pub capability_error : Step → Option Invalid
  capability_error s = elim (get r s.capability) [
    | none ↦ some (unknown_capability s.id s.capability)
    | some c ↦ none
  ]

  -- The checks of one step by itself.
  unfoldable pub step_error : Step → Option Invalid
  step_error s =
      capability_error s
      <|> when (is_empty s.input || not (valid_json s.input)) (invalid_input s.id)
      <|> schema_error s
      <|> when (not (supported_condition s.condition)) (unsupported_condition s.id s.condition)

  -- The first loop; `seen` has the ids that `byID` has.
  unfoldable pub check_steps : List String → List Step → Option Invalid
  check_steps seen [] = none
  check_steps seen (s ∷ steps) =
      when (is_empty s.id) missing_id
      <|> when (contains seen s.id) (duplicate_step s.id)
      <|> step_error s
      <|> check_steps (s.id ∷ seen) steps

-- The second loop.
unfoldable pub check_dependency : List String → Step → String → Option Invalid
check_dependency ids s dep = when (not (contains ids dep)) (unknown_dependency s.id dep)

unfoldable pub check_binding : List String → Step → String × String → Option Invalid
check_binding ids s (field, binding) =
    when (not (supported_binding binding)) (unsupported_binding s.id binding)
    <|> when (not (contains ids (binding_source binding)))
        (unknown_binding_source s.id (binding_source binding))

unfoldable pub check_references : List String → Step → Option Invalid
unfolding first_error
check_references ids s =
    first_error (check_dependency ids s) s.depends_on
    <|> first_error (check_binding ids s) s.bindings
    <|> when (not (is_empty s.condition) && not (contains ids (condition_source s.condition)))
        (unknown_condition_source s.id (condition_source s.condition))

unfoldable pub visit_error : Visit → Option Invalid
visit_error (visited done) = none
visit_error (cyclic id) = some (cyclic_dependency id)
visit_error out_of_fuel = some no_fuel

-- The visits; the open ones are distinct steps, so that one level more than there are steps
-- is enough.
unfoldable pub check_cycles : List (String × Step) → Option Invalid
check_cycles m = visit_error (visit_all (visit (suc (length (ids_of m))) m []) (ids_of m) [])

-- The last loop.
unfoldable pub check_source : List (String × Step) → Step → String × String → Option Invalid
check_source m s (field, binding) =
    when (not (transitively_depends_on m s.id (binding_source binding)))
      (binding_not_dependency s.id (binding_source binding))

unfoldable pub check_sources : List (String × Step) → Step → Option Invalid
unfolding first_error
check_sources m s =
    first_error (check_source m s) s.bindings
    <|> when
        (not (is_empty s.condition)
          && not (transitively_depends_on m s.id (condition_source s.condition)))
        (condition_not_dependency s.id (condition_source s.condition))

module _ {W : Type 0} (valid_json : String → Bool) (r : Registry W) where
  -- `none` is the nil error.
  unfoldable pub validate : Definition → Option Invalid
  validate d =
      when (is_empty d.name || is_empty d.version) missing_name
      <|> check_steps valid_json r [] d.steps
      <|> first_error (check_references (ids_of (by_id d.steps))) d.steps
      <|> check_cycles (by_id d.steps)
      <|> first_error (check_sources (by_id d.steps)) d.steps
