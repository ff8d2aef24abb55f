-- ===== src/Workflow/Graph.antt =====
-- internal/workflow/workflow.go: the graph of a workflow's steps. The searches recurse on fuel,
-- since their recursion follows the dependencies; that the fuel suffices is proved in the modules
-- on acyclicity and order.
use enterprise_security_reco.Prelude.{
  ℕ, zero, suc, String, Bool, true, false, none, some, List, [], ◌∷◌, ◌++◌, ◌==◌, if◌then◌else◌,
  contains, lookup, length, pos,
}
use enterprise_security_reco.Sorting.{sort_strings}
use enterprise_security_reco.Workflow.{Step, Definition}

unfoldable pub ids_of : List (String × Step) → List String
ids_of [] = []
ids_of ((id, s) ∷ m) = id ∷ ids_of m

-- `byID`: one entry for an id, the last step's that has it.
unfoldable pub by_id : List Step → List (String × Step)
unfolding ids_of
by_id [] = []
by_id (s ∷ steps) =
    let later = by_id steps in if contains (ids_of later) s.id then later else (s.id, s) ∷ later

-- What a map gives for a key that it does not have.
abbrev pub zero_step : Step
zero_step = record {
  id = "";
  capability = "";
  provider = "";
  depends_on = [];
  condition = "";
  input = "";
  bindings = [];
  retry = record { max_attempts = pos 0; base_delay = pos 0 };
  timeout = pos 0;
  approval_required = false;
  rerun_on_input_change = false;
}

unfoldable pub step_of : List (String × Step) → String → Step
step_of m id = elim (lookup id m) [ none ↦ zero_step | some s ↦ s ]

-- The outcome of a visit: the steps visited, the latest first, or the step that closes a cycle.
pub data Visit : Type 0 where
  visited : List String → Visit
  cyclic : String → Visit
  out_of_fuel : Visit

-- Visits in a row; the first failure ends them.
unfoldable pub visit_all : (String → List String → Visit) → List String → List String → Visit
visit_all visit [] done = visited done
visit_all visit (dep ∷ deps) done = elim (visit dep done) [
  | visited done' ↦ visit_all visit deps done'
  | failure ↦ failure
]

unfoldable pub close_visit : String → Visit → Visit
close_visit id (visited done) = visited (id ∷ done)
close_visit id (cyclic c) = cyclic c
close_visit id out_of_fuel = out_of_fuel

-- `visit`: `visiting` has the steps whose visit is open, `done` those that are visited.
unfoldable pub visit : ℕ → List (String × Step) → List String → String → List String → Visit
visit zero m visiting id done = out_of_fuel
visit (suc n) m visiting id done =
    let below = visit n m (id ∷ visiting) in
    if contains visiting id
    then cyclic id
    else if contains done id
    then visited done
    else close_visit id (visit_all below (step_of m id).depends_on done)

-- `contains` of `transitivelyDependsOn`, with the set `seen` passed on; over a list of
-- dependencies, the first that succeeds ends the loop.
unfoldable pub search_all :
    (String → List String → Bool × List String)
    → String
    → List String
    → List String
    → Bool × List String
search_all below source [] seen = (false, seen)
search_all below source (dep ∷ deps) seen =
    let (found, seen') = below dep seen in
    let rest = search_all below source deps seen' in
    if dep == source then (true, seen) else if found then (true, seen') else rest

unfoldable pub search_from :
    ℕ → List (String × Step) → String → String → List String → Bool × List String
search_from zero m source id seen = (false, seen)
search_from (suc n) m source id seen =
    let below = search_from n m source in
    if contains seen id
    then (false, seen)
    else search_all below source (step_of m id).depends_on (id ∷ seen)

-- `transitivelyDependsOn`; no path without a repetition is longer than the number of steps.
unfoldable pub transitively_depends_on : List (String × Step) → String → String → Bool
transitively_depends_on m step_id source_id =
    (search_from (suc (length m)) m source_id step_id []).0

-- `add` of `topological`: the ids seen, the latest first, and the steps put out, in order.
abbrev pub add_all :
    (String → List String × List Step → List String × List Step)
    → List String
    → List String × List Step
    → List String × List Step
add_all add [] st = st
add_all add (dep ∷ deps) st = add_all add deps (add dep st)

unfoldable pub put_out : Step → String → List String × List Step → List String × List Step
put_out s id (seen, out) = (id ∷ seen, out ++ s ∷ [])

unfoldable pub add :
    ℕ → List (String × Step) → String → List String × List Step → List String × List Step
add zero m id st = st
add (suc n) m id st =
    let below = add n m in
    if contains st.0 id
    then st
    else put_out (step_of m id) id (add_all below (sort_strings (step_of m id).depends_on) st)

unfoldable pub topological : Definition → List Step
topological d =
    let m = by_id d.steps in (add_all (add (suc (length m)) m) (sort_strings (ids_of m)) ([], [])).1
