-- ===== src/Engine/Route.antt =====
-- The route of a workflow: _find_step_by_id, _next_step and _is_final_step of
-- backend/app/engine/workflow_engine.py.
use jira_simulator.Base.{
  ℕ, Bool, Option, none, some, List, [], ◌∷◌, find, keep_if, max, ltb, ◌==◌, if◌then◌else◌,
}
use jira_simulator.Engine.{WorkflowStep}

-- _find_step_by_id
abbrev pub find_step_by_id : List WorkflowStep → Option ℕ → Option WorkflowStep
find_step_by_id steps none = none
find_step_by_id steps (some id) = find (λ s. s.id == id) steps

-- `min(candidates, key=order)`: the first of the least.
unfoldable pub first_least : WorkflowStep → List WorkflowStep → WorkflowStep
first_least s [] = s
first_least s (t ∷ ts) = first_least (if ltb t.order s.order then t else s) ts

unfoldable pub least_of : List WorkflowStep → Option WorkflowStep
unfolding first_least
least_of [] = none
least_of (s ∷ ss) = some (first_least s ss)

-- _next_step
unfoldable pub next_step : List WorkflowStep → ℕ → Option WorkflowStep
unfolding least_of
next_step steps current_order = least_of (keep_if (λ s. ltb current_order s.order) steps)

abbrev pub max_order : List WorkflowStep → ℕ
max_order [] = 0
max_order (s ∷ ss) = max s.order (max_order ss)

-- _is_final_step, of a workflow with steps
unfoldable pub is_final_step : List WorkflowStep → WorkflowStep → Bool
is_final_step steps step = step.order == max_order steps
