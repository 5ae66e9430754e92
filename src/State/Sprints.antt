-- ===== src/State/Sprints.antt =====
-- Sprints, their scope and the status visits of the state, each with the checks of its `validate`.
use jira_simulator.Base.{
  ℕ, ◌+◌, String, Bool, true, false, not, ◌&&◌, ◌||◌, Option, none, some, is_some, List, [], ◌∷◌,
  ◌++◌, ltb, leb, ◌==◌,
}
use jira_simulator.State.Checks.{
  Check, value_error, require_safe_integer, require_microseconds, require_text,
  require_optional_text,
}
use jira_simulator.State.Names.{Runtime, sprint_rng_id, visit_rng_id}
use jira_simulator.State.Work.{require_semantic_id}

pub data SprintLifecycle : Type 0 where
  planned active completed : SprintLifecycle

pub data StatusVisitLifecycle : Type 0 where
  open_ closed : StatusVisitLifecycle

pub record SprintState : Type 0 where
  pub id : ℕ
  pub team_id : ℕ
  pub run_id : ℕ
  pub ordinal : ℕ
  pub lifecycle : SprintLifecycle
  pub planned_start_at : ℕ
  pub planned_end_at : ℕ
  pub observed_start_at : Option ℕ
  pub observed_end_at : Option ℕ
  pub created_at : ℕ
  pub updated_at : ℕ

pub record SprintScopeEntry : Type 0 where
  pub id : ℕ
  pub team_id : ℕ
  pub run_id : ℕ
  pub sprint_id : ℕ
  pub work_item_id : ℕ
  pub added_at : ℕ
  pub removed_at : Option ℕ

pub record StatusVisitState : Type 0 where
  pub id : ℕ
  pub team_id : ℕ
  pub run_id : ℕ
  pub work_item_id : ℕ
  pub ordinal : ℕ
  pub lifecycle : StatusVisitLifecycle
  pub status_key : String
  pub activity_key : Option String
  pub member_id : Option ℕ
  pub entered_at : ℕ
  pub closed_at : Option ℕ
  pub required_work_microseconds : ℕ
  pub elapsed_work_microseconds : ℕ
  pub remaining_work_microseconds : ℕ
  pub queue_microseconds : ℕ
  pub pause_microseconds : ℕ
  pub credited_labor_microseconds : ℕ

abbrev pub is_sprint_planned : SprintLifecycle → Bool
is_sprint_planned planned = true
is_sprint_planned active = false
is_sprint_planned completed = false

abbrev pub is_sprint_active : SprintLifecycle → Bool
is_sprint_active planned = false
is_sprint_active active = true
is_sprint_active completed = false

abbrev pub is_open : StatusVisitLifecycle → Bool
is_open open_ = true
is_open closed = false

-- `not (later is not None and later < first)`
abbrev pub not_before : Option ℕ → ℕ → Bool
not_before none first = true
not_before (some later) first = leb first later

-- `start is not None and end is not None and end < start`, negated
abbrev pub in_order : Option ℕ → Option ℕ → Bool
in_order none end_ = true
in_order (some start) end_ = not_before end_ start

-- Which of the observed start and end a sprint has.
abbrev pub expected_presence : SprintLifecycle → Bool × Bool
expected_presence planned = (false, false)
expected_presence active = (true, false)
expected_presence completed = (true, true)

abbrev bool_eq : Bool → Bool → Bool
bool_eq true b = b
bool_eq false b = not b

-- `_validate_observed_times`
abbrev pub observed_checks : SprintState → List Check
observed_checks s =
    (
      bool_eq (is_some s.observed_start_at) (expected_presence s.lifecycle).0
          && bool_eq (is_some s.observed_end_at) (expected_presence s.lifecycle).1,
      value_error "observed_start_at/observed_end_at do not match sprint lifecycle",
    )
    ∷ (
      in_order s.observed_start_at s.observed_end_at,
      value_error "observed_end_at must not precede observed_start_at",
    )
    ∷ []

-- `_validate_zero_touch`
abbrev pub zero_touch_checks : StatusVisitState → List Check
zero_touch_checks v = elim v.activity_key [
  | some activity ↦ []
  | none ↦
      (not (is_some v.member_id), value_error "zero-touch visit must not have a member owner")
      ∷ (
        v.required_work_microseconds == 0
            && (v.elapsed_work_microseconds == 0
                && (v.remaining_work_microseconds == 0 && v.credited_labor_microseconds == 0)),
        value_error "zero-touch visit must have zero touch and labor clocks",
      )
      ∷ []
]

-- `_validate_times`
abbrev pub time_checks : StatusVisitState → List Check
time_checks v =
    (
      not (is_open v.lifecycle && is_some v.closed_at),
      value_error "open visit must not have closed_at",
    )
    ∷ (is_open v.lifecycle || is_some v.closed_at, value_error "closed visit must have closed_at")
    ∷ (not_before v.closed_at v.entered_at, value_error "closed_at must not precede entered_at")
    ∷ []

-- `_validate_microseconds`
abbrev pub microsecond_checks : StatusVisitState → List Check
microsecond_checks v =
    require_microseconds v.required_work_microseconds "required_work_microseconds"
    ∷ require_microseconds v.elapsed_work_microseconds "elapsed_work_microseconds"
    ∷ require_microseconds v.remaining_work_microseconds "remaining_work_microseconds"
    ∷ require_microseconds v.queue_microseconds "queue_microseconds"
    ∷ require_microseconds v.pause_microseconds "pause_microseconds"
    ∷ require_microseconds v.credited_labor_microseconds "credited_labor_microseconds"
    ∷ (
      v.required_work_microseconds == v.elapsed_work_microseconds + v.remaining_work_microseconds,
      value_error "required work must equal elapsed plus remaining",
    )
    ∷ (
      is_open v.lifecycle || v.remaining_work_microseconds == 0,
      value_error "closed visit must have no remaining work",
    )
    ∷ []

module _ (R : Runtime) where
  open R use {semantic_uuid, str_uuid}

  abbrev pub sprint_checks : SprintState → List Check
  sprint_checks s =
      require_safe_integer s.ordinal "ordinal"
      ∷ require_semantic_id s.id (sprint_rng_id R s.team_id s.ordinal) "semantic sprint id"
      ∷ (
        ltb s.planned_start_at s.planned_end_at,
        value_error "planned sprint interval must be positive",
      )
      ∷ (observed_checks s
          ++ ((leb s.created_at s.updated_at, value_error "updated_at must not precede created_at")
              ∷ []))

  abbrev pub scope_uuid : ℕ → ℕ → ℕ
  scope_uuid sprint_id item_id =
      semantic_uuid ("sprint-scope" ∷ str_uuid sprint_id ∷ str_uuid item_id ∷ [])

  abbrev pub scope_checks : SprintScopeEntry → List Check
  scope_checks e =
      require_semantic_id e.id (scope_uuid e.sprint_id e.work_item_id) "semantic sprint scope id"
      ∷ (not_before e.removed_at e.added_at, value_error "removed_at must not precede added_at")
      ∷ []

  abbrev pub visit_checks : StatusVisitState → List Check
  visit_checks v =
      require_safe_integer v.ordinal "ordinal"
      ∷ require_semantic_id v.id (visit_rng_id R v.work_item_id v.ordinal) "semantic visit id"
      ∷ require_text v.status_key "status_key"
      ∷ (require_optional_text v.activity_key "activity_key"
          ++ (zero_touch_checks v ++ (time_checks v ++ microsecond_checks v)))
