-- ===== src/State/Tests.antt =====
-- A small state that passes its checks, ones that fail them, and the theorems at such states.
use Prim.Native.Char.{code}
use jira_simulator.Base.{
  ℕ, ◌+◌, ◌*◌, ◌%◌, ◌≤◌, ◌≡◌, refl, String, true, none, some, Option, List, [], ◌∷◌, ◌==◌, leb,
  get_elem?, length, keep_if, is_canonical_text, is_lower_hex, arith,
}
use jira_simulator.Base.Result.{ok, raised}
use jira_simulator.State.Checks.{value_error, labelled}
use jira_simulator.State.Names.{
  Runtime, initial_backlog, member_rng_id, sprint_rng_id, item_rng_id, visit_rng_id,
}
use jira_simulator.State.Work.{WorkItemState, WorkItemLifecycle, WorkPriority}
use jira_simulator.State.Sprints.{
  SprintState, SprintScopeEntry, StatusVisitState, SprintLifecycle, StatusVisitLifecycle,
  scope_uuid, is_sprint_active,
}
use jira_simulator.State.Counters.{SemanticCounter, sprint_ordinal, visit_ordinal}
use jira_simulator.State.Samples.{StatusVisitSample, hours_to_microseconds, round_half_even}
use jira_simulator.State.Collections.{ScrumState}
use jira_simulator.State.Validation.{validate_write_set, validate_snapshot, from_write_set}
use jira_simulator.State.Snapshots.{IsOneTeam, validate_write_set-one_active}
use jira_simulator.State.Visits.{HasVisits, validate_snapshot-HasVisits}
use jira_simulator.State.Rounding.{IsNearestEven, hours_to_microseconds-IsNearestEven}

abbrev weight : String → ℕ
weight String.[] = 7
weight (String.◌∷◌ c s) = (code c + 31 * weight s) % 1009

-- A small stand-in for the hash of a path.
abbrev path_number : List String → ℕ
path_number [] = 1
path_number (s ∷ rest) = (weight s + 131 * path_number rest) % 1009

abbrev letters : List String
letters =
    "a" ∷ "b" ∷ "c" ∷ "d" ∷ "e" ∷ "f" ∷ "g" ∷ "h" ∷ "i" ∷ "j" ∷ "k" ∷ "l" ∷ "m" ∷ "n" ∷ "o" ∷ "p"
    ∷ "q" ∷ "r" ∷ "s" ∷ []

abbrev or_empty : Option String → String
or_empty none = ""
or_empty (some s) = s

abbrev letter : ℕ → String
letter n = or_empty (get_elem? letters (n % 19))

abbrev digest : String
digest = "aaaaaaaaaaaaaaaabbbbbbbbbbbbbbbb0000000000000000ffffffffffffffff"

abbrev pub small_runtime : Runtime
small_runtime = record {
  semantic_uuid = path_number;
  str_uuid = letter;
  str_int = letter;
  str_date = letter;
  is_canonical_json = λ text digest_text. true;
  Num = ℕ;
  is_fraction = λ n. leb n 1;
  is_finite = λ n. true;
  as_integer_ratio = λ n. (n, 1);
  required_work_digest = λ n. digest;
  Documents = ℕ;
  documents_match = λ d visit team run hours. d == visit;
}

abbrev pub item_id : ℕ → ℕ
item_id n = item_rng_id small_runtime 1 initial_backlog n

abbrev pub item : ℕ → WorkItemLifecycle → ℕ → String → WorkItemState
item n lifecycle points status = record {
  id = item_id n;
  team_id = 1;
  run_id = 2;
  creation_kind = initial_backlog;
  creation_sequence = n;
  issue_type = "STORY";
  story_points = points;
  priority = WorkPriority.medium;
  relative_rank = n;
  lifecycle = lifecycle;
  current_status_key = status;
  created_at = 0;
  updated_at = 10;
}

abbrev pub first_visit : ℕ → StatusVisitState
first_visit n = record {
  id = visit_rng_id small_runtime (item_id n) 0;
  team_id = 1;
  run_id = 2;
  work_item_id = item_id n;
  ordinal = 0;
  lifecycle = StatusVisitLifecycle.open_;
  status_key = "doing";
  activity_key = some "development";
  member_id = none;
  entered_at = 10;
  closed_at = none;
  required_work_microseconds = 7200000000;
  elapsed_work_microseconds = 200000000;
  remaining_work_microseconds = 7000000000;
  queue_microseconds = 0;
  pause_microseconds = 0;
  credited_labor_microseconds = 0;
}

abbrev pub first_sample : ℕ → StatusVisitSample small_runtime
first_sample n = record {
  visit_id = visit_rng_id small_runtime (item_id n) 0;
  team_id = 1;
  run_id = 2;
  timing_profile = "balanced";
  timing_profile_version = "1";
  dwell_sampler_version = "D1";
  touch_sampler_version = "LINEAR_UNIFORM_TOUCH_V1";
  documents = visit_rng_id small_runtime (item_id n) 0;
  touch_sampled_hours = 2;
  required_work_microseconds = 7200000000;
  required_work_sha256 = digest;
}

abbrev pub first_sprint : SprintState
first_sprint = record {
  id = sprint_rng_id small_runtime 1 0;
  team_id = 1;
  run_id = 2;
  ordinal = 0;
  lifecycle = SprintLifecycle.active;
  planned_start_at = 5;
  planned_end_at = 100;
  observed_start_at = some 5;
  observed_end_at = none;
  created_at = 0;
  updated_at = 5;
}

abbrev pub first_entry : SprintScopeEntry
first_entry = record {
  id = scope_uuid small_runtime (sprint_rng_id small_runtime 1 0) (item_id 0);
  team_id = 1;
  run_id = 2;
  sprint_id = sprint_rng_id small_runtime 1 0;
  work_item_id = item_id 0;
  added_at = 5;
  removed_at = none;
}

abbrev visit_counter : ℕ → SemanticCounter
visit_counter n = record {
  team_id = 1;
  run_id = 2;
  scope = record { kind = visit_ordinal; scope_id = item_id n; scope_key = "VISIT" };
  next_value = 0;
}

abbrev pub with_sprints : List SprintState → ScrumState small_runtime
with_sprints sprints = record {
  member_identities =
      record { id = member_rng_id small_runtime 1 0; team_id = 1; blueprint_index = 0 } ∷ [];
  member_availability_overlays = [];
  member_business_date_consumption = [];
  work_items =
      item 0 WorkItemLifecycle.active 3 "doing" ∷ item 1 WorkItemLifecycle.backlog 2 "todo" ∷ [];
  work_item_factors = [];
  sprints = sprints;
  sprint_scope = first_entry ∷ [];
  status_visits = first_visit 0 ∷ [];
  status_visit_samples = first_sample 0 ∷ [];
  semantic_counters =
      record {
        team_id = 1;
        run_id = 2;
        scope = record { kind = sprint_ordinal; scope_id = 1; scope_key = "SCRUM" };
        next_value = 1;
      }
      ∷ visit_counter 0
      ∷ visit_counter 1
      ∷ [];
  natural_decision_evaluations = [];
}

abbrev pub small_state : ScrumState small_runtime
small_state = with_sprints (first_sprint ∷ [])

pub small_state_valid : validate_snapshot small_state ≡ ok tt
unfolding validate_snapshot is_canonical_text is_lower_hex hours_to_microseconds round_half_even
small_state_valid = refl

small_state_writes : validate_write_set small_state ≡ ok tt
unfolding validate_write_set is_canonical_text is_lower_hex hours_to_microseconds round_half_even
small_state_writes = refl

taken_from_write_set : from_write_set small_state ≡ ok small_state
unfolding from_write_set validate_write_set validate_snapshot is_canonical_text is_lower_hex
    hours_to_microseconds round_half_even
taken_from_write_set = refl

-- The scope of a sprint that is not there.
lost_sprint :
    validate_snapshot (with_sprints [])
    ≡ raised (labelled "scope sprint" "must reference a state owner")
unfolding validate_snapshot is_canonical_text is_lower_hex hours_to_microseconds round_half_even
lost_sprint = refl

same_sprint_twice :
    validate_write_set (with_sprints (first_sprint ∷ first_sprint ∷ []))
    ≡ raised (value_error "Scrum state collections must not contain duplicate identities")
unfolding validate_write_set is_canonical_text is_lower_hex hours_to_microseconds round_half_even
same_sprint_twice = refl

validate_write_set-one_active_example :
    (length (keep_if (λ a. is_sprint_active a.lifecycle) small_state.sprints) ≤ 1)
    × IsOneTeam small_state
validate_write_set-one_active_example = validate_write_set-one_active small_state small_state_writes

validate_snapshot-HasVisits_example : HasVisits small_state
validate_snapshot-HasVisits_example = validate_snapshot-HasVisits small_state small_state_valid

-- A third of an hour in eighths, 3/8 h, is 1,350,000,000 microseconds.
three_eighths : hours_to_microseconds 3 8 ≡ 1350000000
unfolding hours_to_microseconds round_half_even
three_eighths = refl

-- Half a microsecond over an even and over an odd number.
halves : (round_half_even 4 8 8 ≡ 4) × (round_half_even 5 8 8 ≡ 6)
unfolding round_half_even
halves = (refl, refl)

hours_to_microseconds-IsNearestEven_example :
    IsNearestEven (1 * 3600000000) 7 (hours_to_microseconds 1 7)
hours_to_microseconds-IsNearestEven_example = hours_to_microseconds-IsNearestEven 1 7 (omega arith)
