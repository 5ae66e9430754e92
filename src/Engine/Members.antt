-- ===== src/Engine/Members.antt =====
-- backend/app/engine/capacity.py: the state of the members in one tick. The dict by member id is
-- the list of its values, each of which carries its key.
pub mod Free
use jira_simulator.Base.{
  ℕ, String, Bool, true, false, not, ◌&&◌, ◌||◌, Option, none, some, List, [], ◌∷◌, find, any,
  keep_if, length, get_elem?, ◌==◌, if◌then◌else◌, str_eq, opt_eq,
}
use jira_simulator.Base.Result.{Result, ok, raised, ◌>>=◌}
use jira_simulator.Engine.{Runtime, EngineFault, key_error}

pub record MemberTickState : Type 0 where
  pub member_id : ℕ
  pub role : String
  pub busy_this_tick : Bool
  pub assigned_issue_id : Option ℕ

pub record MemberRow : Type 0 where
  pub id : ℕ
  pub role : String
  pub assigned_issue_id : Option ℕ

-- `states[state.member_id] = state`
abbrev pub put_state : MemberTickState → List MemberTickState → List MemberTickState
put_state s [] = s ∷ []
put_state s (t ∷ ts) =
    let rest = put_state s ts in if t.member_id == s.member_id then s ∷ ts else t ∷ rest

build_from : List MemberTickState → List MemberRow → List MemberTickState
build_from states [] = states
build_from states (m ∷ ms) =
    build_from
      (put_state
        (record {
          member_id = m.id;
          role = m.role;
          busy_this_tick = false;
          assigned_issue_id = m.assigned_issue_id;
        })
        states)
      ms

unfoldable pub build_member_states : List MemberRow → List MemberTickState
unfolding build_from
build_member_states members = build_from [] members

-- `states[member_id]`
abbrev pub state_of : List MemberTickState → ℕ → Result EngineFault MemberTickState
state_of states id = elim (find (λ s. s.member_id == id) states) [
  | none ↦ raised key_error
  | some s ↦ ok s
]

-- Not busy, of one of the roles, and unassigned or assigned to the issue.
abbrev pub is_available : List String → ℕ → MemberTickState → Bool
is_available roles issue_id s =
    not s.busy_this_tick
    && any (λ r. str_eq r s.role) roles
    && (opt_eq s.assigned_issue_id none || opt_eq s.assigned_issue_id (some issue_id))

abbrev pub candidates : List MemberTickState → List String → ℕ → List MemberTickState
candidates states roles issue_id = keep_if (is_available roles issue_id) states

module _ (R : Runtime) where
  open R use {Rng, choice}

  abbrev pub draw_from : List MemberTickState → Rng → Option MemberTickState × Rng
  draw_from [] rng = (none, rng)
  draw_from (c ∷ cs) rng =
      let (index, rng') = choice (length (c ∷ cs)) rng in (get_elem? (c ∷ cs) index, rng')

  unfoldable pub find_available_member :
      List MemberTickState → List String → ℕ → Rng → Option MemberTickState × Rng
  find_available_member states roles issue_id rng = draw_from (candidates states roles issue_id) rng

unfoldable pub mark_busy : List MemberTickState → ℕ → ℕ → Result EngineFault (List MemberTickState)
mark_busy states member_id issue_id = do
  current ← state_of states member_id
  ok (
      put_state (record current { busy_this_tick = true; assigned_issue_id = some issue_id })
        states)

unfoldable pub release_assignment :
    List MemberTickState → ℕ → Result EngineFault (List MemberTickState)
release_assignment states member_id = do
  current ← state_of states member_id
  ok (put_state (record current { assigned_issue_id = none }) states)
