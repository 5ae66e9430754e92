-- ===== src/Health/Outages.antt =====
-- When the monitor reports an outage, and what it reports after one.
use jira_simulator.Base.{
  ℕ, ◌≡◌, refl, Bool, true, false, Option, none, some, List, [], ◌∷◌, map, any, if◌then◌else◌,
}
use jira_simulator.Health.{
  Status, JiraHealthMonitor, new_monitor, check, handle_success, handle_failure, run_checks, online,
  offline, recovering,
}

-- The answers after the first two failures in a row, if there are such.
abbrev pub after_outage : List Bool → Option (List Bool)
after_outage [] = none
after_outage (true ∷ rest) = after_outage rest
after_outage (false ∷ []) = none
after_outage (false ∷ false ∷ rest) = some rest
after_outage (false ∷ true ∷ rest) = after_outage rest

-- Offline until the first answer after an outage, and recovering from then on.
abbrev pub status_after : Option (List Bool) → Status
status_after none = online
status_after (some rest) = if any (λ b. b) rest then recovering else offline

stays_recovering :
    (checks : List (ℕ × Bool)) (m : JiraHealthMonitor)
    → m.status ≡ recovering
    → (run_checks checks m).status ≡ recovering
unfolding run_checks check handle_success handle_failure
stays_recovering [] m h = h
stays_recovering ((now, true) ∷ rest) m h = stays_recovering rest _ (rw h refl)
stays_recovering ((now, false) ∷ rest) m h = stays_recovering rest _ (rw h refl)

-- Two failures in a row have made the monitor offline.
stays_offline :
    (checks : List (ℕ × Bool)) (m : JiraHealthMonitor)
    → m.status ≡ offline
    → (run_checks checks m).status ≡ status_after (some (map (λ c. c.1) checks))
unfolding run_checks check handle_success handle_failure
stays_offline [] m h = h
stays_offline ((now, true) ∷ rest) m h = stays_recovering rest _ (rw h refl)
stays_offline ((now, false) ∷ rest) m h = stays_offline rest _ (rw h refl)

-- From an online monitor: after no failure, and after one that the next answer may follow.
from_online :
    (checks : List (ℕ × Bool)) (m : JiraHealthMonitor)
    → m.status ≡ online
    → (m.consecutive_failures ≡ 0
        → (run_checks checks m).status ≡ status_after (after_outage (map (λ c. c.1) checks)))
      × (m.consecutive_failures ≡ 1
          → (run_checks checks m).status
            ≡ status_after (after_outage (false ∷ map (λ c. c.1) checks)))
unfolding run_checks check handle_success handle_failure
from_online [] m h = ((λ none_yet. h), (λ one. h))
from_online ((now, true) ∷ rest) m h =
    let (zero_case, _) = from_online rest (check now true m).0 (rw h refl) in
    ((λ none_yet. zero_case (rw h refl)), (λ one. zero_case (rw h refl)))
from_online ((now, false) ∷ rest) m h = (
  (λ none_yet.
      let (_, one_case) = from_online rest (check now false m).0 (rw (h, none_yet) refl) in
      one_case (rw (h, none_yet) refl)),
  (λ one. stays_offline rest (check now false m).0 (rw (h, one) refl)),
)

-- The status after any checks of a new monitor: online as long as no two answers in a row were
-- failures; offline from the second of two such on, until Jira answers; and recovering ever after,
-- whatever the later answers are.
pub run_checks_lem :
    (checks : List (ℕ × Bool))
    → (run_checks checks new_monitor).status ≡ status_after (after_outage (map (λ c. c.1) checks))
run_checks_lem checks = let (zero_case, _) = from_online checks new_monitor refl in zero_case refl
