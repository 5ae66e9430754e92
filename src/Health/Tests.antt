-- ===== src/Health/Tests.antt =====
-- An outage and what follows it, and the theorem at such answers.
use jira_simulator.Base.{ℕ, ◌≡◌, refl, Bool, true, false, List, [], ◌∷◌, map}
use jira_simulator.Health.{
  new_monitor, run_checks, check, handle_success, handle_failure, mark_recovery_complete,
  recovering, online,
}
use jira_simulator.Health.Outages.{after_outage, status_after, run_checks_lem}

-- One failure, two in a row, an answer, and two failures again.
abbrev answers : List (ℕ × Bool)
answers =
    (60, false)
    ∷ (120, true)
    ∷ (180, false)
    ∷ (240, false)
    ∷ (300, true)
    ∷ (360, false)
    ∷ (420, false)
    ∷ []

second_outage_unseen : (run_checks answers new_monitor).status ≡ recovering
unfolding run_checks check handle_success handle_failure
second_outage_unseen = refl

marked_online : (mark_recovery_complete (run_checks answers new_monitor)).status ≡ online
unfolding mark_recovery_complete run_checks check handle_success handle_failure
marked_online = refl

run_checks_lem_example :
    (run_checks answers new_monitor).status ≡ status_after (after_outage (map (λ c. c.1) answers))
run_checks_lem_example = run_checks_lem answers
