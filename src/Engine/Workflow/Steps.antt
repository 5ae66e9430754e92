-- ===== src/Engine/Workflow/Steps.antt =====
-- What steps 1, 2 and the release of the worker leave alone.
use jira_simulator.Base.{
  ℕ, ◌≡◌, refl, sym, subst, Bool, true, false, not, ◌&&◌, inl, inr, Option, none, some, Bool-cases,
  if◌then◌else◌,
}
use jira_simulator.Base.Result.{ok, >>=-eq-ok, ok-injective}
use jira_simulator.Engine.{Runtime, WorkflowStep, Issue}
use jira_simulator.Engine.Members.{MemberTickState, mark_busy, state_of, release_assignment}
use jira_simulator.Engine.Workflow.{
  Working, take_worker, assign_worker, work, keep_busy, advance_as, advance_work, release_as,
  release,
}

module _ (R : Runtime) where
  pub record Keeps (before after : Issue R) : Type 0 where
    pub same_id : after.id ≡ before.id
    pub same_key : after.jira_issue_key ≡ before.jira_issue_key
    pub same_status : after.status ≡ before.status
    pub same_step : after.current_workflow_step_id ≡ before.current_workflow_step_id
    pub same_full : after.elapsed_full_time ≡ before.elapsed_full_time
    pub same_sample : after.sampled_work_time ≡ before.sampled_work_time

  Keeps-refl : (i : Issue R) → Keeps i i
  Keeps-refl i = record {
    same_id = refl;
    same_key = refl;
    same_status = refl;
    same_step = refl;
    same_full = refl;
    same_sample = refl;
  }

  take_worker-Keeps :
      (w w' : Working R) (found : Option MemberTickState) (rng : R.Rng)
      → take_worker R w found rng ≡ ok w'
      → Keeps w.issue w'.issue
  unfolding take_worker
  take_worker-Keeps w w' none rng e =
      subst (λ x. Keeps w.issue x.issue) (ok-injective e) (Keeps-refl w.issue)
  take_worker-Keeps w w' (some worker) rng e =
      let (states, _, made) = >>=-eq-ok (mark_busy w.states worker.member_id w.issue.id) _ e in
      subst (λ x. Keeps w.issue x.issue) (ok-injective made)
        (record {
          same_id = refl;
          same_key = refl;
          same_status = refl;
          same_step = refl;
          same_full = refl;
          same_sample = refl;
        })

  pub assign_worker-Keeps :
      (step : WorkflowStep) (w w' : Working R)
      → assign_worker R step w ≡ ok w'
      → Keeps w.issue w'.issue
  unfolding assign_worker
  assign_worker-Keeps step w w' e =
      elim (Bool-cases (R.less R.zero w.issue.sampled_work_time && not w.issue.work_started)) [
        | inl yes_needed ↦ take_worker-Keeps w w' _ _ (rw yes_needed at e)
        | inr not_needed ↦
            subst (λ x. Keeps w.issue x.issue) (ok-injective (rw not_needed at e))
              (Keeps-refl w.issue)
      ]

  pub issue-keep_busy :
      (w w' : Working R) (worker : ℕ) → keep_busy R w worker ≡ ok w' → w'.issue ≡ w.issue
  unfolding keep_busy
  issue-keep_busy w w' worker e =
      let (s, _, e') = >>=-eq-ok (state_of w.states worker) _ e in
      let (states, _, made) =
        >>=-eq-ok (if s.busy_this_tick then ok w.states else mark_busy w.states worker w.issue.id) _
          e' in
      subst (λ x. x.issue ≡ w.issue) (ok-injective made) refl

  advance_as-Keeps :
      (hours : R.Num) (w w' : Working R) (started : Bool) (owner : Option ℕ)
      → advance_as R hours w started owner ≡ ok w'
      → Keeps w.issue w'.issue
  unfolding advance_as
  advance_as-Keeps hours w w' started none e =
      subst (λ x. Keeps w.issue x.issue) (ok-injective e) (Keeps-refl w.issue)
  advance_as-Keeps hours w w' false (some worker) e =
      subst (λ x. Keeps w.issue x.issue) (ok-injective e) (Keeps-refl w.issue)
  advance_as-Keeps hours w w' true (some worker) e =
      subst (λ i. Keeps w.issue i)
        (sym (issue-keep_busy (record w { issue = work R hours w.issue }) w' worker e))
        (record {
          same_id = refl;
          same_key = refl;
          same_status = refl;
          same_step = refl;
          same_full = refl;
          same_sample = refl;
        })

  pub advance_work-Keeps :
      (hours : R.Num) (w w' : Working R) → advance_work R hours w ≡ ok w' → Keeps w.issue w'.issue
  unfolding advance_work
  advance_work-Keeps hours w w' e =
      advance_as-Keeps hours w w' w.issue.work_started w.issue.current_worker_id e

  issue-release_as :
      (w w' : Working R) (owner : Option ℕ) → release_as R w owner ≡ ok w' → w'.issue ≡ w.issue
  unfolding release_as
  issue-release_as w w' none e = subst (λ x. x.issue ≡ w.issue) (ok-injective e) refl
  issue-release_as w w' (some worker) e =
      let (states, _, made) = >>=-eq-ok (release_assignment w.states worker) _ e in
      subst (λ x. x.issue ≡ w.issue) (ok-injective made) refl

  pub issue-release : (w w' : Working R) → release R w ≡ ok w' → w'.issue ≡ w.issue
  unfolding release
  issue-release w w' e = issue-release_as w w' w.issue.current_worker_id e
