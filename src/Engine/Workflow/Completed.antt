-- ===== src/Engine/Workflow/Completed.antt =====
-- A completed item stands at the final step.
use jira_simulator.Base.{
  ℕ, ◌≤◌, ◌≡◌, refl, sym, subst, Bool, true, false, inl, inr, Option, none, some, List, [], ◌∷◌,
  Memᴰ, All, All-map, All-at, All-Memᴰ, All-keep_if, keep_if_nil, find, All-find, ltb, arith, ◌==◌,
  ==→eq, Bool-cases,
}
use jira_simulator.Base.Result.{ok, >>=-eq-ok, ok-injective}
use jira_simulator.Engine.{Runtime, WorkflowStep, Issue, MoveLeftConfig}
use jira_simulator.Engine.Members.{MemberTickState}
use jira_simulator.Engine.Workflow.Steps.{assign_worker-Keeps, advance_work-Keeps, issue-release}
use jira_simulator.Engine.Route.{
  find_step_by_id, first_least, least_of, next_step, max_order, is_final_step,
}
use jira_simulator.Engine.Entry.{TouchTimes, sample_times, enter_status, get_touch_time_config}
use jira_simulator.Engine.Moves.{Direction, forward, left, roll_direction}
use jira_simulator.Engine.Workflow.{
  ItemTickResult, Working, assign_worker, advance_work, advance_full, unready, enter, finish,
  move_forward, move_left, execute, release, check_transition_ready, conclude, tick_step,
  process_item_tick, points_of,
}

order-le-max_order : (steps : List WorkflowStep) → All (λ s. s.order ≤ max_order steps) steps
order-le-max_order [] = tt
order-le-max_order (s ∷ ss) = (omega arith, All-map ss (λ t h. omega arith) (order-le-max_order ss))

max_order-le :
    (n : ℕ) (steps : List WorkflowStep) → All (λ s. s.order ≤ n) steps → max_order steps ≤ n
max_order-le n [] h = omega arith
max_order-le n (s ∷ ss) (h, hs) = omega (arith, max_order-le n ss hs)

first_least-All {κ} :
    (P : WorkflowStep → Type κ) (s : WorkflowStep) (ss : List WorkflowStep)
    → P s
    → All P ss
    → P (first_least s ss)
unfolding first_least
first_least-All P s [] h hs = h
first_least-All P s (t ∷ ts) h (ht, hs) = elim (Bool-cases (ltb t.order s.order)) [
  | inl e ↦ rw e (first_least-All P t ts ht hs)
  | inr e ↦ rw e (first_least-All P s ts h hs)
]

least_of-All {κ} :
    (P : WorkflowStep → Type κ) (ss : List WorkflowStep) (s : WorkflowStep)
    → All P ss
    → least_of ss ≡ some s
    → P s
unfolding least_of
least_of-All P [] s h e = cc
least_of-All P (t ∷ ts) s (h, hs) e =
    let same : first_least t ts ≡ s = cc in subst P same (first_least-All P t ts h hs)

least_of-nil : (ss : List WorkflowStep) → least_of ss ≡ none → ss ≡ []
unfolding least_of
least_of-nil [] e = refl
least_of-nil (t ∷ ts) e = cc

module _ (R : Runtime) (steps : List WorkflowStep)
    (unique : All (λ s. find (λ t. t.id == s.id) steps ≡ some s) steps) where
  -- The step that an item stands at is the last of the workflow.
  abbrev pub StandsAtEnd : Option ℕ → Type 0
  StandsAtEnd id =
      (s : WorkflowStep) × (find_step_by_id steps id ≡ some s) × (s.order ≡ max_order steps)

  next_step-found :
      (n : ℕ) (s : WorkflowStep)
      → next_step steps n ≡ some s
      → find_step_by_id steps (some s.id) ≡ some s
  unfolding next_step
  next_step-found n s e =
      least_of-All (λ t. find (λ u. u.id == t.id) steps ≡ some t) _ s
        (All-keep_if _ (λ t. ltb n t.order) steps unique) e

  next_step-none :
      (s : WorkflowStep) → Memᴰ s steps → next_step steps s.order ≡ none → s.order ≡ max_order steps
  unfolding next_step
  next_step-none s m e =
      let least = max_order-le s.order steps (
        All-map steps (λ t h. ground (arith, h))
          (keep_if_nil (λ t. ltb s.order t.order) steps (least_of-nil _ e))) in
      omega (arith, least, All-at _ steps (order-le-max_order steps) m)

  abbrev Good : ItemTickResult R → Type 0
  Good r = r.completed ≡ true → StandsAtEnd r.issue.current_workflow_step_id

  enter-Good :
      (configs : TouchTimes R) (step : WorkflowStep) (completed : Bool) (w : Working R)
      (r : ItemTickResult R)
      → enter R configs step completed w ≡ ok r
      → (completed ≡ true → StandsAtEnd (some step.id))
      → Good r
  unfolding enter enter_status
  enter-Good configs step completed w r e h =
      let (entered, made, e') =
        >>=-eq-ok
          (enter_status R w.issue step
            (get_touch_time_config R configs step.id w.issue.issue_type (points_of R w.issue))
            w.rng)
          _ e in
      let (times, _, made') =
        >>=-eq-ok
          (sample_times R
            (get_touch_time_config R configs step.id w.issue.issue_type (points_of R w.issue))
            w.rng)
          _ made in
      subst Good (ok-injective e')
        λ done. subst (λ x. StandsAtEnd x.0.current_workflow_step_id) (ok-injective made') (h done)

  unready-Good : (w : Working R) → Good (unready R w)
  unready-Good w done = cc (done)

  finish-Good : (w : Working R) → StandsAtEnd w.issue.current_workflow_step_id → Good (finish R w)
  finish-Good w h done = h

  is_final-order : (s : WorkflowStep) → is_final_step steps s ≡ true → s.order ≡ max_order steps
  unfolding is_final_step
  is_final-order s e = ==→eq _ _ e

  is_final-end :
      (s : WorkflowStep)
      → find_step_by_id steps (some s.id) ≡ some s
      → is_final_step steps s ≡ true
      → StandsAtEnd (some s.id)
  is_final-end s found e = (s, found, is_final-order s e)

  move_forward-Good :
      (configs : TouchTimes R) (current : WorkflowStep) (w : Working R) (next : Option WorkflowStep)
      (r : ItemTickResult R)
      → find_step_by_id steps w.issue.current_workflow_step_id ≡ some current
      → next_step steps current.order ≡ next
      → Memᴰ current steps
      → move_forward R steps configs current w next ≡ ok r
      → Good r
  unfolding move_forward
  move_forward-Good configs current w none r at_step none_left m e =
      subst Good (ok-injective e)
        (finish-Good w (current, at_step, next_step-none current m none_left))
  move_forward-Good configs current w (some next) r at_step nearest m e =
      elim (Bool-cases (is_final_step steps current)) [
        | inl last ↦
            subst Good (ok-injective (rw last at e))
              (finish-Good w (current, at_step, is_final-order current last))
        | inr earlier ↦
            enter-Good configs next (is_final_step steps next) w r (rw earlier at e)
              (is_final-end next (next_step-found current.order next nearest))
      ]

  move_left-Good :
      (configs : TouchTimes R) (w : Working R) (target : Option WorkflowStep) (r : ItemTickResult R)
      → move_left R configs w target ≡ ok r
      → Good r
  unfolding move_left
  move_left-Good configs w none r e = subst Good (ok-injective e) (unready-Good w)
  move_left-Good configs w (some target) r e =
      enter-Good configs target false w r e (λ done. cc (done))

  execute-Good :
      (configs : TouchTimes R) (current : WorkflowStep) (w : Working R) (d : Direction)
      (r : ItemTickResult R)
      → find_step_by_id steps w.issue.current_workflow_step_id ≡ some current
      → Memᴰ current steps
      → execute R steps configs current w d ≡ ok r
      → Good r
  unfolding execute
  execute-Good configs current w forward r at_step m e =
      move_forward-Good configs current w (next_step steps current.order) r at_step refl m e
  execute-Good configs current w (left target) r at_step m e =
      move_left-Good configs w (find_step_by_id steps (some target)) r e

  conclude-Good :
      (configs : TouchTimes R) (moves : List (MoveLeftConfig R)) (current : WorkflowStep)
      (w : Working R) (r : ItemTickResult R)
      → find_step_by_id steps w.issue.current_workflow_step_id ≡ some current
      → Memᴰ current steps
      → conclude R steps configs moves current w ≡ ok r
      → Good r
  unfolding conclude
  conclude-Good configs moves current w r at_step m e =
      elim (Bool-cases (check_transition_ready R w.issue)) [
        | inl ready ↦
            let drawn = roll_direction R w.issue.issue_type current moves w.rng in
            let (w', released, e') =
              >>=-eq-ok (release R (record w { rng = drawn.1 })) _ (rw ready at e) in
            execute-Good configs current w' drawn.0 r
              (subst (λ i. find_step_by_id steps i.current_workflow_step_id ≡ some current)
                (sym (issue-release R (record w { rng = drawn.1 }) w' released)) at_step)
              m e'
        | inr waiting ↦ subst Good (ok-injective (rw waiting at e)) (unready-Good w)
      ]

  found-Memᴰ : (id : Option ℕ) (s : WorkflowStep) → find_step_by_id steps id ≡ some s → Memᴰ s steps
  found-Memᴰ none s e = cc
  found-Memᴰ (some id) s e = All-find _ (λ t. t.id == id) steps s (All-Memᴰ steps) e

  tick_step-Good :
      (configs : TouchTimes R) (moves : List (MoveLeftConfig R)) (hours : R.Num) (w : Working R)
      (current : Option WorkflowStep) (r : ItemTickResult R)
      → find_step_by_id steps w.issue.current_workflow_step_id ≡ current
      → tick_step R steps configs moves hours w current ≡ ok r
      → Good r
  unfolding tick_step
  tick_step-Good configs moves hours w none r at_step e =
      subst Good (ok-injective e) (unready-Good w)
  tick_step-Good configs moves hours w (some current) r at_step e =
      let (assigned, e1, e') = >>=-eq-ok (assign_worker R current w) _ e in
      let (worked, e2, e'') = >>=-eq-ok (advance_work R hours assigned) _ e' in
      let same_step : worked.issue.current_workflow_step_id ≡ w.issue.current_workflow_step_id =
        cc (
          (assign_worker-Keeps R current w assigned e1).same_step,
          (advance_work-Keeps R hours assigned worked e2).same_step,
        ) in
      conclude-Good configs moves current (advance_full R hours worked) r (rw same_step at_step)
        (found-Memᴰ _ current at_step) e''

  -- When a tick of an item returns a result, in a workflow whose step ids are unique, and reports
  -- the item as completed, the item stands at a step whose order is the greatest of the workflow.
  pub process_item_tick-completed :
      (issue : Issue R) (configs : TouchTimes R) (moves : List (MoveLeftConfig R))
      (states : List MemberTickState) (hours : R.Num) (rng : R.Rng) (r : ItemTickResult R)
      → process_item_tick R issue steps configs moves states hours rng ≡ ok r
      → r.completed ≡ true
      → StandsAtEnd r.issue.current_workflow_step_id
  unfolding process_item_tick
  process_item_tick-completed issue configs moves states hours rng r e =
      tick_step-Good configs moves hours _ _ r refl e
