-- ===== src/State/Visits.antt =====
-- What a snapshot that passes its checks promises of its status visits: the status of the open ones
-- is their item's, and each has its sample.
use jira_simulator.Base.{
  ℕ, ◌≡◌, ◌≢◌, refl, ◌∙◌, subst, same_key, All-Memᴰ, true, false, Option, none, some, List, [], ◌∷◌,
  Memᴰ, arith, ◌==◌, &&-true, ==→eq, eq_iff, map, All, All-map, All-zip, All-at, all-All,
  All-keep_if, keep_if, contains, Pairwise, unique-Pairwise, find_last, find_last-found,
  find_last-none, All-map_inv, All-flat_map_inv, All-concat_inv, contains-found,
}
use jira_simulator.Base.Result.{ok}
use jira_simulator.State.Checks.{Passes}
use jira_simulator.State.Names.{Runtime}
use jira_simulator.State.Work.{WorkItemState}
use jira_simulator.State.Sprints.{StatusVisitState, is_open}
use jira_simulator.State.Samples.{StatusVisitSample}
use jira_simulator.State.Collections.{ScrumState, team_lists, run_lists, same_visit_item}
use jira_simulator.State.Snapshots.{IsOneTeam, snapshot_parts, one_team}
use jira_simulator.State.Validation.{
  validate_snapshot, collection_groups, work_reference_groups, open_status_of, sample_link_of,
}

apart_items :
    (t r : ℕ) (xs : List StatusVisitState)
    → All (λ a. (a.team_id ≡ t) × (a.run_id ≡ r)) xs
    → Pairwise (λ a b. same_visit_item a b ≡ false) xs
    → Pairwise (λ a b. a.work_item_id ≢ b.work_item_id) xs
apart_items t r [] _ _ = tt
apart_items t r (x ∷ xs) ((team, run), hs) (h, rest) = (
  All-map xs
      (λ y ((team', run'), different) same.
        let impossible : true ≡ false = ground (arith, team, run, team', run', different, same) in
        cc (impossible))
      (All-zip _ _ xs hs h),
  apart_items t r xs hs rest,
)

apart_samples :
    {R : Runtime} (xs : List (StatusVisitSample R))
    → Pairwise (λ a b. a.visit_id == b.visit_id ≡ false) xs
    → Pairwise (λ a b. a.visit_id ≢ b.visit_id) xs
apart_samples [] _ = tt
apart_samples (x ∷ xs) (h, rest) = (
  All-map xs
      (λ y different same.
        let impossible : true ≡ false = ground (arith, different, same) in cc (impossible))
      h,
  apart_samples xs rest,
)

module _ {R : Runtime} where
  abbrev pub HasOpenStatus : ScrumState R → StatusVisitState → Type 0
  HasOpenStatus s v =
      is_open v.lifecycle ≡ true
      → (w : WorkItemState) × Memᴰ w s.work_items
        × (w.id ≡ v.work_item_id)
        × (v.status_key ≡ w.current_status_key)

  abbrev pub HasSample : ScrumState R → StatusVisitState → Type 0
  HasSample s v =
      (a : StatusVisitSample R) × Memᴰ a s.status_visit_samples
      × (a.visit_id ≡ v.id)
      × (a.team_id ≡ v.team_id)
      × (a.run_id ≡ v.run_id)
      × (a.required_work_microseconds ≡ v.required_work_microseconds)

  abbrev pub HasVisit : ScrumState R → StatusVisitSample R → Type 0
  HasVisit s a =
      (v : StatusVisitState) × Memᴰ v s.status_visits
      × (v.id ≡ a.visit_id)
      × (a.team_id ≡ v.team_id)
      × (a.run_id ≡ v.run_id)
      × (a.required_work_microseconds ≡ v.required_work_microseconds)

  open_status_lem :
      (s : ScrumState R) (v : StatusVisitState) (found : Option WorkItemState)
      → find_last (λ w. w.id == v.work_item_id) s.work_items ≡ found
      → contains (map (λ w. w.id) s.work_items) v.work_item_id ≡ true
      → All Passes (open_status_of found v)
      → HasOpenStatus s v
  open_status_lem s v none e known h opened =
      let (w, m, named) =
        contains-found (λ (w : WorkItemState). w.id) s.work_items v.work_item_id known in
      let absent = All-at _ s.work_items (find_last-none _ s.work_items e) m in
      let impossible : true ≡ false = ground (arith, absent, named) in cc (impossible)
  open_status_lem s v (some w) e known (h, _) opened =
      let (m, named) = find_last-found _ s.work_items w e in
      (w, m, ==→eq w.id v.work_item_id named, (eq_iff _ _).0 (ground (arith, h, opened)))

  sample_link_lem :
      (s : ScrumState R) (a : StatusVisitSample R) (found : Option StatusVisitState)
      → find_last (λ v. v.id == a.visit_id) s.status_visits ≡ found
      → contains (map (λ v. v.id) s.status_visits) a.visit_id ≡ true
      → All Passes (sample_link_of found a)
      → HasVisit s a
  sample_link_lem s a none e known h =
      let (v, m, named) =
        contains-found (λ (v : StatusVisitState). v.id) s.status_visits a.visit_id known in
      let absent = All-at _ s.status_visits (find_last-none _ s.status_visits e) m in
      let impossible : true ≡ false = ground (arith, absent, named) in cc (impossible)
  sample_link_lem s a (some v) e known (h, (h', _)) =
      let (m, named) = find_last-found _ s.status_visits v e in
      let (team, run) = &&-true _ _ h in
      (
        v,
        m,
        ==→eq v.id a.visit_id named,
        ==→eq a.team_id v.team_id team,
        ==→eq a.run_id v.run_id run,
        ==→eq a.required_work_microseconds v.required_work_microseconds h',
      )

  -- The sample that names a visit agrees with it, as no other visit has its identifier.
  sample_of_visit :
      (s : ScrumState R)
      → Pairwise (λ v w. v.id == w.id ≡ false) s.status_visits
      → All (HasVisit s) s.status_visit_samples
      → (v : StatusVisitState) → Memᴰ v s.status_visits
      → contains (map (λ a. a.visit_id) s.status_visit_samples) v.id ≡ true
      → HasSample s v
  sample_of_visit s apart links v m known =
      let (a, m', named) =
        contains-found (λ (a : StatusVisitSample R). a.visit_id) s.status_visit_samples v.id
          known in
      let (w, m'', named', team, run, work) = All-at (HasVisit s) s.status_visit_samples links m' in
      let same : w ≡ v =
        same_key (λ (u : StatusVisitState). u.id) s.status_visits apart m'' m (named' ∙ named) in
      let (team', run', work') =
        subst
          (λ (u : StatusVisitState).
            (a.team_id ≡ u.team_id)
            × (a.run_id ≡ u.run_id)
            × (a.required_work_microseconds ≡ u.required_work_microseconds))
          same (team, run, work) in
      (a, m', named, team', run', work')

  -- What a snapshot promises of its visits.
  pub record HasVisits (s : ScrumState R) : Type 0 where
    pub open_status : All (HasOpenStatus s) s.status_visits
    pub sampled : All (HasSample s) s.status_visits
    pub links : All (HasVisit s) s.status_visit_samples
    pub visits_once : Pairwise (λ a b. a.id == b.id ≡ false) s.status_visits
    pub sampled_once : Pairwise (λ a b. a.visit_id ≢ b.visit_id) s.status_visit_samples
    pub open_once :
        Pairwise
          (λ a b. a.work_item_id ≢ b.work_item_id)
          (keep_if (λ a. is_open a.lifecycle) s.status_visits)

  visit_coordinates :
      (s : ScrumState R) (o : IsOneTeam s)
      → All (λ a. (a.team_id ≡ o.team_id) × (a.run_id ≡ o.run_id)) s.status_visits
  visit_coordinates s o =
      let (_, (_, (_, (_, (_, (_, (_, (teams, _)))))))) = All-concat_inv _ (team_lists s) o.teams in
      let (_, (_, (_, (_, (_, (_, (runs, _))))))) = All-concat_inv _ (run_lists s) o.runs in
      All-zip _ _ s.status_visits (All-map_inv _ _ s.status_visits teams)
        (All-map_inv _ _ s.status_visits runs)

  -- In a snapshot that passes its checks the status of each open visit is the current status of its
  -- work item, no two open visits are of one item, no two visits have one identifier, and each visit
  -- has exactly one sample, which is of the visit's team and run and has its required work.
  pub validate_snapshot-HasVisits : (s : ScrumState R) → validate_snapshot s ≡ ok tt → HasVisits s
  validate_snapshot-HasVisits s h =
      let (whole, (_, (works, (_, (_, ((cardinality, _), _)))))) = snapshot_parts s h in
      let (_, (once, ((_, (_, (open_apart, _))), ((alone, _), (statuses, (links, _)))))) =
        All-concat_inv Passes (collection_groups s) whole in
      let (_, (_, (_, (_, (_, (_, (_, (visit_once, (sample_once, _))))))))) = once in
      let visits_apart = unique-Pairwise (λ a b. a.id == b.id) s.status_visits visit_once in
      let (_, (_, (of_visits, (of_samples, _)))) =
        All-concat_inv Passes (work_reference_groups s) works in
      let o = one_team s alone in
      let opened = keep_if (λ (a : StatusVisitState). is_open a.lifecycle) s.status_visits in
      let (covered, _) = &&-true _ _ cardinality in
      let linked : All (HasVisit s) s.status_visit_samples =
        All-map s.status_visit_samples
          (λ a (known, passes). sample_link_lem s a _ refl known passes)
          (All-zip _ _ s.status_visit_samples
            (All-map_inv Passes _ s.status_visit_samples of_samples)
            (All-flat_map_inv Passes _ s.status_visit_samples links)) in
      record {
        open_status =
            All-map s.status_visits (λ v (known, passes). open_status_lem s v _ refl known passes)
              (All-zip _ _ s.status_visits (All-map_inv Passes _ s.status_visits of_visits)
                (All-flat_map_inv Passes _ s.status_visits statuses));
        visits_once = visits_apart;
        sampled =
            All-map s.status_visits
              (λ v (m, known). sample_of_visit s visits_apart linked v m known)
              (All-zip _ _ s.status_visits (All-Memᴰ s.status_visits) (
                All-map_inv _ _ s.status_visits
                  (all-All _ (map (λ (v : StatusVisitState). v.id) s.status_visits) covered)));
        links = linked;
        sampled_once =
            apart_samples s.status_visit_samples (
              unique-Pairwise (λ a b. a.visit_id == b.visit_id) s.status_visit_samples sample_once);
        open_once =
            apart_items o.team_id o.run_id opened
              (All-keep_if
                (λ (a : StatusVisitState). (a.team_id ≡ o.team_id) × (a.run_id ≡ o.run_id))
                (λ a. is_open a.lifecycle) s.status_visits (visit_coordinates s o))
              (unique-Pairwise same_visit_item opened open_apart);
      }
