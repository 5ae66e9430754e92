-- ===== src/Engine/Members/Free.antt =====
-- Which member is found for an issue, and when none is.
use jira_simulator.Base.{
  ℕ, zero, suc, ◌<◌, ◌≡◌, refl, sym, ap, subst, ◌⊎◌, inl, inr, String, true, false, Option, none,
  some, List, [], ◌∷◌, Memᴰ, arith, All, All-map, All-zip, All-keep_if, All-of_keep_if, All-Memᴰ,
  any, any-found, keep_if_nil, get_elem?, length, str_eq, eq_iff, opt_eq, ==→eq, ◌||◌,
}
use jira_simulator.Engine.{Runtime}
use jira_simulator.Engine.Members.{
  MemberTickState, is_available, candidates, draw_from, find_available_member,
}

-- A member that may work on the issue: not busy in the tick, of one of the roles, and with no other
-- issue assigned.
pub record IsFree (roles : List String) (issue_id : ℕ) (s : MemberTickState) : Type 0 where
  pub idle : s.busy_this_tick ≡ false
  pub qualified : Memᴰ s.role roles
  pub unassigned : (s.assigned_issue_id ≡ none) ⊎ (s.assigned_issue_id ≡ some issue_id)

-- What is found: a free member of the states, or none where there is none.
abbrev pub IsChoice : List MemberTickState → List String → ℕ → Option MemberTickState → Type 0
IsChoice states roles issue_id none = All (λ s. ¬ IsFree roles issue_id s) states
IsChoice states roles issue_id (some s) = Memᴰ s states × IsFree roles issue_id s

assigned_lem :
    (a : Option ℕ) (issue_id : ℕ)
    → (opt_eq a none || opt_eq a (some issue_id)) ≡ true
    → (a ≡ none) ⊎ (a ≡ some issue_id)
assigned_lem none issue_id h = inl refl
assigned_lem (some b) issue_id h = inr (ap some (==→eq b issue_id h))

assigned_back :
    (a : Option ℕ) (issue_id : ℕ)
    → (a ≡ none) ⊎ (a ≡ some issue_id)
    → (opt_eq a none || opt_eq a (some issue_id)) ≡ true
assigned_back none issue_id h = refl
assigned_back (some b) issue_id (inl e) = cc
assigned_back (some b) issue_id (inr e) = let same : b ≡ issue_id = cc in ground (arith, same)

any_Mem :
    (role : String) (roles : List String) → Memᴰ role roles → any (λ r. str_eq r role) roles ≡ true
any_Mem role [] m = elim m [ ]
any_Mem role (r ∷ roles) (Memᴰ.head p) =
    let same : str_eq r role ≡ true = (eq_iff r role).1 (sym p) in rw same refl
any_Mem role (r ∷ roles) (Memᴰ.tail m) = let later = any_Mem role roles m in ground (arith, later)

available-IsFree :
    (roles : List String) (issue_id : ℕ) (s : MemberTickState)
    → is_available roles issue_id s ≡ true
    → IsFree roles issue_id s
available-IsFree roles issue_id s h =
    let idle : s.busy_this_tick ≡ false = ground (arith, h) in
    let role : any (λ r. str_eq r s.role) roles ≡ true = ground (arith, h) in
    let assigned : (opt_eq s.assigned_issue_id none || opt_eq s.assigned_issue_id (some issue_id))
        ≡ true =
      ground (arith, h) in
    let (r, m, same) = any-found (λ r. str_eq r s.role) roles role in
    record {
      idle = idle;
      qualified = subst (λ x. Memᴰ x roles) ((eq_iff r s.role).0 same) m;
      unassigned = assigned_lem s.assigned_issue_id issue_id assigned;
    }

busy-not-IsFree :
    (roles : List String) (issue_id : ℕ) (s : MemberTickState)
    → is_available roles issue_id s ≡ false
    → ¬ IsFree roles issue_id s
busy-not-IsFree roles issue_id s h free =
    let role = any_Mem s.role roles free.qualified in
    let assigned = assigned_back s.assigned_issue_id issue_id free.unassigned in
    let available : is_available roles issue_id s ≡ true = rw (free.idle, role, assigned) refl in
    let impossible : true ≡ false = cc in cc (impossible)

get_elem?-All {κ} :
    (P : MemberTickState → Type κ) (xs : List MemberTickState) (n : ℕ)
    → All P xs
    → n < length xs
    → (x : MemberTickState) × (get_elem? xs n ≡ some x) × P x
get_elem?-All P [] n h e = let impossible : true ≡ false = ground (arith, e) in cc (impossible)
get_elem?-All P (y ∷ ys) zero (h, hs) e = (y, refl, h)
get_elem?-All P (y ∷ ys) (suc n) (h, hs) e = get_elem?-All P ys n hs (omega (arith, e))

module _ (R : Runtime) where
  draw_from-some :
      (P : MemberTickState → Type 0) (c : MemberTickState) (cs : List MemberTickState) (rng : R.Rng)
      → All P (c ∷ cs)
      → (x : MemberTickState) × ((draw_from R (c ∷ cs) rng).0 ≡ some x) × P x
  draw_from-some P c cs rng h =
      get_elem?-All P (c ∷ cs) (R.choice (length (c ∷ cs)) rng).0 h
        (R.choice_range (length (c ∷ cs)) rng (omega arith))

  -- The member that is found for an issue is one of the states, not busy in the tick, of one of the
  -- roles and assigned to no other issue; none is found exactly when no member of the states is so.
  pub find_available_member-IsChoice :
      (states : List MemberTickState) (roles : List String) (issue_id : ℕ) (rng : R.Rng)
      → IsChoice states roles issue_id (find_available_member R states roles issue_id rng).0
  unfolding find_available_member
  find_available_member-IsChoice states roles issue_id rng =
      go (candidates states roles issue_id) refl
    where
      go :
          (cs : List MemberTickState)
          → candidates states roles issue_id ≡ cs
          → IsChoice states roles issue_id (draw_from R cs rng).0
      go [] e =
          All-map states (busy-not-IsFree roles issue_id)
            (keep_if_nil (is_available roles issue_id) states e)
      go (c ∷ cs) e =
          let known : All (λ s. Memᴰ s states × IsFree roles issue_id s) (c ∷ cs) =
            subst (All (λ s. Memᴰ s states × IsFree roles issue_id s)) e (
              All-zip _ _ (candidates states roles issue_id)
                (All-keep_if (λ s. Memᴰ s states) (is_available roles issue_id) states
                  (All-Memᴰ states))
                (All-of_keep_if (IsFree roles issue_id) (is_available roles issue_id)
                  (available-IsFree roles issue_id) states)) in
          let (x, found, good) = draw_from-some _ c cs rng known in
          subst (IsChoice states roles issue_id) (sym found) good
