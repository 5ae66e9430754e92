-- ===== src/Base/Increasing.antt =====
-- Increasing lists of numbers.
use Prim.Native.Nat.{ℕ, ◌<◌}
use mathlib.Core.Path.{◌≡◌}
use mathlib.Core.Logic.{◌≢◌, inl, inr}
use mathlib.Core.Bool.{true, false}
use mathlib.Core.List.{List, [], ◌∷◌}
use native.Mathlib.Omega.{arith}
use jira_simulator.Base.Tests.{leb, leb→le, leb-false→lt, ◌==◌, Bool-cases}
use jira_simulator.Base.Lists.{All, All-map, any}
use jira_simulator.Base.Sort.{sort_by, insert_by, insert_by-All, sort_by-All}
use jira_simulator.Base.Sets.{Pairwise, set_of, any-All-false}

abbrev pub Strict : List ℕ → Type 0
Strict xs = Pairwise (λ a b. a < b) xs

insert-Strict :
    (x : ℕ) (ys : List ℕ) → Strict ys → All (λ y. x ≢ y) ys → Strict (insert_by leb x ys)
insert-Strict x [] _ _ = (tt, tt)
insert-Strict x (y ∷ ys) (hy, hs) (apart, others) = elim (Bool-cases (leb x y)) [
  | inl e ↦
      let below : x < y = omega (arith, leb→le x y e, apart) in
      rw e ((below, All-map ys (λ z above. omega (arith, below, above)) hy), (hy, hs))
  | inr e ↦
      rw e
        (insert_by-All leb (λ z. y < z) x ys (leb-false→lt x y e) hy, insert-Strict x ys hs others)
]

pub sort-Strict : (xs : List ℕ) → Pairwise (λ a b. a ≢ b) xs → Strict (sort_by leb xs)
sort-Strict [] _ = tt
sort-Strict (x ∷ xs) (h, hs) =
    insert-Strict x (sort_by leb xs) (sort-Strict xs hs) (sort_by-All leb (λ y. x ≢ y) xs h)

-- The values of a set differ.
pub set_of-apart : (xs : List ℕ) → Pairwise (λ a b. a ≢ b) (set_of ◌==◌ xs)
set_of-apart [] = tt
set_of-apart (x ∷ xs) = elim (Bool-cases (any (λ y. x == y) (set_of ◌==◌ xs))) [
  | inl e ↦ rw e (set_of-apart xs)
  | inr e ↦
      let apart =
        All-map (set_of ◌==◌ xs)
          (λ y different same.
            let impossible : true ≡ false = ground (arith, different, same) in cc (impossible))
          (any-All-false (λ y. x == y) (set_of ◌==◌ xs) e) in
      rw e (apart, set_of-apart xs)
]
