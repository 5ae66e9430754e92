-- ===== src/Base/Sort.antt =====
-- Python's `sorted` and SQL's `order by`: a stable sort by a Boolean order.
use mathlib.Core.Path.{◌≡◌}
use mathlib.Core.Logic.{inl, inr}
use mathlib.Core.Bool.{Bool, true, false}
use mathlib.Core.List.{List, [], ◌∷◌, Perm}
use mathlib.Core.List.Perm
use jira_simulator.Base.Tests.{if◌then◌else◌, Bool-cases}
use jira_simulator.Base.Lists.{All}

module _ {ℓ} {A : Type ℓ} (le : A → A → Bool) where
  -- Before the first element that does not stand before `x`.
  abbrev pub insert_by : A → List A → List A
  insert_by x [] = x ∷ []
  insert_by x (y ∷ ys) = let rest = insert_by x ys in if le x y then x ∷ y ∷ ys else y ∷ rest

  abbrev pub sort_by : List A → List A
  sort_by [] = []
  sort_by (x ∷ xs) = insert_by x (sort_by xs)

  abbrev pub Sorted : List A → Type ℓ
  Sorted [] = Unit
  Sorted (x ∷ xs) = All (λ y. le x y ≡ true) xs × Sorted xs

  pub insert_by-perm : (x : A) (xs : List A) → Perm (insert_by x xs) (x ∷ xs)
  insert_by-perm x [] = Perm.rfl
  insert_by-perm x (y ∷ ys) = elim (Bool-cases (le x y)) [
    | inl e ↦ rw e Perm.rfl
    | inr e ↦ rw e (Perm.trans (Perm.cons y (insert_by-perm x ys)) (Perm.swap x y ys))
  ]

  pub sort_by-perm : (xs : List A) → Perm (sort_by xs) xs
  sort_by-perm [] = Perm.rfl
  sort_by-perm (x ∷ xs) = Perm.trans (insert_by-perm x (sort_by xs)) (Perm.cons x (sort_by-perm xs))

  module _ {κ} (P : A → Type κ) where
    pub insert_by-All : (x : A) (xs : List A) → P x → All P xs → All P (insert_by x xs)
    insert_by-All x [] h hs = (h, tt)
    insert_by-All x (y ∷ ys) h (hy, hs) = elim (Bool-cases (le x y)) [
      | inl e ↦ rw e (h, (hy, hs))
      | inr e ↦ rw e (hy, insert_by-All x ys h hs)
    ]

    pub sort_by-All : (xs : List A) → All P xs → All P (sort_by xs)
    sort_by-All [] h = tt
    sort_by-All (x ∷ xs) (h, hs) = insert_by-All x (sort_by xs) h (sort_by-All xs hs)

    All-insert_by : (x : A) (xs : List A) → All P (insert_by x xs) → P x × All P xs
    All-insert_by x [] (h, _) = (h, tt)
    All-insert_by x (y ∷ ys) h = elim (Bool-cases (le x y)) [
      | inl e ↦ let (hx, hs) = rw e at h in (hx, hs)
      | inr e ↦ let (hy, hs) = rw e at h in let (hx, hr) = All-insert_by x ys hs in (hx, (hy, hr))
    ]

    pub All-sort_by : (xs : List A) → All P (sort_by xs) → All P xs
    All-sort_by [] h = tt
    All-sort_by (x ∷ xs) h =
        let (hx, hs) = All-insert_by x (sort_by xs) h in (hx, All-sort_by xs hs)

  module _ (total : (x y : A) → le x y ≡ false → le y x ≡ true)
      (trans : (x y z : A) → le x y ≡ true → le y z ≡ true → le x z ≡ true) where
    below :
        (x y : A) (ys : List A)
        → le x y ≡ true
        → All (λ z. le y z ≡ true) ys
        → All (λ z. le x z ≡ true) ys
    below x y [] h _ = tt
    below x y (z ∷ zs) h (hz, hs) = (trans x y z h hz, below x y zs h hs)

    insert_by-Sorted : (x : A) (xs : List A) → Sorted xs → Sorted (insert_by x xs)
    insert_by-Sorted x [] h = (tt, tt)
    insert_by-Sorted x (y ∷ ys) (hy, hs) = elim (Bool-cases (le x y)) [
      | inl e ↦ rw e ((e, below x y ys e hy), (hy, hs))
      | inr e ↦
          rw e (insert_by-All (λ z. le y z ≡ true) x ys (total x y e) hy, insert_by-Sorted x ys hs)
    ]

    pub sort_by-Sorted : (xs : List A) → Sorted (sort_by xs)
    sort_by-Sorted [] = tt
    sort_by-Sorted (x ∷ xs) = insert_by-Sorted x (sort_by xs) (sort_by-Sorted xs)
