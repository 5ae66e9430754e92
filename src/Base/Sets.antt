-- ===== src/Base/Sets.antt =====
-- Python's sets and dictionaries by identifier, over lists: `{f(x) for x in xs}` counts each value
-- once, `{x.id: x for x in xs}` keeps the last of each key.
use Prim.Native.Nat.{ℕ, suc, ◌≤◌}
use mathlib.Core.Path.{◌≡◌, refl, sym, ap, ◌∙◌, subst}
use mathlib.Core.Logic.{inl, inr}
use mathlib.Core.Bool.{Bool, true, false}
use mathlib.Core.Option.{Option, none, some}
use mathlib.Core.List.{List, [], ◌∷◌, ◌++◌, map, Memᴰ}
use native.Mathlib.Omega.{arith}
use jira_simulator.Base.Tests.{◌==◌, Bool-cases, Option-cases, ==→eq, if◌then◌else◌}
use jira_simulator.Base.Lists.{length, All, All-map, All-append, any, any-found, All-at, contains}

module _ {ℓ} {A : Type ℓ} where
  -- The last element that passes the test.
  abbrev pub find_last : (A → Bool) → List A → Option A
  find_last p [] = none
  find_last p (x ∷ xs) = elim (find_last p xs) [
    | none ↦ if p x then some x else none
    | some y ↦ some y
  ]

  -- Each value once; `same` says which values are equal.
  abbrev pub set_of : (A → A → Bool) → List A → List A
  set_of same [] = []
  set_of same (x ∷ xs) = let rest = set_of same xs in if any (same x) rest then rest else x ∷ rest

  -- `len(set(xs)) == len(xs)`
  abbrev pub unique : (A → A → Bool) → List A → Bool
  unique same xs = length (set_of same xs) == length xs

  abbrev pub Pairwise {κ} : (A → A → Type κ) → List A → Type (ℓ ⊔ κ)
  Pairwise R [] = Unit
  Pairwise R (x ∷ xs) = All (R x) xs × Pairwise R xs

  pub length-set_of-le : (same : A → A → Bool) (xs : List A) → length (set_of same xs) ≤ length xs
  length-set_of-le same [] = omega arith
  length-set_of-le same (x ∷ xs) = ground (arith, length-set_of-le same xs)

  pub any-All-false : (p : A → Bool) (xs : List A) → any p xs ≡ false → All (λ x. p x ≡ false) xs
  any-All-false p [] h = tt
  any-All-false p (x ∷ xs) h = (ground (arith, h), any-All-false p xs (ground (arith, h)))

  set_of-whole :
      (same : A → A → Bool) (xs : List A)
      → length (set_of same xs) ≡ length xs
      → set_of same xs ≡ xs
  set_of-whole same [] h = refl
  set_of-whole same (x ∷ xs) h = elim (Bool-cases (any (same x) (set_of same xs))) [
    | inl e ↦
        let shorter : length (set_of same xs) ≡ suc (length xs) = rw e at h in
        ground (arith, shorter, length-set_of-le same xs)
    | inr e ↦
        let same_length : suc (length (set_of same xs)) ≡ suc (length xs) = rw e at h in
        rw e (ap (λ ys. x ∷ ys) (set_of-whole same xs (omega (arith, same_length))))
  ]

  -- In a list that is as long as its set no value equals a later one.
  pub unique-Pairwise :
      (same : A → A → Bool) (xs : List A)
      → unique same xs ≡ true
      → Pairwise (λ x y. same x y ≡ false) xs
  unique-Pairwise same [] h = tt
  unique-Pairwise same (x ∷ xs) h = elim (Bool-cases (any (same x) (set_of same xs))) [
    | inl e ↦
        let shorter : length (set_of same xs) == suc (length xs) ≡ true = rw e at h in
        ground (arith, shorter, length-set_of-le same xs)
    | inr e ↦
        let same_length : suc (length (set_of same xs)) == suc (length xs) ≡ true = rw e at h in
        let whole = set_of-whole same xs (ground (arith, same_length)) in
        (
          any-All-false (same x) xs (subst (λ ys. any (same x) ys ≡ false) whole e),
          unique-Pairwise same xs (ground (arith, same_length)),
        )
  ]

  pub find_last-found :
      (p : A → Bool) (xs : List A) (x : A) → find_last p xs ≡ some x → Memᴰ x xs × (p x ≡ true)
  find_last-found p [] x h = cc
  find_last-found p (y ∷ ys) x h = elim (Option-cases (find_last p ys)) [
    | inr (z, e) ↦
        let found : some z ≡ some x = rw e at h in
        let (m, passes) = find_last-found p ys x (e ∙ found) in (Memᴰ.tail m, passes)
    | inl e ↦ elim (Bool-cases (p y)) [
      | inl passes ↦
          let found : some y ≡ some x = rw (e, passes) at h in
          let same : y ≡ x = cc in (Memᴰ.head (sym same), subst (λ z. p z ≡ true) same passes)
      | inr fails ↦ let found : none ≡ some x = rw (e, fails) at h in cc
    ]
  ]

  pub find_last-none :
      (p : A → Bool) (xs : List A) → find_last p xs ≡ none → All (λ x. p x ≡ false) xs
  find_last-none p [] h = tt
  find_last-none p (y ∷ ys) h = elim (Option-cases (find_last p ys)) [
    | inr (z, e) ↦ let found : some z ≡ none = rw e at h in cc
    | inl e ↦ elim (Bool-cases (p y)) [
      | inl passes ↦ let found : some y ≡ none = rw (e, passes) at h in cc
      | inr fails ↦ (fails, find_last-none p ys e)
    ]
  ]

-- `[y for x in xs for y in f(x)]`
abbrev pub flat_map {ℓ κ} : {A : Type ℓ} {B : Type κ} → (A → List B) → List A → List B
flat_map f [] = []
flat_map f (x ∷ xs) = f x ++ flat_map f xs

abbrev pub concat {ℓ} : {A : Type ℓ} → List (List A) → List A
concat [] = []
concat (xs ∷ rest) = xs ++ concat rest

module _ {ℓ κ} {A : Type ℓ} (P : A → Type κ) where
  pub All-append_inv : (xs ys : List A) → All P (xs ++ ys) → All P xs × All P ys
  All-append_inv [] ys h = (tt, h)
  All-append_inv (x ∷ xs) ys (hx, hs) =
      let (before, after) = All-append_inv xs ys hs in ((hx, before), after)

  pub All-flat_map_inv {μ} :
      {B : Type μ} (f : B → List A) (xs : List B)
      → All P (flat_map f xs)
      → All (λ x. All P (f x)) xs
  All-flat_map_inv f [] h = tt
  All-flat_map_inv f (x ∷ xs) h =
      let (first, rest) = All-append_inv (f x) (flat_map f xs) h in
      (first, All-flat_map_inv f xs rest)

  pub All-flat_map {μ} :
      {B : Type μ} (f : B → List A) (xs : List B)
      → All (λ x. All P (f x)) xs
      → All P (flat_map f xs)
  All-flat_map f [] h = tt
  All-flat_map f (x ∷ xs) (hx, hs) = All-append P (f x) (flat_map f xs) hx (All-flat_map f xs hs)

module _ {ℓ κ} {A : Type ℓ} (P : A → Type κ) where
  pub All-concat_inv : (lists : List (List A)) → All P (concat lists) → All (All P) lists
  All-concat_inv [] h = tt
  All-concat_inv (xs ∷ rest) h =
      let (first, later) = All-append_inv P xs (concat rest) h in (first, All-concat_inv rest later)

  pub All-concat : (lists : List (List A)) → All (All P) lists → All P (concat lists)
  All-concat [] h = tt
  All-concat (xs ∷ rest) (h, hs) = All-append P xs (concat rest) h (All-concat rest hs)

pub set_of-All {κ} : (P : ℕ → Type κ) (xs : List ℕ) → All P xs → All P (set_of ◌==◌ xs)
set_of-All P [] h = tt
set_of-All P (x ∷ xs) (hx, hs) = elim (Bool-cases (any (λ y. x == y) (set_of ◌==◌ xs))) [
  | inl e ↦ rw e (set_of-All P xs hs)
  | inr e ↦ rw e (hx, set_of-All P xs hs)
]

set_of-inhabited : (x : ℕ) (xs : List ℕ) → 1 ≤ length (set_of ◌==◌ (x ∷ xs))
set_of-inhabited x [] = omega arith
set_of-inhabited x (y ∷ ys) = elim (Bool-cases (any (λ z. x == z) (set_of ◌==◌ (y ∷ ys)))) [
  | inl e ↦ rw e (set_of-inhabited y ys)
  | inr e ↦ rw e (omega arith)
]

any-equal : (x y : ℕ) (xs : List ℕ) → any (λ z. x == z) xs ≡ true → All (λ z. z ≡ y) xs → y ≡ x
any-equal x y [] h _ = cc
any-equal x y (z ∷ zs) h (hz, hs) = elim (Bool-cases (x == z)) [
  | inl e ↦ omega (arith, hz, ==→eq x z e)
  | inr e ↦ any-equal x y zs (ground (arith, h, e)) hs
]

-- Numbers of which a set has at most one are all equal.
pub set_of-single : (x : ℕ) (xs : List ℕ) → length (set_of ◌==◌ (x ∷ xs)) ≤ 1 → All (λ y. y ≡ x) xs
set_of-single x [] h = tt
set_of-single x (y ∷ ys) h = elim (Bool-cases (any (λ z. x == z) (set_of ◌==◌ (y ∷ ys)))) [
  | inl e ↦
      let shorter : length (set_of ◌==◌ (y ∷ ys)) ≤ 1 = rw e at h in
      let same = set_of-single y ys shorter in
      let first : y ≡ x =
        any-equal x y (set_of ◌==◌ (y ∷ ys)) e (set_of-All _ (y ∷ ys) (refl, same)) in
      (first, All-map ys (λ z hz. hz ∙ first) same)
  | inr e ↦
      let longer : suc (length (set_of ◌==◌ (y ∷ ys))) ≤ 1 = rw e at h in
      let false_order : 2 ≤ 1 = omega (arith, longer, set_of-inhabited y ys) in
      let impossible : true ≡ false = ground (arith, false_order) in cc (impossible)
]

pub single_value :
    (xs : List ℕ) → length (set_of ◌==◌ xs) ≤ 1 → (value : ℕ) × All (λ y. y ≡ value) xs
single_value [] h = (0, tt)
single_value (x ∷ xs) h = (x, (refl, set_of-single x xs h))

pub All-map_inv {ℓ κ μ} :
    {A : Type ℓ} {B : Type κ} (P : B → Type μ) (f : A → B) (xs : List A)
    → All P (map f xs)
    → All (λ x. P (f x)) xs
All-map_inv P f [] h = tt
All-map_inv P f (x ∷ xs) (hx, hs) = (hx, All-map_inv P f xs hs)

-- An identifier that is one of those of a list's elements.
pub contains-found {ℓ} :
    {A : Type ℓ} (id_of : A → ℕ) (xs : List A) (wanted : ℕ)
    → contains (map id_of xs) wanted ≡ true
    → (x : A) × Memᴰ x xs × (id_of x ≡ wanted)
contains-found id_of [] wanted h = cc
contains-found id_of (x ∷ xs) wanted h = elim (Bool-cases (id_of x == wanted)) [
  | inl e ↦ (x, Memᴰ.head refl, ==→eq (id_of x) wanted e)
  | inr e ↦
      let (y, m, named) = contains-found id_of xs wanted (ground (arith, h, e)) in
      (y, Memᴰ.tail m, named)
]

pub map-All {ℓ κ μ} :
    {A : Type ℓ} {B : Type κ} (P : B → Type μ) (f : A → B) (xs : List A)
    → All (λ x. P (f x)) xs
    → All P (map f xs)
map-All P f [] h = tt
map-All P f (x ∷ xs) (hx, hs) = (hx, map-All P f xs hs)

-- What holds of the values of a set holds of every element.
pub All-set_of_inv {κ} : (P : ℕ → Type κ) (xs : List ℕ) → All P (set_of ◌==◌ xs) → All P xs
All-set_of_inv P [] h = tt
All-set_of_inv P (x ∷ xs) h = elim (Bool-cases (any (λ y. x == y) (set_of ◌==◌ xs))) [
  | inl e ↦
      let later = rw e at h in
      let (y, m, same) = any-found (λ y. x == y) (set_of ◌==◌ xs) e in
      let here : P y = All-at P (set_of ◌==◌ xs) later m in
      (subst P (sym (==→eq x y same)) here, All-set_of_inv P xs later)
  | inr e ↦ let (first, later) = rw e at h in (first, All-set_of_inv P xs later)
]

-- Two elements of a list whose keys differ throughout are one when theirs are equal.
pub same_key {ℓ} :
    {A : Type ℓ} (key : A → ℕ) (xs : List A)
    → Pairwise (λ v w. key v == key w ≡ false) xs
    → {a b : A} → Memᴰ a xs
    → Memᴰ b xs
    → key a ≡ key b
    → a ≡ b
same_key key [] _ m _ e = elim m [ ]
same_key key (x ∷ xs) (h, rest) (Memᴰ.head p) (Memᴰ.head q) e = p ∙ sym q
same_key key (x ∷ xs) (h, rest) (Memᴰ.tail m) (Memᴰ.tail m') e = same_key key xs rest m m' e
same_key key (x ∷ xs) (h, rest) {b = b} (Memᴰ.head p) (Memᴰ.tail m) e =
    let apart : key x == key b ≡ false = All-at _ xs h m in
    let same : key x ≡ key b = ap key (sym p) ∙ e in
    let impossible : true ≡ false = ground (arith, apart, same) in cc (impossible)
same_key key (x ∷ xs) (h, rest) {a = a} (Memᴰ.tail m) (Memᴰ.head q) e =
    let apart : key x == key a ≡ false = All-at _ xs h m in
    let same : key x ≡ key a = ap key (sym q) ∙ sym e in
    let impossible : true ≡ false = ground (arith, apart, same) in cc (impossible)
