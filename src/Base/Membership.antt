-- ===== src/Base/Membership.antt =====
-- Membership with its position kept, counts, and how the list functions act on them.
use mathlib.Core.List.{
  List, [], ◌∷◌, ◌++◌, map, filter_map, filter_map-cons-none, filter_map-cons-some,
}
use mathlib.Core.Path.{◌≡◌, refl, sym, ap, ◌∙◌, subst}
use mathlib.Core.Logic.{◌↔◌, ◌⊎◌, inl, inr}
use mathlib.Core.Bool.{Bool, true}
use mathlib.Core.Option.{Option, some}
use native.Mathlib.Omega.{arith}
use Prim.Native.Nat.{ℕ, suc, ◌≤◌, ◌<◌}
use runix.Base.Tests.{Bool-cases, Option-cases, if◌then◌else◌, leb, ◌==◌}
use runix.Base.Lists.{All, any, length}
use runix.Base.Sort.{insert, sort}

pub ⊎_iff {ℓ κ μ ν} :
    {A : Type ℓ} {B : Type κ} {C : Type μ} {D : Type ν} → A ↔ C → B ↔ D → (A ⊎ B) ↔ (C ⊎ D)
⊎_iff f g = (
  elim [ inl a ↦ inl (f.0 a) | inr b ↦ inr (g.0 b) ],
  elim [ inl c ↦ inl (f.1 c) | inr d ↦ inr (g.1 d) ],
)

module _ {A : Type 0} where
  abbrev pub In : A → List A → Type 0
  In x [] = ⊥
  In x (y ∷ ys) = (x ≡ y) ⊎ In x ys

  pub In-append : (x : A) (xs ys : List A) → In x (xs ++ ys) ↔ (In x xs ⊎ In x ys)
  In-append x [] ys = (λ h. inr h, elim [ inl v ↦ absurd v | inr h ↦ h ])
  In-append x (y ∷ xs) ys = (
    elim [
      | inl e ↦ inl (inl e)
      | inr h ↦ elim ((In-append x xs ys).0 h) [ inl k ↦ inl (inr k) | inr k ↦ inr k ]
    ],
    elim [
      | inl k ↦ elim k [ inl e ↦ inl e | inr h ↦ inr ((In-append x xs ys).1 (inl h)) ]
      | inr h ↦ inr ((In-append x xs ys).1 (inr h))
    ],
  )

  pub All-In {κ} : (P : A → Type κ) (x : A) (xs : List A) → All P xs → In x xs → P x
  All-In P x [] a h = absurd h
  All-In P x (y ∷ ys) a (inl e) = subst P (sym e) a.0
  All-In P x (y ∷ ys) a (inr h) = All-In P x ys a.1 h

  pub any-In : (p : A → Bool) (xs : List A) → any p xs ≡ true → (x : A) × In x xs × (p x ≡ true)
  any-In p [] h = cc
  any-In p (x ∷ xs) h = elim (Bool-cases (p x)) [
    | inl e ↦ (x, inl refl, e)
    | inr e ↦ let (y, m, f) = any-In p xs (ground arith) in (y, inr m, f)
  ]

  pub any_of_In : (p : A → Bool) (xs : List A) (x : A) → In x xs → p x ≡ true → any p xs ≡ true
  any_of_In p [] x m h = absurd m
  any_of_In p (y ∷ ys) x (inl e) h = rw (← e, h)
  any_of_In p (y ∷ ys) x (inr m) h = ground (arith, any_of_In p ys x m h)

module _ {A B : Type 0} where
  pub In-map : (f : A → B) (xs : List A) (b : B) → In b (map f xs) → (a : A) × In a xs × (b ≡ f a)
  In-map f [] b h = absurd h
  In-map f (x ∷ xs) b (inl e) = (x, inl refl, e)
  In-map f (x ∷ xs) b (inr m) = let (a, k, e) = In-map f xs b m in (a, inr k, e)

  pub In-map_of_In : (f : A → B) (xs : List A) (a : A) → In a xs → In (f a) (map f xs)
  In-map_of_In f [] a h = absurd h
  In-map_of_In f (x ∷ xs) a (inl e) = inl (ap f e)
  In-map_of_In f (x ∷ xs) a (inr m) = inr (In-map_of_In f xs a m)

  pub In-filter_map :
      (f : A → Option B) (xs : List A) (b : B)
      → In b (filter_map f xs)
      → (a : A) × In a xs × (f a ≡ some b)
  In-filter_map f [] b h = absurd (unfold filter_map in h)
  In-filter_map f (x ∷ xs) b h = elim (Option-cases (f x)) [
    | inl e ↦
        let (a, k, q) = In-filter_map f xs b (rw (filter_map-cons-none f x xs e) at h) in
        (a, inr k, q)
    | inr (c, e) ↦ elim (rw (filter_map-cons-some f x xs e) at h) [
      | inl q ↦ (x, inl refl, e ∙ ap some (sym q))
      | inr m ↦ let (a, k, q) = In-filter_map f xs b m in (a, inr k, q)
    ]
  ]

  pub In-filter_map_of_In :
      (f : A → Option B) (xs : List A) (a : A) (b : B)
      → In a xs
      → f a ≡ some b
      → In b (filter_map f xs)
  In-filter_map_of_In f [] a b m h = absurd m
  In-filter_map_of_In f (x ∷ xs) a b (inl e) h =
      rw (filter_map-cons-some f x xs (ap f (sym e) ∙ h)) (inl refl)
  In-filter_map_of_In f (x ∷ xs) a b (inr m) h = elim (Option-cases (f x)) [
    | inl e ↦ rw (filter_map-cons-none f x xs e) (In-filter_map_of_In f xs a b m h)
    | inr (c, e) ↦ rw (filter_map-cons-some f x xs e) (inr (In-filter_map_of_In f xs a b m h))
  ]

module _ {A : Type 0} (le : A → A → Bool) where
  pub In-insert : (x y : A) (xs : List A) → In x (insert le y xs) ↔ ((x ≡ y) ⊎ In x xs)
  unfolding insert
  In-insert x y [] = (λ h. h, λ h. h)
  In-insert x y (z ∷ zs) = elim (Bool-cases (le y z)) [
    | inl e ↦ rw e (λ h. h, λ h. h)
    | inr e ↦ rw e (
      elim [
        | inl q ↦ inr (inl q)
        | inr m ↦ elim ((In-insert x y zs).0 m) [ inl q ↦ inl q | inr k ↦ inr (inr k) ]
      ],
      elim [
        | inl q ↦ inr ((In-insert x y zs).1 (inl q))
        | inr k ↦ elim k [ inl q ↦ inl q | inr m ↦ inr ((In-insert x y zs).1 (inr m)) ]
      ],
    )
  ]

  pub In-sort : (x : A) (xs : List A) → In x (sort le xs) ↔ In x xs
  unfolding sort
  In-sort x [] = (λ h. h, λ h. h)
  In-sort x (y ∷ ys) = (
    λ h. elim ((In-insert x y (sort le ys)).0 h) [
      | inl e ↦ inl e
      | inr m ↦ inr ((In-sort x ys).0 m)
    ],
    λ h.
        (In-insert x y (sort le ys)).1
          (elim h [ inl e ↦ inl e | inr m ↦ inr ((In-sort x ys).1 m) ]),
  )

-- How often a number occurs.
abbrev pub occurrences : ℕ → List ℕ → ℕ
occurrences a [] = 0
occurrences a (x ∷ xs) = if x == a then suc (occurrences a xs) else occurrences a xs

occurrences-insert :
    (a x : ℕ) (xs : List ℕ) → occurrences a (insert leb x xs) ≡ occurrences a (x ∷ xs)
unfolding insert
occurrences-insert a x [] = refl
occurrences-insert a x (y ∷ ys) = ground (arith, occurrences-insert a x ys)

pub occurrences-sort : (a : ℕ) (xs : List ℕ) → occurrences a (sort leb xs) ≡ occurrences a xs
unfolding sort
occurrences-sort a [] = refl
occurrences-sort a (x ∷ xs) =
    ground (arith, occurrences-insert a x (sort leb xs), occurrences-sort a xs)

pub occurrences-le-length : (a : ℕ) (xs : List ℕ) → occurrences a xs ≤ length xs
occurrences-le-length a [] = omega arith
occurrences-le-length a (x ∷ xs) = ground (arith, occurrences-le-length a xs)

pub occurrences_pos : (a : ℕ) (xs : List ℕ) → In a xs → 0 < occurrences a xs
occurrences_pos a [] h = absurd h
occurrences_pos a (x ∷ xs) (inl e) = ground arith
occurrences_pos a (x ∷ xs) (inr m) = ground (arith, occurrences_pos a xs m)

pub occurrences_below :
    (a b : ℕ) (xs : List ℕ) → All (λ x. leb b x ≡ true) xs → a < b → occurrences a xs ≡ 0
occurrences_below a b [] h l = refl
occurrences_below a b (x ∷ xs) h l = ground (arith, occurrences_below a b xs h.1)
