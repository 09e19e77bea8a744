-- ===== src/Base/Sort.antt =====
-- Rust's slice sorts by a total order: an insertion sort, since a sort's result is determined by
-- the order. The order is a Boolean test with its laws.
use mathlib.Core.Logic.{∥∥₁_elim}
use mathlib.Core.HLevel.{hedberg}
use mathlib.Core.List.{Perm, Permᴰ}
use mathlib.Core.List.Perm
use runix.Base.Tests.{Bool-cases, if◌then◌else◌}
use runix.Base.Lists.{All, length}
use Prim.Native.Nat.{suc}
use mathlib.Core.Path.{◌≡◌, refl, ◌∙◌}
use mathlib.Core.Logic.{◌⊎◌, inl, inr}
use mathlib.Core.Bool.{Bool, true}
use mathlib.Core.List.{List, [], ◌∷◌}
use native.Mathlib.Omega.{arith}

pub record TotalOrder {ℓ} {A : Type ℓ} (le : A → A → Bool) : Type ℓ where
  pub total : (a b : A) → (le a b ≡ true) ⊎ (le b a ≡ true)
  pub trans : (a b c : A) → le a b ≡ true → le b c ≡ true → le a c ≡ true
  pub antisym : (a b : A) → le a b ≡ true → le b a ≡ true → a ≡ b

module _ {ℓ} {A : Type ℓ} (le : A → A → Bool) where
  unfoldable pub insert : A → List A → List A
  insert x [] = x ∷ []
  insert x (y ∷ ys) = if le x y then x ∷ y ∷ ys else y ∷ insert x ys

  unfoldable pub sort : List A → List A
  unfolding insert
  sort [] = []
  sort (x ∷ xs) = insert x (sort xs)

  -- Ascending: each element is at most all that follow.
  abbrev pub IsSorted : List A → Type 0
  IsSorted [] = Unit {0}
  IsSorted (x ∷ xs) = All (λ y. le x y ≡ true) xs × IsSorted xs

  insert-perm : (x : A) (xs : List A) → Perm (insert x xs) (x ∷ xs)
  unfolding insert
  insert-perm x [] = Perm.refl _
  insert-perm x (y ∷ ys) = elim (Bool-cases (le x y)) [
    | inl h ↦ rw h (Perm.refl _)
    | inr h ↦ rw h (Perm.trans (Perm.cons y (insert-perm x ys)) (Perm.swap x y ys))
  ]

  -- Sorting keeps the elements.
  pub sort-perm : (xs : List A) → Perm (sort xs) xs
  unfolding sort
  sort-perm [] = Perm.refl _
  sort-perm (x ∷ xs) = Perm.trans (insert-perm x (sort xs)) (Perm.cons x (sort-perm xs))

  length-insert : (x : A) (xs : List A) → length (insert x xs) ≡ suc (length xs)
  unfolding insert
  length-insert x [] = refl
  length-insert x (y ∷ ys) = ground (arith, length-insert x ys)

  pub length-sort : (xs : List A) → length (sort xs) ≡ length xs
  unfolding sort
  length-sort [] = refl
  length-sort (x ∷ xs) = omega (arith, length-insert x (sort xs), length-sort xs)

  module _ (o : TotalOrder le) where
    All-le_trans :
        (x y : A) (ys : List A)
        → le x y ≡ true
        → All (λ z. le y z ≡ true) ys
        → All (λ z. le x z ≡ true) ys
    All-le_trans x y [] h a = tt
    All-le_trans x y (z ∷ zs) h a = (o.trans x y z h a.0, All-le_trans x y zs h a.1)

    pub All-insert : (P : A → Type 0) (x : A) (ys : List A) → P x → All P ys → All P (insert x ys)
    unfolding insert
    All-insert P x [] h a = (h, tt)
    All-insert P x (y ∷ ys) h a = elim (Bool-cases (le x y)) [
      | inl e ↦ rw e (h, a)
      | inr e ↦ rw e (a.0, All-insert P x ys h a.1)
    ]

    insert-IsSorted : (x : A) (ys : List A) → IsSorted ys → IsSorted (insert x ys)
    unfolding insert
    insert-IsSorted x [] s = (tt, tt)
    insert-IsSorted x (y ∷ ys) s = elim (Bool-cases (le x y)) [
      | inl e ↦ rw e ((e, All-le_trans x y ys e s.0), s)
      | inr e ↦ rw e (
        All-insert (λ z. le y z ≡ true) x ys (elim (o.total x y) [ inl h ↦ cc | inr h ↦ h ]) s.0,
        insert-IsSorted x ys s.1,
      )
    ]

    -- Sorting gives an ascending list.
    pub sort-IsSorted : (xs : List A) → IsSorted (sort xs)
    unfolding sort
    sort-IsSorted [] = tt
    sort-IsSorted (x ∷ xs) = insert-IsSorted x (sort xs) (sort-IsSorted xs)

    insert_comm : (x y : A) (zs : List A) → insert x (insert y zs) ≡ insert y (insert x zs)
    unfolding insert
    insert_comm x y [] = ground (arith, o.total x y, o.antisym x y)
    insert_comm x y (z ∷ zs) = ground (
      arith,
      insert_comm x y zs,
      o.total x y,
      o.antisym x y,
      o.total x z,
      o.total y z,
      o.trans x y z,
      o.trans y x z,
    )

    sort-eq_of_permᴰ : {xs ys : List A} → Permᴰ xs ys → sort xs ≡ sort ys
    unfolding sort
    sort-eq_of_permᴰ Permᴰ.nil = refl
    sort-eq_of_permᴰ (Permᴰ.cons e p) = rw (e, sort-eq_of_permᴰ p)
    sort-eq_of_permᴰ (Permᴰ.swap {a} {b} {l = l} e f) = rw (← e, ← f) (insert_comm a b (sort l))
    sort-eq_of_permᴰ (Permᴰ.trans p q) = sort-eq_of_permᴰ p ∙ sort-eq_of_permᴰ q

    -- The result does not depend on the order of the input.
    pub sort-eq_of_perm : Discrete (List A) → {xs ys : List A} → Perm xs ys → sort xs ≡ sort ys
    sort-eq_of_perm d p = ∥∥₁_elim p (hedberg d _ _) sort-eq_of_permᴰ
