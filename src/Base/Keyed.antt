-- ===== src/Base/Keyed.antt =====
-- Tables that are searched by a number in each entry: the first entry with the number counts.
use Prim.Native.Nat.{ℕ}
use mathlib.Core.Path.{◌≡◌, ◌∙◌, ap, refl, subst, sym}
use mathlib.Core.Logic.{inl, inr}
use mathlib.Core.Bool.{Bool, false, true}
use mathlib.Core.Option
use mathlib.Core.Option.{Option, none, some}
use mathlib.Core.List.{List, [], ◌∷◌, ◌++◌}
use native.Mathlib.Omega.{arith}
use runix.Base.Tests.{==-refl, ==_iff, Bool-cases, if◌then◌else◌, ◌==◌}
use runix.Base.Lists.{All, find, keep, update_first}

module _ {A : Type 0} (key : A → ℕ) where
  -- The first entry with the number.
  abbrev pub at : ℕ → List A → Option A
  at account = find (λ e. key e == account)

  pub at-update_first :
      (f : A → A) (a c : ℕ) (xs : List A)
      → ((e : A) → key (f e) ≡ key e)
      → at c (update_first (λ e. key e == a) f xs)
        ≡ (if a == c then Option.map f (at c xs) else at c xs)
  at-update_first f a c [] h = ground arith
  at-update_first f a c (x ∷ xs) h = ground (arith, h x, at-update_first f a c xs h)

  pub at_push :
      (a c : ℕ) (e : A) (xs : List A)
      → key e ≡ a
      → at a xs ≡ none
      → at c (xs ++ e ∷ []) ≡ (if a == c then some e else at c xs)
  at_push a c e [] k h = ground arith
  at_push a c e (x ∷ xs) k h = ground (arith, at_push a c e xs k)

  -- No number stands in two entries.
  abbrev pub Distinct : List A → Type 0
  Distinct [] = Unit {0}
  Distinct (x ∷ xs) = (at (key x) xs ≡ none) × Distinct xs

  at-update_first-none :
      (f : A → A) (a c : ℕ) (xs : List A)
      → ((e : A) → key (f e) ≡ key e)
      → at c xs ≡ none
      → at c (update_first (λ e. key e == a) f xs) ≡ none
  at-update_first-none f a c [] h n = refl
  at-update_first-none f a c (x ∷ xs) h n = ground (arith, h x, at-update_first-none f a c xs h)

  pub Distinct-update_first :
      (f : A → A) (a : ℕ) (xs : List A)
      → ((e : A) → key (f e) ≡ key e)
      → Distinct xs
      → Distinct (update_first (λ e. key e == a) f xs)
  Distinct-update_first f a [] h d = tt
  Distinct-update_first f a (x ∷ xs) h d =
      ground
        (arith, h x, Distinct-update_first f a xs h d.1, at-update_first-none f a (key x) xs h d.0)

  pub Distinct-push :
      (a : ℕ) (e : A) (xs : List A)
      → key e ≡ a
      → at a xs ≡ none
      → Distinct xs
      → Distinct (xs ++ e ∷ [])
  Distinct-push a e [] k n d = (refl, tt)
  Distinct-push a e (x ∷ xs) k n d =
      (ground (arith, at_push a (key x) e xs k), Distinct-push a e xs k (ground arith) d.1)

pub All-at :
    {A : Type 0} (key : A → ℕ) (P : A → Type 0) (a : ℕ) (xs : List A) (x : A)
    → at key a xs ≡ some x
    → All P xs
    → P x × (key x ≡ a)
All-at key P a [] x e h = absurd (ground arith)
All-at key P a (y ∷ xs) x e h = elim (Bool-cases (key y == a)) [
  | inl q ↦
      let same : y ≡ x = ground arith in
      (subst P same h.0, ap key (sym same) ∙ (==_iff (key y) a).0 q)
  | inr q ↦ All-at key P a xs x (ground arith) h.1
]

module _ {A : Type 0} (key : A → ℕ) (p : A → Bool) where
  pub at-keep-none : (a : ℕ) (xs : List A) → at key a xs ≡ none → at key a (keep p xs) ≡ none
  at-keep-none a [] h = refl
  at-keep-none a (x ∷ xs) h = ground (arith, at-keep-none a xs)

  pub at-keep :
      (a : ℕ) (xs : List A) (x : A)
      → at key a xs ≡ some x
      → p x ≡ true
      → at key a (keep p xs) ≡ some x
  at-keep a [] x h q = absurd (ground arith)
  at-keep a (y ∷ xs) x h q = ground (arith, at-keep a xs x)

  pub at-keep-gone :
      (a : ℕ) (xs : List A) (x : A)
      → at key a xs ≡ some x
      → p x ≡ false
      → Distinct key xs
      → at key a (keep p xs) ≡ none
  at-keep-gone a [] x h q d = refl
  at-keep-gone a (y ∷ xs) x h q d = elim (Bool-cases (key y == a)) [
    | inl e ↦
        let same : y ≡ x = ground arith in
        let absent : at key a xs ≡ none =
          subst (λ k. at key k xs ≡ none) ((==_iff (key y) a).0 e) d.0 in
        ground (arith, ap p same, at-keep-none a xs absent)
    | inr e ↦ ground (arith, at-keep-gone a xs x (ground arith) q d.1)
  ]

  pub Distinct-keep : (xs : List A) → Distinct key xs → Distinct key (keep p xs)
  Distinct-keep [] d = tt
  Distinct-keep (x ∷ xs) d = elim (Bool-cases (p x)) [
    | inl e ↦ rw (e) (at-keep-none (key x) xs d.0, Distinct-keep xs d.1)
    | inr e ↦ rw (e) (Distinct-keep xs d.1)
  ]

-- The value of one number replaced, that of all others kept.
abbrev pub updated {ℓ} : {B : Type ℓ} → (ℕ → B) → ℕ → B → ℕ → B
updated view a b c = if a == c then b else view c

pub updated_here {ℓ} : {B : Type ℓ} (view : ℕ → B) (a : ℕ) (b : B) → updated view a b a ≡ b
updated_here view a b = rw (==-refl a) refl

-- A view of a table: what is read of the entry that a search finds.
module _ {A B : Type 0} (key : A → ℕ) (out : Option A → B) where
  abbrev pub viewed : List A → ℕ → B
  viewed xs c = out (at key c xs)

  pub viewed-update_first :
      (f : A → A) (a c : ℕ) (xs : List A) (u : A)
      → ((e : A) → key (f e) ≡ key e)
      → at key a xs ≡ some u
      → viewed (update_first (λ e. key e == a) f xs) c ≡ updated (viewed xs) a (out (some (f u))) c
  viewed-update_first f a c xs u h e = elim (Bool-cases (a == c)) [
    | inl t ↦
        let same : at key c xs ≡ some u = subst (λ z. at key z xs ≡ some u) ((==_iff a c).0 t) e in
        rw (at-update_first key f a c xs h, t, same)
    | inr t ↦ rw (at-update_first key f a c xs h, t)
  ]

  pub viewed_push :
      (a c : ℕ) (e : A) (xs : List A)
      → key e ≡ a
      → at key a xs ≡ none
      → viewed (xs ++ e ∷ []) c ≡ updated (viewed xs) a (out (some e)) c
  viewed_push a c e xs k h = elim (Bool-cases (a == c)) [
    | inl t ↦ rw (at_push key a c e xs k h, t)
    | inr t ↦ rw (at_push key a c e xs k h, t)
  ]
