-- ===== src/KernelArm/ReconcileMemory/Fresh.antt =====
-- Which keys `ReconcileMemory::observe` of kernel-arm/src/audit_chain.rs calls fresh.
use runix.Base.{
  Bool, Bool-cases, Bytes, List, [], arith, bytes_eq, bytes_eq_iff, false, inl, inr, length, refl,
  subst, suc, sym, true, zero, ℕ, ◌++◌, ◌↔◌, ◌∷◌, ◌≡◌, ◌⊎◌,
}
use runix.Base.Membership.{In, In-append, any-In, any_of_In}
use runix.KernelArm.ReconcileMemory.{ReconcileMemory, contains, fresh_keys, insert_key, observe}

contains_iff : (set : List Bytes) (k : Bytes) → (contains set k ≡ true) ↔ In k set
contains_iff set k = (
  λ h.
      let (x, m, e) = any-In (λ y. bytes_eq y k) set h in
      subst (λ z. In z set) ((bytes_eq_iff x k).0 e) m,
  λ m. any_of_In (λ y. bytes_eq y k) set k m ((bytes_eq_iff k k).1 refl),
)

In-insert_key : (set : List Bytes) (k x : Bytes) → In x (insert_key set k) ↔ (In x set ⊎ (x ≡ k))
In-insert_key set k x = elim (Bool-cases (contains set k)) [
  | inl t ↦ rw t (
    λ m. inl m,
    elim [ inl m ↦ m | inr e ↦ subst (λ z. In z set) (sym e) ((contains_iff set k).0 t) ],
  )
  | inr f ↦
      let both = In-append x set (k ∷ []) in
      rw f (
        λ m. elim (both.0 m) [
          | inl a ↦ inl a
          | inr b ↦ elim b [ inl e ↦ inr e | inr v ↦ absurd v ]
        ],
        elim [ inl a ↦ both.1 (inl a) | inr e ↦ both.1 (inr (inl e)) ],
      )
]

-- The set after the loop holds the keys before it and those of the pass.
pub fresh_keys-In :
    (prev current keys : List Bytes) (x : Bytes)
    → In x (fresh_keys prev current keys).1 ↔ (In x current ⊎ In x keys)
unfolding fresh_keys
fresh_keys-In prev current [] x = (λ m. inl m, elim [ inl m ↦ m | inr v ↦ absurd v ])
fresh_keys-In prev current (k ∷ keys) x =
    let rest = fresh_keys-In prev (insert_key current k) keys x in
    let here = In-insert_key current k x in
    (
      λ m. elim (rest.0 m) [
        | inl a ↦ elim (here.0 a) [ inl b ↦ inl b | inr e ↦ inr (inl e) ]
        | inr b ↦ inr (inr b)
      ],
      elim [
        | inl a ↦ rest.1 (inl (here.1 (inl a)))
        | inr b ↦ elim b [ inl e ↦ rest.1 (inl (here.1 (inr e))) | inr c ↦ rest.1 (inr c) ]
      ],
    )

-- The flag at a place of the list.
abbrev pub flag_at : List Bool → ℕ → Bool
flag_at [] i = false
flag_at (b ∷ bs) zero = b
flag_at (b ∷ bs) (suc i) = flag_at bs i

fresh_keys_iff :
    (prev current xs : List Bytes) (k : Bytes) (ys : List Bytes)
    → (flag_at (fresh_keys prev current (xs ++ k ∷ ys)).0 (length xs) ≡ true)
      ↔ ((¬ In k prev) × (¬ In k current) × (¬ In k xs))
unfolding fresh_keys
fresh_keys_iff prev current [] k ys =
    let p = contains_iff prev k in
    let c = contains_iff current k in
    (
      λ h.
          (λ m. absurd (ground (arith, p.1 m)), λ m. absurd (ground (arith, c.1 m)), λ v. absurd v),
      λ h. elim (Bool-cases (contains prev k)) [
        | inl t ↦ absurd (h.0 (p.0 t))
        | inr f ↦ elim (Bool-cases (contains current k)) [
          | inl t ↦ absurd (h.1 (c.0 t))
          | inr g ↦ rw (f, g) refl
        ]
      ],
    )
fresh_keys_iff prev current (x ∷ xs) k ys =
    let rest = fresh_keys_iff prev (insert_key current x) xs k ys in
    let here = In-insert_key current x k in
    (
      λ h.
          let (a, b, c) = rest.0 h in
          (a, λ m. b (here.1 (inl m)), elim [ inl e ↦ b (here.1 (inr e)) | inr m ↦ c m ]),
      λ h.
          rest.1
            (h.0, λ m. elim (here.0 m) [ inl a ↦ h.1 a | inr e ↦ h.2 (inl e) ], λ m. h.2 (inr m)),
    )

-- Of two passes in a row, the second calls a key fresh exactly when the first pass did not report it
-- and it stands at no earlier place of the second.
pub observe-fresh_iff :
    (m : ReconcileMemory) (first xs : List Bytes) (k : Bytes) (ys : List Bytes)
    → (flag_at (observe (observe m first).1 (xs ++ k ∷ ys)).0.fresh (length xs) ≡ true)
      ↔ ((¬ In k first) × (¬ In k xs))
unfolding observe
observe-fresh_iff m first xs k ys =
    let flags = fresh_keys_iff (fresh_keys m.prev [] first).1 [] xs k ys in
    let held = fresh_keys-In m.prev [] first k in
    (
      λ h. let (a, b, c) = flags.0 h in (λ i. a (held.1 (inr i)), c),
      λ h. flags.1 (λ i. elim (held.0 i) [ inl v ↦ absurd v | inr j ↦ h.0 j ], λ v. absurd v, h.1),
    )
