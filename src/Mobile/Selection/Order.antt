-- ===== src/Mobile/Selection/Order.antt =====
-- mobile/src/selection.rs: the order of the ranks.
use runix.Base.{
  Bool, Bool-cases, ap₂, arith, false, inl, inr, refl, sym, true, ℕ, ◌<◌, ◌↔◌, ◌≡◌, ◌⊎◌,
}
use runix.Mobile.Selection.{NetworkId, Rank, outranks}

-- One rank is above another: it is preferred and the other not, or neither counts more there and it is at
-- home and the other not, or it is as near and stronger, or as strong and its network's codes are lower.
abbrev pub IsAbove : Rank → Rank → Type 0
IsAbove a b =
    ((a.preferred_one ≡ true) × (b.preferred_one ≡ false))
    ⊎ ((a.preferred_one ≡ b.preferred_one)
        × (((a.home_one ≡ true) × (b.home_one ≡ false))
            ⊎ ((a.home_one ≡ b.home_one)
                × ((b.strength < a.strength)
                    ⊎ ((a.strength ≡ b.strength)
                        × ((a.lowest.mcc < b.lowest.mcc)
                            ⊎ ((a.lowest.mcc ≡ b.lowest.mcc) × (a.lowest.mnc < b.lowest.mnc))))))))

flags_differ : (x y : Bool) → ((x ≡ true) × (y ≡ false)) ⊎ ((x ≡ y) ⊎ ((x ≡ false) × (y ≡ true)))
flags_differ true true = inr (inl refl)
flags_differ true false = inl (refl, refl)
flags_differ false true = inr (inr (refl, refl))
flags_differ false false = inr (inl refl)

numbers_differ : (m n : ℕ) → (m < n) ⊎ ((m ≡ n) ⊎ (n < m))
numbers_differ m n = ground arith

pub outranks-IsAbove : (a b : Rank) → outranks a b ≡ true → IsAbove a b
unfolding outranks
outranks-IsAbove a b h = elim (flags_differ a.preferred_one b.preferred_one) [
  | inl e ↦ inl e
  | inr (inr e) ↦ absurd (ground arith)
  | inr (inl e) ↦ inr (
    e,
    elim (flags_differ a.home_one b.home_one) [
      | inl f ↦ inl f
      | inr (inr f) ↦ absurd (ground arith)
      | inr (inl f) ↦ inr (
        f,
        elim (numbers_differ b.strength a.strength) [
          | inl g ↦ inl g
          | inr (inr g) ↦ absurd (ground arith)
          | inr (inl g) ↦ inr (
            sym g,
            elim (numbers_differ a.lowest.mcc b.lowest.mcc) [
              | inl k ↦ inl k
              | inr (inr k) ↦ absurd (ground arith)
              | inr (inl k) ↦ inr (k, ground arith)
            ],
          )
        ],
      )
    ],
  )
]

pub outranks_iff : (a b : Rank) → (outranks a b ≡ true) ↔ IsAbove a b
unfolding outranks
outranks_iff a b = (outranks-IsAbove a b, λ h. ground arith)

pub outranks_not : (a b : Rank) → (outranks a b ≡ false) ↔ (¬ (IsAbove a b))
outranks_not a b = (
  λ h above. absurd (ground (arith, (outranks_iff a b).1 above)),
  λ h. elim (Bool-cases (outranks a b)) [ inl e ↦ absurd (h ((outranks_iff a b).0 e)) | inr e ↦ e ],
)

-- What outranks one that a third does not outrank is not outranked by the third.
pub outranks_trans :
    (a b c : Rank) → outranks c b ≡ true → outranks a b ≡ false → outranks a c ≡ false
unfolding outranks
outranks_trans a b c h k = ground arith

network_ext : (a b : NetworkId) → a.mcc ≡ b.mcc → a.mnc ≡ b.mnc → a ≡ b
network_ext a b p q = ap₂ (λ x y. record { mcc = x; mnc = y }) p q

rank_ext :
    (a b : Rank)
    → a.preferred_one ≡ b.preferred_one
    → a.home_one ≡ b.home_one
    → a.strength ≡ b.strength
    → a.lowest ≡ b.lowest
    → a ≡ b
rank_ext a b p h s l =
    ap₂
      (λ (x : Bool × Bool) (y : ℕ × NetworkId). record {
        preferred_one = x.0;
        home_one = x.1;
        strength = y.0;
        lowest = y.1;
      })
      (ap₂ (λ x y. (x, y)) p h) (ap₂ (λ x y. (x, y)) s l)

-- Two ranks of which neither outranks the other are the same.
pub outranks_antisym : (a b : Rank) → outranks a b ≡ false → outranks b a ≡ false → a ≡ b
unfolding outranks
outranks_antisym a b h k =
    rank_ext a b (ground arith) (ground arith) (ground arith)
      (network_ext a.lowest b.lowest (ground arith) (ground arith))
