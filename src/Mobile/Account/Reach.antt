-- ===== src/Mobile/Account/Reach.antt =====
-- Histories of the registry of mobile/src/account.rs together with the profiles' lifecycles.
use runix.Base.{
  All, Bool-cases, List, [], arith, err, false, if◌then◌else◌, inl, inr, none, ok, refl, some,
  subst, sym, true, ◌∷◌, ◌≡◌,
}
use runix.Mobile.Account.{
  AccountError, AccountId, AccountRegistry, Applied, Change, ProfileKey, ProfileLifecycle,
  ProfileLifecycles, account, apply, apply_bind, apply_open, apply_status, apply_unbind, audit,
  binds, breaks_policy, check_enable, enabled, inactive, is_enabled, key_eq, new, opens, owner_in,
  sets_status, unbinds,
}
use runix.Mobile.Account.Valid.{DistinctKeys, IsValid, apply-IsValid, new-IsValid}
use runix.Mobile.Account.Audit.{All-breaks, Clean, apply-Clean, audit_iff, disable_all}

pub record World : Type 0 where
  pub registry : AccountRegistry
  pub lifecycles : ProfileLifecycles

unfoldable pub set_lifecycle : ProfileKey → ProfileLifecycle → ProfileLifecycles → ProfileLifecycles
set_lifecycle profile s lc k = if key_eq k profile then some s else lc k

-- A change with the forced disables that its caller carries out, a profile that is enabled after
-- `check_enable` has passed, and a profile that takes any other state on its own.
pub data Step : World → World → Type 0 where
  changes :
      (w : World) (c : Change) (applied : Applied)
      → (apply w.registry c w.lifecycles).0 ≡ ok applied
      → Step w (record {
        registry = (apply w.registry c w.lifecycles).1;
        lifecycles = disable_all applied.force_disable w.lifecycles;
      })
  refused :
      (w : World) (c : Change) (e : AccountError)
      → (apply w.registry c w.lifecycles).0 ≡ err e
      → Step w (record w { registry = (apply w.registry c w.lifecycles).1 })
  enables :
      (w : World) (id : AccountId) (profile : ProfileKey)
      → check_enable w.registry id profile ≡ ok tt
      → Step w (record w { lifecycles = set_lifecycle profile enabled w.lifecycles })
  moves :
      (w : World) (profile : ProfileKey) (s : ProfileLifecycle)
      → is_enabled s ≡ false
      → Step w (record w { lifecycles = set_lifecycle profile s w.lifecycles })

pub data Reach (w : World) : World → Type 0 where
  here : Reach w w
  next : {u v : World} → Reach w u → Step u v → Reach w v

-- A refused change leaves the registry as it was.
pub refused-eq_self :
    (r : AccountRegistry) (c : Change) (lc : ProfileLifecycles) (e : AccountError)
    → (apply r c lc).0 ≡ err e
    → (apply r c lc).1 ≡ r
unfolding apply apply_open apply_bind apply_unbind apply_status
refused-eq_self r (opens subscriber plan) lc e h = ground arith
refused-eq_self r (binds id profile) lc e h = ground arith
refused-eq_self r (unbinds profile) lc e h = ground arith
refused-eq_self r (sets_status id to) lc e h = ground arith

-- A passed `check_enable`: the profile's owner is the account, which is active.
check_enable_ok :
    (r : AccountRegistry) (id : AccountId) (profile : ProfileKey)
    → check_enable r id profile ≡ ok tt
    → (owner_in profile r.bindings ≡ some id) × (inactive (account r id) ≡ false)
unfolding check_enable inactive
check_enable_ok r id profile h = ground arith

not_bound_apart :
    (j profile : ProfileKey) (xs : List (ProfileKey × AccountId))
    → owner_in profile xs ≡ none
    → key_eq j profile ≡ true
    → owner_in j xs ≡ none
unfolding owner_in
not_bound_apart j profile [] h e = refl
not_bound_apart j profile ((k, a) ∷ xs) h e = ground (arith, not_bound_apart j profile xs)

module _ (r : AccountRegistry) (profile : ProfileKey) (lc : ProfileLifecycles) where
  enable_unbound :
      (xs : List (ProfileKey × AccountId))
      → owner_in profile xs ≡ none
      → All (λ b. breaks_policy r lc b ≡ false) xs
      → All (λ b. breaks_policy r (set_lifecycle profile enabled lc) b ≡ false) xs
  unfolding breaks_policy set_lifecycle owner_in
  enable_unbound [] o h = tt
  enable_unbound ((k, a) ∷ xs) o h = (ground (arith, h.0), enable_unbound xs (ground arith) h.1)

  enable_bound :
      (id : AccountId) (xs : List (ProfileKey × AccountId))
      → inactive (account r id) ≡ false
      → DistinctKeys xs
      → owner_in profile xs ≡ some id
      → All (λ b. breaks_policy r lc b ≡ false) xs
      → All (λ b. breaks_policy r (set_lifecycle profile enabled lc) b ≡ false) xs
  unfolding breaks_policy set_lifecycle owner_in
  enable_bound id [] act d o h = tt
  enable_bound id ((k, a) ∷ xs) act d o h = elim (Bool-cases (key_eq k profile)) [
    | inl e ↦
        let same : k ≡ profile = ground arith in
        (ground (arith, h.0), enable_unbound xs (subst (λ z. owner_in z xs ≡ none) same d.0) h.1)
    | inr e ↦ (ground (arith, h.0), enable_bound id xs act d.1 (ground arith) h.1)
  ]

-- The registry is well-formed, and no binding breaks the policy.
pub record IsSafe (w : World) : Type 0 where
  pub valid : IsValid w.registry
  pub clean : Clean w.registry w.lifecycles

moved-Clean :
    (r : AccountRegistry) (profile : ProfileKey) (s : ProfileLifecycle) (lc : ProfileLifecycles)
    → is_enabled s ≡ false
    → Clean r lc
    → Clean r (set_lifecycle profile s lc)
moved-Clean r profile s lc e h =
    All-breaks r r lc (set_lifecycle profile s lc) r.bindings
      (λ k a q. unfold breaks_policy set_lifecycle in ground (arith, q)) h

Step-IsSafe : {w v : World} → Step w v → IsSafe w → IsSafe v
Step-IsSafe (changes w c applied e) s = record {
  valid = apply-IsValid w.registry c w.lifecycles s.valid;
  clean = apply-Clean w.registry c w.lifecycles applied e s.clean;
}
Step-IsSafe (refused w c x e) s =
    subst (λ z. IsSafe (record w { registry = z }))
      (sym (refused-eq_self w.registry c w.lifecycles x e)) s
Step-IsSafe (enables w id profile e) s =
    let (owner, act) = check_enable_ok w.registry id profile e in
    record {
      valid = s.valid;
      clean =
          enable_bound w.registry profile w.lifecycles id w.registry.bindings act s.valid.distinct
            owner s.clean;
    }
Step-IsSafe (moves w profile x e) s = record {
  valid = s.valid;
  clean = moved-Clean w.registry profile x w.lifecycles e s.clean;
}

Reach-IsSafe : {w v : World} → Reach w v → IsSafe w → IsSafe v
Reach-IsSafe here s = s
Reach-IsSafe (next r st) s = Step-IsSafe st (Reach-IsSafe r s)

-- From the empty registry, whatever the lifecycles at the start, after any history of changes with
-- their forced disables, checked enables and other moves of profiles, the registry is well-formed
-- and the audit finds nothing.
pub Reach-audit :
    (lc : ProfileLifecycles) (w : World)
    → Reach (record { registry = new; lifecycles = lc }) w
    → IsValid w.registry × (audit w.registry w.lifecycles ≡ [])
Reach-audit lc w h =
    let s = Reach-IsSafe h (record { valid = new-IsValid; clean = tt }) in
    (s.valid, (audit_iff w.registry w.lifecycles).1 s.clean)
