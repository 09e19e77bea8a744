-- ===== src/Mobile/Account/Audit.antt =====
-- The policy of mobile/src/account.rs: no enabled profile is bound to an account that is not active.
use runix.Base.{
  All, All-append, Bool, Bool-cases, List, Result-cases, [], any, arith, false, find, if◌then◌else◌,
  inl, inr, keep, leb, length, map, none, ok, refl, some, subst, true, ◌++◌, ◌==◌, ◌↔◌, ◌∷◌, ◌≡◌,
  ◌⊎◌,
}
use runix.Mobile.Account.{
  Account, AccountId, AccountRegistry, AccountStatus, Applied, Change, PlanId, ProfileKey,
  ProfileLifecycles, SubscriberId, account, active, apply, apply_bind, apply_open, apply_status,
  apply_unbind, audit, bind_checks, binds, bound_to, breaks_policy, disabled, enabled_among, key_eq,
  max_accounts, opens, profiles_of, reads_enabled, set_status_in, sets_status, status_checks,
  unbind_checks, unbinds, without,
}
use runix.Mobile.Account.Valid.{bind_checks_ok}

-- No binding breaks the policy.
abbrev pub Clean : AccountRegistry → ProfileLifecycles → Type 0
Clean r lc = All (λ b. breaks_policy r lc b ≡ false) r.bindings

keep-none :
    (p : ProfileKey × AccountId → Bool) (xs : List (ProfileKey × AccountId))
    → All (λ b. p b ≡ false) xs
    → keep p xs ≡ []
keep-none p [] h = refl
keep-none p (x ∷ xs) h = ground (arith, keep-none p xs h.1)

none_kept :
    (p : ProfileKey × AccountId → Bool) (xs : List (ProfileKey × AccountId))
    → map (λ b. b.0) (keep p xs) ≡ []
    → All (λ b. p b ≡ false) xs
none_kept p [] h = tt
none_kept p (x ∷ xs) h = elim (Bool-cases (p x)) [
  | inl e ↦ ground arith
  | inr e ↦ (e, none_kept p xs (ground arith))
]

-- The audit is empty exactly when no binding breaks the policy.
pub audit_iff : (r : AccountRegistry) (lc : ProfileLifecycles) → (audit r lc ≡ []) ↔ Clean r lc
unfolding audit
audit_iff r lc = (
  none_kept (breaks_policy r lc) r.bindings,
  λ h. rw (keep-none (breaks_policy r lc) r.bindings h),
)

-- The caller of a change disables the profiles that the change tells it to.
unfoldable pub disable_all : List ProfileKey → ProfileLifecycles → ProfileLifecycles
disable_all keys lc k = if any (λ j. key_eq j k) keys then some disabled else lc k

disable_none : (lc : ProfileLifecycles) → disable_all [] lc ≡ lc
unfolding disable_all
disable_none lc = refl

-- How one binding fares, given how its account and its profile's lifecycle may change.
pub All-breaks :
    (r s : AccountRegistry) (lc ld : ProfileLifecycles) (xs : List (ProfileKey × AccountId))
    → ((k : ProfileKey) (a : AccountId)
        → breaks_policy r lc (k, a) ≡ false
        → breaks_policy s ld (k, a) ≡ false)
    → All (λ b. breaks_policy r lc b ≡ false) xs
    → All (λ b. breaks_policy s ld b ≡ false) xs
All-breaks r s lc ld [] f h = tt
All-breaks r s lc ld ((k, a) ∷ xs) f h = (f k a h.0, All-breaks r s lc ld xs f h.1)

find-append :
    (id : AccountId) (xs : List Account) (a : Account)
    → find (λ a. a.id == id) (xs ++ a ∷ []) ≡ elim (find (λ a. a.id == id) xs) [
      | none ↦ if a.id == id then some a else none
      | some b ↦ some b
    ]
find-append id [] a = ground arith
find-append id (x ∷ xs) a = ground (arith, find-append id xs a)

open-Clean :
    (r : AccountRegistry) (subscriber : SubscriberId) (plan : PlanId) (lc : ProfileLifecycles)
    → Clean r lc
    → Clean (apply_open r subscriber plan).1 lc
unfolding apply_open
open-Clean r subscriber plan lc h = elim (Bool-cases (leb max_accounts (length r.accounts))) [
  | inl e ↦ rw (e, apply_open) h
  | inr e ↦
      rw (e, apply_open)
        (All-breaks r _ lc lc r.bindings
          (λ k a q.
            unfold breaks_policy in
            ground (
              arith,
              q,
              find-append a r.accounts (record {
                id = length r.accounts;
                subscriber = subscriber;
                plan = plan;
                status = active;
              }),
            ))
          h)
]

bind-Clean :
    (r : AccountRegistry) (id : AccountId) (profile : ProfileKey) (lc : ProfileLifecycles)
    → Clean r lc
    → Clean (apply_bind r id profile lc).1 lc
unfolding apply_bind
bind-Clean r id profile lc h = elim (Result-cases (bind_checks r id profile lc)) [
  | inl (u, e) ↦
      let (a, found, free, policy, room) = bind_checks_ok r id profile lc u e in
      let bound : AccountRegistry = record r { bindings = r.bindings ++ (profile, id) ∷ [] } in
      rw (e, apply_bind)
        (All-append (λ b. breaks_policy bound lc b ≡ false) r.bindings ((profile, id) ∷ [])
          (All-breaks r bound lc lc r.bindings (λ k i q. unfold breaks_policy in q) h)
          (unfold breaks_policy account in ground (arith, found, policy), tt))
  | inr (x, e) ↦ rw (e, apply_bind) h
]

All-without :
    (s : AccountRegistry) (lc : ProfileLifecycles) (profile : ProfileKey)
    (xs : List (ProfileKey × AccountId))
    → All (λ b. breaks_policy s lc b ≡ false) xs
    → All (λ b. breaks_policy s lc b ≡ false) (without profile xs)
unfolding without
All-without s lc profile [] h = tt
All-without s lc profile ((k, a) ∷ xs) h = ground (arith, All-without s lc profile xs h.1)

unbind-Clean :
    (r : AccountRegistry) (profile : ProfileKey) (lc : ProfileLifecycles)
    → Clean r lc
    → Clean (apply_unbind r profile lc).1 lc
unfolding apply_unbind
unbind-Clean r profile lc h = elim (Result-cases (unbind_checks r profile lc)) [
  | inl (owner, e) ↦
      let freed : AccountRegistry = record r { bindings = without profile r.bindings } in
      rw (e, apply_unbind)
        (All-without freed lc profile r.bindings
          (All-breaks r freed lc lc r.bindings (λ k i q. unfold breaks_policy in q) h))
  | inr (x, e) ↦ rw (e, apply_unbind) h
]

find-set_status_in :
    (id i : AccountId) (to : AccountStatus) (xs : List Account)
    → find (λ a. a.id == i) (set_status_in id to xs) ≡ elim (find (λ a. a.id == i) xs) [
      | none ↦ none
      | some a ↦ some (if id == i then record a { status = to } else a)
    ]
unfolding set_status_in
find-set_status_in id i to [] = refl
find-set_status_in id i to (x ∷ xs) = ground (arith, find-set_status_in id i to xs)

abbrev Found : ProfileLifecycles → List ProfileKey → List ProfileKey → Type 0
Found lc keys = All (λ k. reads_enabled (lc k) ≡ true → any (λ j. key_eq j k) keys ≡ true)

Found-cons :
    (lc : ProfileLifecycles) (k : ProfileKey) (keys ks : List ProfileKey)
    → Found lc keys ks
    → Found lc (k ∷ keys) ks
Found-cons lc k keys [] h = tt
Found-cons lc k keys (x ∷ xs) h = (λ e. ground (arith, h.0 e), Found-cons lc k keys xs h.1)

-- Every enabled profile of the account is among the keys that are returned.
enabled_among_ok :
    (to : AccountStatus) (lc : ProfileLifecycles) (ks keys : List ProfileKey)
    → enabled_among to lc ks ≡ ok keys
    → Found lc keys ks
unfolding enabled_among
enabled_among_ok to lc [] keys e = tt
enabled_among_ok to lc (k ∷ ks) keys e = elim (Result-cases (enabled_among to lc ks)) [
  | inr (x, q) ↦ absurd (ground (arith, q))
  | inl (found, q) ↦ elim (Bool-cases (reads_enabled (lc k))) [
    | inl b ↦
        let more : k ∷ found ≡ keys = ground (arith, q) in
        subst (λ z. Found lc z (k ∷ ks)) more
          (λ _. ground arith, Found-cons lc k found ks (enabled_among_ok to lc ks found q))
    | inr b ↦
        let same : found ≡ keys = ground (arith, q) in
        subst (λ z. Found lc z (k ∷ ks)) same (λ t. cc, enabled_among_ok to lc ks found q)
  ]
]

module _ (r : AccountRegistry) (id : AccountId) (to : AccountStatus) (lc : ProfileLifecycles)
    (keys : List ProfileKey) where
  abbrev updated : AccountRegistry
  updated = record r { accounts = set_status_in id to r.accounts }

  -- An account that stops being active.
  stopped :
      (xs : List (ProfileKey × AccountId))
      → Found lc keys (bound_to id xs)
      → All (λ b. breaks_policy r lc b ≡ false) xs
      → All (λ b. breaks_policy updated (disable_all keys lc) b ≡ false) xs
  unfolding bound_to breaks_policy disable_all
  stopped [] f h = tt
  stopped ((k, a) ∷ xs) f h = elim (Bool-cases (a == id)) [
    | inl e ↦ let g = rw e at f in (ground (arith, g.0), stopped xs g.1 h.1)
    | inr e ↦
        let g = rw e at f in
        (ground (arith, h.0, find-set_status_in id a to r.accounts), stopped xs g h.1)
  ]

  -- An account that becomes active again.
  resumed :
      to ≡ active
      → (xs : List (ProfileKey × AccountId)) → All (λ b. breaks_policy r lc b ≡ false) xs
      → All (λ b. breaks_policy updated lc b ≡ false) xs
  unfolding breaks_policy
  resumed t [] h = tt
  resumed t ((k, a) ∷ xs) h =
      (ground (arith, h.0, find-set_status_in id a to r.accounts), resumed t xs h.1)

-- A passed check of a status change: the account goes back to active, or its enabled profiles were
-- collected.
status_checks_ok :
    (r : AccountRegistry) (id : AccountId) (to : AccountStatus) (lc : ProfileLifecycles)
    (keys : List ProfileKey)
    → status_checks r id to lc ≡ ok keys
    → ((to ≡ active) × (keys ≡ [])) ⊎ (enabled_among to lc (bound_to id r.bindings) ≡ ok keys)
unfolding status_checks profiles_of
status_checks_ok r id to lc keys e = ground arith

status-Clean :
    (r : AccountRegistry) (id : AccountId) (to : AccountStatus) (lc : ProfileLifecycles)
    (applied : Applied)
    → (apply_status r id to lc).0 ≡ ok applied
    → Clean r lc
    → Clean (apply_status r id to lc).1 (disable_all applied.force_disable lc)
unfolding apply_status
status-Clean r id to lc applied e h = elim (Result-cases (status_checks r id to lc)) [
  | inr (x, q) ↦ absurd (ground (arith, q))
  | inl (keys, q) ↦
      let same : keys ≡ applied.force_disable = ground (arith, q) in
      subst (λ z. Clean (apply_status r id to lc).1 (disable_all z lc)) same
        (rw (q, apply_status)
          (elim (status_checks_ok r id to lc keys q) [
            | inl back ↦ rw (back.1, disable_none lc) (resumed r id to lc keys back.0 r.bindings h)
            | inr all ↦
                stopped r id to lc keys r.bindings
                  (enabled_among_ok to lc (bound_to id r.bindings) keys all) h
          ]))
]

forces_none-open :
    (r : AccountRegistry) (subscriber : SubscriberId) (plan : PlanId) (applied : Applied)
    → (apply_open r subscriber plan).0 ≡ ok applied
    → applied.force_disable ≡ []
unfolding apply_open
forces_none-open r subscriber plan applied e = ground arith

forces_none-bind :
    (r : AccountRegistry) (id : AccountId) (profile : ProfileKey) (lc : ProfileLifecycles)
    (applied : Applied)
    → (apply_bind r id profile lc).0 ≡ ok applied
    → applied.force_disable ≡ []
unfolding apply_bind
forces_none-bind r id profile lc applied e = elim (Result-cases (bind_checks r id profile lc)) [
  | inl (u, q) ↦ ground (arith, q)
  | inr (x, q) ↦ absurd (ground (arith, q))
]

forces_none-unbind :
    (r : AccountRegistry) (profile : ProfileKey) (lc : ProfileLifecycles) (applied : Applied)
    → (apply_unbind r profile lc).0 ≡ ok applied
    → applied.force_disable ≡ []
unfolding apply_unbind
forces_none-unbind r profile lc applied e = elim (Result-cases (unbind_checks r profile lc)) [
  | inl (u, q) ↦ ground (arith, q)
  | inr (x, q) ↦ absurd (ground (arith, q))
]

-- A change that is accepted, once its caller has disabled the profiles that it names, leaves no
-- binding that breaks the policy, if there was none before.
pub apply-Clean :
    (r : AccountRegistry) (c : Change) (lc : ProfileLifecycles) (applied : Applied)
    → (apply r c lc).0 ≡ ok applied
    → Clean r lc
    → Clean (apply r c lc).1 (disable_all applied.force_disable lc)
unfolding apply
apply-Clean r (opens subscriber plan) lc applied e h =
    rw (forces_none-open r subscriber plan applied e, disable_none lc)
      (open-Clean r subscriber plan lc h)
apply-Clean r (binds id profile) lc applied e h =
    rw (forces_none-bind r id profile lc applied e, disable_none lc) (bind-Clean r id profile lc h)
apply-Clean r (unbinds profile) lc applied e h =
    rw (forces_none-unbind r profile lc applied e, disable_none lc) (unbind-Clean r profile lc h)
apply-Clean r (sets_status id to) lc applied e h = status-Clean r id to lc applied e h
