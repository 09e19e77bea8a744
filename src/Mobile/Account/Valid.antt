-- ===== src/Mobile/Account/Valid.antt =====
-- The well-formedness of the registry of mobile/src/account.rs, kept by every change.
use runix.Base.{
  All, All-append, Bool-cases, List, Result-cases, [], arith, false, find, if◌then◌else◌, inl, inr,
  leb, length, length-append, none, ok, refl, some, suc, true, ℕ, ◌++◌, ◌+◌, ◌<◌, ◌==◌, ◌∷◌, ◌≡◌,
  ◌≤◌,
}
use runix.Mobile.Account.{
  Account, AccountId, AccountRegistry, AccountStatus, Change, PlanId, ProfileKey, ProfileLifecycles,
  SubscriberId, account, active, apply, apply_bind, apply_open, apply_status, apply_unbind,
  bind_checks, binds, bound_to, key_eq, max_accounts, max_profiles_per_account, new, opens,
  owner_in, owner_of, profiles_of, reads_enabled, set_status_in, sets_status, status_checks,
  unbind_checks, unbinds, without,
}

-- Account `i` has the id `k + i`.
abbrev pub IdsFrom : ℕ → List Account → Type 0
IdsFrom k [] = Unit {0}
IdsFrom k (a ∷ rest) = (a.id ≡ k) × IdsFrom (suc k) rest

-- No profile is bound twice.
abbrev pub DistinctKeys : List (ProfileKey × AccountId) → Type 0
DistinctKeys [] = Unit {0}
DistinctKeys ((k, a) ∷ rest) = (owner_in k rest ≡ none) × DistinctKeys rest

pub record IsValid (r : AccountRegistry) : Type 0 where
  pub ids : IdsFrom 0 r.accounts
  pub few_accounts : length r.accounts ≤ max_accounts
  pub distinct : DistinctKeys r.bindings
  pub owners : All (λ b. b.1 < length r.accounts) r.bindings
  pub few_profiles : (id : AccountId) → length (profiles_of r id) ≤ max_profiles_per_account

IdsFrom-append :
    (k : ℕ) (xs : List Account) (a : Account)
    → IdsFrom k xs
    → a.id ≡ k + length xs
    → IdsFrom k (xs ++ a ∷ [])
IdsFrom-append k [] a h e = ground arith
IdsFrom-append k (x ∷ xs) a h e = (h.0, IdsFrom-append (suc k) xs a h.1 (omega arith))

IdsFrom-set_status_in :
    (k : ℕ) (xs : List Account) (id : AccountId) (to : AccountStatus)
    → IdsFrom k xs
    → IdsFrom k (set_status_in id to xs)
unfolding set_status_in
IdsFrom-set_status_in k [] id to h = tt
IdsFrom-set_status_in k (x ∷ xs) id to h =
    ground (arith, IdsFrom-set_status_in (suc k) xs id to h.1)

length-set_status_in :
    (xs : List Account) (id : AccountId) (to : AccountStatus)
    → length (set_status_in id to xs) ≡ length xs
unfolding set_status_in
length-set_status_in [] id to = refl
length-set_status_in (x ∷ xs) id to = ground (arith, length-set_status_in xs id to)

-- An id that `account` finds is in range.
find_in_range :
    (k : ℕ) (xs : List Account) (id : AccountId) (a : Account)
    → IdsFrom k xs
    → find (λ a. a.id == id) xs ≡ some a
    → id < k + length xs
find_in_range k [] id a h e = cc
find_in_range k (x ∷ xs) id a h e = ground (arith, find_in_range (suc k) xs id a h.1)

key_eq→≡ : (j k : ProfileKey) → key_eq j k ≡ true → j ≡ k
key_eq→≡ j k h = ground arith

owner_in-append :
    (j k : ProfileKey) (id : AccountId) (xs : List (ProfileKey × AccountId))
    → owner_in j xs ≡ none
    → key_eq k j ≡ false
    → owner_in j (xs ++ (k, id) ∷ []) ≡ none
unfolding owner_in
owner_in-append j k id [] h n = ground arith
owner_in-append j k id ((i, a) ∷ xs) h n = ground (arith, owner_in-append j k id xs)

DistinctKeys-append :
    (k : ProfileKey) (id : AccountId) (xs : List (ProfileKey × AccountId))
    → DistinctKeys xs
    → owner_in k xs ≡ none
    → DistinctKeys (xs ++ (k, id) ∷ [])
unfolding owner_in
DistinctKeys-append k id [] d h = (refl, tt)
DistinctKeys-append k id ((i, a) ∷ xs) d h = elim (Bool-cases (key_eq i k)) [
  | inl e ↦ cc
  | inr e ↦
      (owner_in-append i k id xs d.0 (ground arith), DistinctKeys-append k id xs d.1 (ground arith))
]

owner_in-without :
    (j profile : ProfileKey) (xs : List (ProfileKey × AccountId))
    → owner_in j xs ≡ none
    → owner_in j (without profile xs) ≡ none
unfolding owner_in without
owner_in-without j profile [] h = refl
owner_in-without j profile ((i, a) ∷ xs) h = ground (arith, owner_in-without j profile xs)

DistinctKeys-without :
    (profile : ProfileKey) (xs : List (ProfileKey × AccountId))
    → DistinctKeys xs
    → DistinctKeys (without profile xs)
unfolding without
DistinctKeys-without profile [] d = tt
DistinctKeys-without profile ((i, a) ∷ xs) d =
    ground (arith, DistinctKeys-without profile xs d.1, owner_in-without i profile xs d.0)

All-without :
    (n : ℕ) (profile : ProfileKey) (xs : List (ProfileKey × AccountId))
    → All (λ b. b.1 < n) xs
    → All (λ b. b.1 < n) (without profile xs)
unfolding without
All-without n profile [] h = tt
All-without n profile ((i, a) ∷ xs) h = ground (arith, All-without n profile xs h.1)

All-weaken :
    (m n : ℕ) (xs : List (ProfileKey × AccountId))
    → m ≤ n
    → All (λ b. b.1 < m) xs
    → All (λ b. b.1 < n) xs
All-weaken m n [] l h = tt
All-weaken m n (x ∷ xs) l h = (omega arith, All-weaken m n xs l h.1)

length-bound_to-without :
    (id : AccountId) (profile : ProfileKey) (xs : List (ProfileKey × AccountId))
    → length (bound_to id (without profile xs)) ≤ length (bound_to id xs)
unfolding bound_to without
length-bound_to-without id profile [] = omega arith
length-bound_to-without id profile ((i, a) ∷ xs) =
    ground (arith, length-bound_to-without id profile xs)

length-bound_to-append :
    (id owner : AccountId) (profile : ProfileKey) (xs : List (ProfileKey × AccountId))
    → length (bound_to id (xs ++ (profile, owner) ∷ []))
      ≡ length (bound_to id xs) + (if owner == id then 1 else 0)
unfolding bound_to
length-bound_to-append id owner profile [] = ground arith
length-bound_to-append id owner profile ((i, a) ∷ xs) =
    ground (arith, length-bound_to-append id owner profile xs)

pub new-IsValid : IsValid new
unfolding profiles_of
new-IsValid = record {
  ids = tt;
  few_accounts = omega arith;
  distinct = tt;
  owners = tt;
  few_profiles = λ id. omega arith;
}

-- What a passed check of a binding says.
pub bind_checks_ok :
    (r : AccountRegistry) (id : AccountId) (profile : ProfileKey) (lc : ProfileLifecycles)
    (u : Unit {0})
    → bind_checks r id profile lc ≡ ok u
    → (a : Account) × (account r id ≡ some a)
      × (owner_of r profile ≡ none)
      × (reads_enabled (lc profile) ≡ true → a.status ≡ active)
      × (length (profiles_of r id) < max_profiles_per_account)
unfolding bind_checks
bind_checks_ok r id profile lc u h = ground arith

open-IsValid :
    (r : AccountRegistry) (subscriber : SubscriberId) (plan : PlanId)
    → IsValid r
    → IsValid (apply_open r subscriber plan).1
unfolding apply_open profiles_of
open-IsValid r subscriber plan v = elim (Bool-cases (leb max_accounts (length r.accounts))) [
  | inl e ↦ rw e v
  | inr e ↦
      let new_account : Account = record {
        id = length r.accounts;
        subscriber = subscriber;
        plan = plan;
        status = active;
      } in
      let longer = length-append r.accounts (new_account ∷ []) in
      rw e (record {
        ids = IdsFrom-append 0 r.accounts new_account v.ids (omega arith);
        few_accounts = ground (arith, longer);
        distinct = v.distinct;
        owners = All-weaken (length r.accounts) _ r.bindings (omega (arith, longer)) v.owners;
        few_profiles = v.few_profiles;
      })
]

bind-IsValid :
    (r : AccountRegistry) (id : AccountId) (profile : ProfileKey) (lc : ProfileLifecycles)
    → IsValid r
    → IsValid (apply_bind r id profile lc).1
unfolding apply_bind profiles_of
bind-IsValid r id profile lc v = elim (Result-cases (bind_checks r id profile lc)) [
  | inl (u, e) ↦
      let (a, found, free, policy, room) = bind_checks_ok r id profile lc u e in
      rw (e, apply_bind)
        (record {
          ids = v.ids;
          few_accounts = v.few_accounts;
          distinct = DistinctKeys-append profile id r.bindings v.distinct (unfold owner_of in free);
          owners =
              All-append (λ b. b.1 < length r.accounts) r.bindings ((profile, id) ∷ []) v.owners
                (
                  omega (arith, find_in_range 0 r.accounts id a v.ids (unfold account in found)),
                  tt,
                );
          few_profiles =
              λ j. ground (arith, length-bound_to-append j id profile r.bindings, v.few_profiles j);
        })
  | inr (x, e) ↦ rw (e, apply_bind) v
]

unbind-IsValid :
    (r : AccountRegistry) (profile : ProfileKey) (lc : ProfileLifecycles)
    → IsValid r
    → IsValid (apply_unbind r profile lc).1
unfolding apply_unbind profiles_of
unbind-IsValid r profile lc v = elim (Result-cases (unbind_checks r profile lc)) [
  | inl (owner, e) ↦
      rw (e, apply_unbind)
        (record {
          ids = v.ids;
          few_accounts = v.few_accounts;
          distinct = DistinctKeys-without profile r.bindings v.distinct;
          owners = All-without (length r.accounts) profile r.bindings v.owners;
          few_profiles =
              λ j. omega (arith, length-bound_to-without j profile r.bindings, v.few_profiles j);
        })
  | inr (x, e) ↦ rw (e, apply_unbind) v
]

status-IsValid :
    (r : AccountRegistry) (id : AccountId) (to : AccountStatus) (lc : ProfileLifecycles)
    → IsValid r
    → IsValid (apply_status r id to lc).1
unfolding apply_status profiles_of
status-IsValid r id to lc v = elim (Result-cases (status_checks r id to lc)) [
  | inl (keys, e) ↦
      rw (e, apply_status)
        (record {
          ids = IdsFrom-set_status_in 0 r.accounts id to v.ids;
          few_accounts = omega (arith, length-set_status_in r.accounts id to, v.few_accounts);
          distinct = v.distinct;
          owners =
              All-weaken (length r.accounts) _ r.bindings
                (omega (arith, length-set_status_in r.accounts id to)) v.owners;
          few_profiles = v.few_profiles;
        })
  | inr (x, e) ↦ rw (e, apply_status) v
]

-- Every change, accepted or refused, keeps the registry well-formed: account i has id i, at most 16
-- accounts, no profile bound twice, each binding to an account that exists, and at most 4 profiles
-- to an account.
pub apply-IsValid :
    (r : AccountRegistry) (c : Change) (lc : ProfileLifecycles)
    → IsValid r
    → IsValid (apply r c lc).1
unfolding apply
apply-IsValid r (opens subscriber plan) lc v = open-IsValid r subscriber plan v
apply-IsValid r (binds id profile) lc v = bind-IsValid r id profile lc v
apply-IsValid r (unbinds profile) lc v = unbind-IsValid r profile lc v
apply-IsValid r (sets_status id to) lc v = status-IsValid r id to lc v
