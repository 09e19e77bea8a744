-- ===== src/Mobile/Account.antt =====
-- mobile/src/account.rs: the account registry. A change returns its result and the registry after
-- it. The lifecycle of a profile is asked of the secure world, which is a function here.
pub mod Valid
pub mod Audit
pub mod Reach
mod Examples
use runix.Base.{
  Bool, List, Option, Result, [], ensure, err, false, find, if◌then◌else◌, keep, leb, length, ltb,
  map, none, not, ok, ok_or, some, true, ℕ, ◌&&◌, ◌++◌, ◌==◌, ◌>>=◌, ◌>>◌, ◌∷◌,
}

abbrev pub max_accounts : ℕ
max_accounts = 16

abbrev pub max_profiles_per_account : ℕ
max_profiles_per_account = 4

abbrev pub SubscriberId : Type 0
SubscriberId = ℕ

abbrev pub AccountId : Type 0
AccountId = ℕ

abbrev pub PlanId : Type 0
PlanId = ℕ

pub record ProfileKey : Type 0 where
  pub slot : ℕ
  pub profile : ℕ

-- The derived `PartialEq`.
abbrev pub key_eq : ProfileKey → ProfileKey → Bool
key_eq j k = j.slot == k.slot && j.profile == k.profile

pub data AccountStatus : Type 0 where
  active suspended closed : AccountStatus

abbrev pub is_active : AccountStatus → Bool
is_active active = true
is_active suspended = false
is_active closed = false

abbrev pub is_closed : AccountStatus → Bool
is_closed active = false
is_closed suspended = false
is_closed closed = true

pub data ProfileLifecycle : Type 0 where
  created disabled enabled deleted : ProfileLifecycle

-- The trait `ProfileLifecycles`.
abbrev pub ProfileLifecycles : Type 0
ProfileLifecycles = ProfileKey → Option ProfileLifecycle

abbrev pub is_enabled : ProfileLifecycle → Bool
is_enabled created = false
is_enabled disabled = false
is_enabled enabled = true
is_enabled deleted = false

abbrev pub is_deleted : ProfileLifecycle → Bool
is_deleted created = false
is_deleted disabled = false
is_deleted enabled = false
is_deleted deleted = true

-- `lc.lifecycle(key) == Some(Enabled)`
abbrev pub reads_enabled : Option ProfileLifecycle → Bool
reads_enabled none = false
reads_enabled (some s) = is_enabled s

pub record Account : Type 0 where
  pub id : AccountId
  pub subscriber : SubscriberId
  pub plan : PlanId
  pub status : AccountStatus

pub data AccountError : Type 0 where
  registry_full account_full no_such_account account_closed not_bound : AccountError
  account_not_active : AccountStatus → AccountError
  invalid_transition : (from to : AccountStatus) → AccountError
  already_bound : AccountId → AccountError
  unknown_profile profile_deleted profile_enabled : ProfileKey → AccountError

pub data Change : Type 0 where
  opens : SubscriberId → PlanId → Change
  binds : AccountId → ProfileKey → Change
  unbinds : ProfileKey → Change
  sets_status : AccountId → AccountStatus → Change

pub record Applied : Type 0 where
  pub account : AccountId
  pub force_disable : List ProfileKey

pub record AccountRegistry : Type 0 where
  pub accounts : List Account
  pub bindings : List (ProfileKey × AccountId)

abbrev pub new : AccountRegistry
new = record { accounts = []; bindings = [] }

pub account : AccountRegistry → AccountId → Option Account
account r id = find (λ a. a.id == id) r.accounts

pub owner_in : ProfileKey → List (ProfileKey × AccountId) → Option AccountId
owner_in profile [] = none
owner_in profile ((k, a) ∷ rest) = if key_eq k profile then some a else owner_in profile rest

pub owner_of : AccountRegistry → ProfileKey → Option AccountId
unfolding owner_in
owner_of r profile = owner_in profile r.bindings

bound_to : AccountId → List (ProfileKey × AccountId) → List ProfileKey
bound_to id [] = []
bound_to id ((k, a) ∷ rest) = let keys = bound_to id rest in if a == id then k ∷ keys else keys

pub profiles_of : AccountRegistry → AccountId → List ProfileKey
unfolding bound_to
profiles_of r id = bound_to id r.bindings

status_permits : AccountStatus → Result AccountError (Unit {0})
status_permits active = ok tt
status_permits closed = err account_closed
status_permits suspended = err (account_not_active suspended)

-- `owner != Some(account)`
owned_by : Option AccountId → AccountId → Bool
owned_by none id = false
owned_by (some a) id = a == id

pub check_enable : AccountRegistry → AccountId → ProfileKey → Result AccountError (Unit {0})
unfolding account owner_of status_permits owned_by
check_enable r id profile = do
  acct ← ok_or (account r id) no_such_account
  ensure (owned_by (owner_of r profile) id) not_bound
  status_permits acct.status

-- `map_or(true, |acct| acct.status != Active)`
inactive : Option Account → Bool
inactive none = true
inactive (some a) = not (is_active a.status)

pub breaks_policy : AccountRegistry → ProfileLifecycles → ProfileKey × AccountId → Bool
unfolding account inactive
breaks_policy r lc (k, a) = reads_enabled (lc k) && inactive (account r a)

pub audit : AccountRegistry → ProfileLifecycles → List ProfileKey
unfolding breaks_policy
audit r lc = map (λ b. b.0) (keep (breaks_policy r lc) r.bindings)

-- `Change::Open`
apply_open : AccountRegistry → SubscriberId → PlanId → Result AccountError Applied × AccountRegistry
apply_open r subscriber plan =
    if leb max_accounts (length r.accounts) then (err registry_full, r) else (
      ok (record { account = length r.accounts; force_disable = [] }),
      record r {
        accounts =
            r.accounts
            ++ record {
              id = length r.accounts;
              subscriber = subscriber;
              plan = plan;
              status = active;
            }
              ∷ [];
      },
    )

-- The checks of `Change::Bind`, in order.
pub bind_checks :
    AccountRegistry → AccountId → ProfileKey → ProfileLifecycles → Result AccountError (Unit {0})
unfolding account owner_of profiles_of
bind_checks r id profile lc = do
  acct ← ok_or (account r id) no_such_account
  ensure (not (is_closed acct.status)) account_closed
  elim (owner_of r profile) [ none ↦ ok tt | some owner ↦ err (already_bound owner) ]
  state ← ok_or (lc profile) (unknown_profile profile)
  ensure (not (is_deleted state)) (profile_deleted profile)
  ensure (not (is_enabled state && not (is_active acct.status))) (account_not_active acct.status)
  ensure (ltb (length (profiles_of r id)) max_profiles_per_account) account_full

apply_bind :
    AccountRegistry
    → AccountId
    → ProfileKey
    → ProfileLifecycles
    → Result AccountError Applied × AccountRegistry
unfolding bind_checks
apply_bind r id profile lc = elim (bind_checks r id profile lc) [
  | err e ↦ (err e, r)
  | ok _ ↦ (
    ok (record { account = id; force_disable = [] }),
    record r { bindings = r.bindings ++ (profile, id) ∷ [] },
  )
]

-- `bindings.remove(pos)`, at the first binding of the profile.
without : ProfileKey → List (ProfileKey × AccountId) → List (ProfileKey × AccountId)
without profile [] = []
without profile ((k, a) ∷ rest) =
    let kept = without profile rest in if key_eq k profile then rest else (k, a) ∷ kept

unbind_checks : AccountRegistry → ProfileKey → ProfileLifecycles → Result AccountError AccountId
unfolding owner_of
unbind_checks r profile lc = do
  owner ← ok_or (owner_of r profile) not_bound
  state ← ok_or (lc profile) (unknown_profile profile)
  ensure (not (is_enabled state)) (profile_enabled profile)
  ok owner

apply_unbind :
    AccountRegistry → ProfileKey → ProfileLifecycles → Result AccountError Applied × AccountRegistry
unfolding unbind_checks without
apply_unbind r profile lc = elim (unbind_checks r profile lc) [
  | err e ↦ (err e, r)
  | ok owner ↦ (
    ok (record { account = owner; force_disable = [] }),
    record r { bindings = without profile r.bindings },
  )
]

-- `Ok(legal)` of the match on the two states.
legal : AccountStatus → AccountStatus → Result AccountError (Unit {0})
legal closed to = err account_closed
legal active suspended = ok tt
legal suspended active = ok tt
legal active closed = ok tt
legal suspended closed = ok tt
legal active active = err (invalid_transition active active)
legal suspended suspended = err (invalid_transition suspended suspended)

-- The loop over the account's profiles when it stops being active.
enabled_among :
    AccountStatus → ProfileLifecycles → List ProfileKey → Result AccountError (List ProfileKey)
enabled_among to lc [] = ok []
enabled_among to lc (key ∷ keys) =
    let rest = enabled_among to lc keys in
    (ok_or (lc key) (unknown_profile key) >>= λ state.
    if is_enabled state
    then if is_closed to then err (profile_enabled key) else (rest >>= λ found. ok (key ∷ found))
    else rest)

set_status_in : AccountId → AccountStatus → List Account → List Account
set_status_in id to [] = []
set_status_in id to (a ∷ rest) =
    let others = set_status_in id to rest in
    if a.id == id then record a { status = to } ∷ rest else a ∷ others

status_checks :
    AccountRegistry
    → AccountId
    → AccountStatus
    → ProfileLifecycles
    → Result AccountError (List ProfileKey)
unfolding account legal enabled_among profiles_of
status_checks r id to lc = do
  acct ← ok_or (account r id) no_such_account
  legal acct.status to
  if is_active to then ok [] else enabled_among to lc (profiles_of r id)

apply_status :
    AccountRegistry
    → AccountId
    → AccountStatus
    → ProfileLifecycles
    → Result AccountError Applied × AccountRegistry
unfolding status_checks set_status_in
apply_status r id to lc = elim (status_checks r id to lc) [
  | err e ↦ (err e, r)
  | ok keys ↦ (
    ok (record { account = id; force_disable = keys }),
    record r { accounts = set_status_in id to r.accounts },
  )
]

pub apply :
    AccountRegistry → Change → ProfileLifecycles → Result AccountError Applied × AccountRegistry
unfolding apply_open apply_bind apply_unbind apply_status
apply r (opens subscriber plan) lc = apply_open r subscriber plan
apply r (binds id profile) lc = apply_bind r id profile lc
apply r (unbinds profile) lc = apply_unbind r profile lc
apply r (sets_status id to) lc = apply_status r id to lc

-- The one-line wrappers. The change is made whatever the result, and the result is mapped.
abbrev mapped {ℓ} : {E A B : Type ℓ} → (A → B) → Result E A → Result E B
mapped f (ok a) = ok (f a)
mapped f (err e) = err e

no_lifecycle : ProfileLifecycles
no_lifecycle k = none

pub open_account :
    AccountRegistry → SubscriberId → PlanId → Result AccountError AccountId × AccountRegistry
unfolding apply no_lifecycle
open_account r subscriber plan =
    let (res, r') = apply r (opens subscriber plan) no_lifecycle in
    (mapped (λ a. a.account) res, r')

pub bind :
    AccountRegistry
    → AccountId
    → ProfileKey
    → ProfileLifecycles
    → Result AccountError (Unit {0}) × AccountRegistry
unfolding apply
bind r id profile lc = let (res, r') = apply r (binds id profile) lc in (mapped (λ _. tt) res, r')

pub unbind :
    AccountRegistry
    → ProfileKey
    → ProfileLifecycles
    → Result AccountError (Unit {0}) × AccountRegistry
unfolding apply
unbind r profile lc = let (res, r') = apply r (unbinds profile) lc in (mapped (λ _. tt) res, r')

pub suspend :
    AccountRegistry
    → AccountId
    → ProfileLifecycles
    → Result AccountError (List ProfileKey) × AccountRegistry
unfolding apply
suspend r id lc =
    let (res, r') = apply r (sets_status id suspended) lc in (mapped (λ a. a.force_disable) res, r')

pub reactivate : AccountRegistry → AccountId → Result AccountError (Unit {0}) × AccountRegistry
unfolding apply no_lifecycle
reactivate r id =
    let (res, r') = apply r (sets_status id active) no_lifecycle in (mapped (λ _. tt) res, r')

pub close :
    AccountRegistry
    → AccountId
    → ProfileLifecycles
    → Result AccountError (Unit {0}) × AccountRegistry
unfolding apply
close r id lc = let (res, r') = apply r (sets_status id closed) lc in (mapped (λ _. tt) res, r')
