-- ===== src/Mobile/Account/Examples.antt =====
-- Runs of mobile/src/account.rs, and the theorems at those inputs.
use runix.Base.{[], arith, err, ok, refl, some, ◌∷◌, ◌≡◌}
use runix.Mobile.Account.{
  AccountRegistry, Change, ProfileKey, ProfileLifecycles, active, apply, audit, bind, breaks_policy,
  close, disabled, enabled, new, open_account, opens, owner_in, profile_enabled, profiles_of,
  sets_status, suspend, suspended,
}
use runix.Mobile.Account.Valid.{IsValid, apply-IsValid}
use runix.Mobile.Account.Audit.{Clean, apply-Clean, disable_all}
use runix.Mobile.Account.Reach.{Reach-audit, World, changes, here, next, set_lifecycle}

abbrev profile_0 : ProfileKey
profile_0 = record { slot = 0; profile = 0 }

abbrev all_disabled : ProfileLifecycles
all_disabled k = some disabled

-- The first account, with the profile bound.
abbrev one_account : AccountRegistry
one_account = record {
  accounts = record { id = 0; subscriber = 7; plan = 1; status = active } ∷ [];
  bindings = (profile_0, 0) ∷ [];
}

opens_and_binds : (bind (open_account new 7 1).1 0 profile_0 all_disabled).1 ≡ one_account
unfolding bind open_account
opens_and_binds = refl

abbrev enabled_0 : ProfileLifecycles
enabled_0 = set_lifecycle profile_0 enabled all_disabled

suspends : (suspend one_account 0 enabled_0).0 ≡ ok (profile_0 ∷ [])
unfolding suspend set_lifecycle
suspends = refl

close_refused : (close one_account 0 enabled_0).0 ≡ err (profile_enabled profile_0)
unfolding close set_lifecycle
close_refused = refl

one_account-IsValid : IsValid one_account
unfolding profiles_of owner_in
one_account-IsValid = record {
  ids = (refl, tt);
  few_accounts = omega arith;
  distinct = (refl, tt);
  owners = omega arith;
  few_profiles = λ id. ground arith;
}

one_account-Clean : Clean one_account enabled_0
unfolding breaks_policy set_lifecycle
one_account-Clean = (refl, tt)

abbrev suspend_0 : Change
suspend_0 = sets_status 0 suspended

apply-IsValid_example : IsValid (apply one_account suspend_0 enabled_0).1
apply-IsValid_example = apply-IsValid one_account suspend_0 enabled_0 one_account-IsValid

suspend_applies :
    (apply one_account suspend_0 enabled_0).0
    ≡ ok (record { account = 0; force_disable = profile_0 ∷ [] })
unfolding apply set_lifecycle
suspend_applies = refl

apply-Clean_example :
    Clean (apply one_account suspend_0 enabled_0).1 (disable_all (profile_0 ∷ []) enabled_0)
apply-Clean_example =
    apply-Clean one_account suspend_0 enabled_0
      (record { account = 0; force_disable = profile_0 ∷ [] }) suspend_applies one_account-Clean

opens_first :
    (apply new (opens 7 1) all_disabled).0 ≡ ok (record { account = 0; force_disable = [] })
unfolding apply
opens_first = refl

abbrev after_open : World
after_open = record {
  registry = (apply new (opens 7 1) all_disabled).1;
  lifecycles = disable_all [] all_disabled;
}

Reach-audit_example :
    IsValid after_open.registry × (audit after_open.registry after_open.lifecycles ≡ [])
Reach-audit_example = Reach-audit all_disabled after_open (
    next here (
      changes (record { registry = new; lifecycles = all_disabled }) (opens 7 1)
        (record { account = 0; force_disable = [] }) opens_first))
