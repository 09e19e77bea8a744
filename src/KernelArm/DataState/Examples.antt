-- ===== src/KernelArm/DataState/Examples.antt =====
-- Runs of kernel-arm/src/data_state.rs, and the theorems at those inputs.
use runix.Base.{
  [], false, find, is_some, length, none, refl, some, true, ◌+◌, ◌<◌, ◌↔◌, ◌∷◌, ◌≡◌, ◌≢◌, ◌≤◌, ◌⊎◌,
}
use runix.Base.Membership.{In}
use runix.Mobile.Policy.{active, demo_capped_entitlement, enabled}
use runix.Mobile.Policy as Policy
use runix.Mobile.Period.Defs.{BillingPeriod}
use runix.KernelArm.DataState.{
  DataSession, DataState, close_sessions_for_account, close_sessions_for_profile, decide_and_open,
  drain_sessions, max_data_sessions, not_recorded, opened, record_session, refreshed, same_session,
  sessions_full, split,
}
use runix.KernelArm.DataState.Sessions.{
  IsDenied, close_sessions_for_account_iff, decide_and_open_recorded,
}

abbrev roams_on_3 : DataSession
roams_on_3 = record { account = 3; slot = 0; profile = 1; roams = true }

abbrev home_on_4 : DataSession
home_on_4 = record { account = 4; slot = 0; profile = 2; roams = false }

abbrev cycle : BillingPeriod
cycle = record { start_tick = 100; length_ticks = 50 }

-- Account 3 has used 70 bytes of its period, of which a reconciliation saw 60; accounts 3 and 4 have a session each.
abbrev two_accounts : DataState
two_accounts = record {
  usage = record { account = 3; usage = record { used_bytes = 70 }; last_used = some 60 } ∷ [];
  sessions = roams_on_3 ∷ home_on_4 ∷ [];
  periods = record { account = 3; period = cycle; reset_requested_since = some 151 } ∷ [];
  last_resets = [];
}

-- An open session replaces the roaming flag of the one that the table holds.
refreshes : (record_session two_accounts (record roams_on_3 { roams = false })).0 ≡ refreshed
unfolding record_session same_session
refreshes = refl

closes_both : (close_sessions_for_profile two_accounts 0 2).0 ≡ home_on_4 ∷ []
unfolding close_sessions_for_profile drain_sessions split
closes_both = refl

close_sessions_for_account_iff_example :
    let (removed, s') = close_sessions_for_account two_accounts 3 in
    ((x : DataSession)
      → (In x removed ↔ (In x two_accounts.sessions × (x.account ≡ 3)))
        × (In x s'.sessions ↔ (In x two_accounts.sessions × (x.account ≢ 3))))
    × (length removed + length s'.sessions ≡ length two_accounts.sessions)
    × (s'.usage ≡ two_accounts.usage)
    × (s'.periods ≡ two_accounts.periods)
    × (s'.last_resets ≡ two_accounts.last_resets)
close_sessions_for_account_iff_example = close_sessions_for_account_iff two_accounts 3

decide_and_open_recorded_example :
    let (out, s') =
      decide_and_open two_accounts 5 1 1 false active enabled demo_capped_entitlement in
    let x : DataSession = record { account = 5; slot = 1; profile = 1; roams = false } in
    let held = find (λ y. same_session y x) two_accounts.sessions in
    (IsDenied out.decision_record.decision × (out.recorded ≡ not_recorded) × (s' ≡ two_accounts))
    ⊎ ((¬ IsDenied out.decision_record.decision)
        × ((((out.recorded ≡ opened) ⊎ (out.recorded ≡ refreshed))
              × (find (λ y. same_session y x) s'.sessions ≡ some x)
              × ((is_some held ≡ true) ⊎ (length two_accounts.sessions < max_data_sessions)))
            ⊎ ((out.recorded ≡ sessions_full)
                × (held ≡ none)
                × (max_data_sessions ≤ length two_accounts.sessions)
                × (s' ≡ two_accounts))))
decide_and_open_recorded_example =
    decide_and_open_recorded two_accounts 5 1 1 false active enabled demo_capped_entitlement
