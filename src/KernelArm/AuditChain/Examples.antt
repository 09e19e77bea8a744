-- ===== src/KernelArm/AuditChain/Examples.antt =====
-- Runs of kernel-arm/src/audit_chain.rs, and the theorems at those inputs.
use runix.Base.{All, Bytes, List, [], false, length, min, none, refl, some, true, ◌∷◌, ◌≡◌}
use runix.CitadelIntegration.WormLog.{zeros}
use runix.Base.Texts.{decimal}
use runix.KernelArm.AuditChain.{
  AuditClass, all_classes, applied, clean_pass, coalesced, event_text, len, new_audit, new_class,
  note_coalesced, quota, rejected, starts_with, stats, summary_text, total_dropped, truncate,
  verify,
}
use runix.KernelArm.AuditChain.History.{
  Event, IsPlain, after_all, after_all-verify, asked, event, note,
}
use runix.KernelArm.AuditChain.History.Entries.{admitted, after_all-admitted, own_lines}

-- A digest for the runs: the length of the input, in 32 bytes.
abbrev toy_digest : Bytes → Bytes
toy_digest m = length m ∷ zeros 31

decimal_run : decimal 1204 ≡ 49 ∷ 50 ∷ 48 ∷ 52 ∷ []
unfolding decimal
decimal_run = refl

-- A cut in the middle of a two-byte character moves back.
truncate_run : truncate (97 ∷ 195 ∷ 169 ∷ 98 ∷ []) 2 ≡ 97 ∷ 46 ∷ 46 ∷ 46 ∷ []
unfolding truncate
truncate_run = refl

event_text_run :
    event_text (115 ∷ []) (97 ∷ []) (98 ∷ []) (some (114 ∷ []))
    ≡ 115 ∷ 32 ∷ 91 ∷ 97 ∷ 32 ∷ 45 ∷ 62 ∷ 32 ∷ 98 ∷ 93 ∷ 58 ∷ 32 ∷ 114 ∷ []
unfolding event_text
event_text_run = refl

-- The first event that is only counted commits a summary.
first_note :
    (note_coalesced toy_digest new_audit clean_pass (111 ∷ 107 ∷ [])).0
    ≡ coalesced clean_pass 1 true (111 ∷ 107 ∷ [])
unfolding note_coalesced
first_note = refl

summary_length : length (summary_text applied new_class) ≡ 93
unfolding summary_text decimal
summary_length = refl

abbrev two_events : List Event
two_events =
    event applied (115 ∷ []) (97 ∷ []) (98 ∷ []) true none
    ∷ event applied (115 ∷ []) (98 ∷ []) (97 ∷ []) true none
    ∷ note clean_pass (111 ∷ [])
    ∷ []

two_events-IsPlain : All IsPlain two_events
unfolding starts_with
two_events-IsPlain = (refl, (refl, (tt, tt)))

views_run :
    (len new_audit ≡ 0)
    × ((stats new_audit rejected).quota ≡ 48)
    × (total_dropped new_audit all_classes 0 ≡ 0)
unfolding len stats total_dropped
views_run = (refl, refl, refl)

after_all-verify_example : verify toy_digest (after_all toy_digest new_audit two_events) ≡ true
after_all-verify_example = after_all-verify toy_digest two_events two_events-IsPlain

abbrev pass : Event
pass = event clean_pass (112 ∷ []) (97 ∷ []) (98 ∷ []) true none

-- Nine clean passes, one more than their quota, and an event of another class.
abbrev ten_events : List Event
ten_events =
    pass
    ∷ pass
    ∷ pass
    ∷ pass
    ∷ pass
    ∷ pass
    ∷ pass
    ∷ pass
    ∷ pass
    ∷ event applied (115 ∷ []) (97 ∷ []) (98 ∷ []) false (some (114 ∷ []))
    ∷ []

ten_events-IsPlain : All IsPlain ten_events
unfolding starts_with
ten_events-IsPlain =
    (refl, (refl, (refl, (refl, (refl, (refl, (refl, (refl, (refl, (refl, tt))))))))))

nine_admitted : length (admitted [] ten_events) ≡ 9
nine_admitted = refl

after_all-admitted_example :
    (own_lines (after_all toy_digest new_audit ten_events) ≡ admitted [] ten_events)
    × ((c : AuditClass)
        → ((after_all toy_digest new_audit ten_events).classes c).recorded
          ≡ min (quota c) (asked c ten_events))
after_all-admitted_example = after_all-admitted toy_digest ten_events ten_events-IsPlain
