-- ===== src/Lib.antt =====
-- Runix: the governed state of the mobile and arm parts of the system, its evidence, the messages and the
-- ipc of its kernel, and its capability tokens.
--
-- The parts, and the files that model them. Paths of the source are from the repository's root.
--   mobile/src/policy.rs            Mobile/Policy: entitlements, usage bands, the decision on a data
--                                   session and its audited record. `evaluate_session`,
--                                   `evaluate_usage` and `decide` keep their names.
--   mobile/src/period.rs            Mobile/Period: billing periods (Defs), and `check_periods` (Check).
--   mobile/src/account.rs           Mobile/Account: the account registry; `apply` takes a `Change`, and
--                                   the methods that wrap it keep their names. A method returns its
--                                   result and the registry after it.
--   mobile/src/selection.rs         Mobile/Selection: the choice of a network; `Allowed` is `chosen`, and
--                                   a signal is its value plus 2 ^ 31.
--   kernel-arm/src/data_state.rs    KernelArm/DataState: usage, sessions, periods and last resets, one
--                                   list each. `DataState::reset_usage` is `clear_usage`.
--   kernel-arm/src/svc.rs           KernelArm/DataReset: the handler of `SYS_DATA_RESET`, which asks the
--                                   period gate of mobile and then changes the data state.
--   citadel-integration/src/lib.rs  CitadelIntegration/WormLog: the hash-chained evidence log.
--                                   `WormLog::record` is `push_entry`.
--   kernel-arm/src/audit_chain.rs   KernelArm/AuditChain: the log with a bound, over WormLog.
--                                   `BoundedAudit::record` is `record_event`.
--                                   KernelArm/ReconcileMemory: the memory of the reconciler.
--   kernel-arm/src/reclaim.rs       KernelArm/Reclaim: the plan of what an address space gives back.
--   kernel/src/ipc.rs               Kernel/Ipc/Ports: the fixed ports; Kernel/Ipc/Messages: threads that
--                                   send whole messages to one; Kernel/Ipc/Sessions: the sessions.
--                                   A function that spins is one pass of its loop, which answers or
--                                   yields.
--   capability-manager/src/lib.rs   CapabilityManager: tokens and their revocation.
--   ipc/src/fs.rs, sockets.rs,      Ipc/Fs, Ipc/Sockets, Ipc/Marshal: the messages and their bytes;
--     marshal.rs                    `encode` and `decode` are `encode_request`, `decode_response` and so
--                                   on, `to_byte` and `from_byte` are `error_byte` and `error_of`.
-- The data state uses the policy and the periods of mobile; the reset handler uses the data state; the
-- bounded log appends to the evidence log; a file request carries a token of the capability manager, and
-- its bytes travel over the ports and sessions of the kernel. Base holds what they share: tests, lists,
-- saturating and checked words, bytes and texts, sorting, tables with a key.
--
-- Numbers are natural numbers. A `u64` keeps its saturating, checked and wrapping operations written out;
-- where a theorem needs that an input fits its word, it says so. There are no loops on fuel but `digits`
-- of Base/Texts, whose 20 steps print any `u64`. A string is the list of its bytes, and UTF-8 is checked
-- where the source checks it. SHA-256, Ed25519 and the hex encoding are parameters; what a theorem
-- assumes of them is among its hypotheses. The lifecycles of profiles are a function that the caller of
-- the registry gives. What the capability check, the entitlement table, the account registry, the
-- MARSHAL gate and the timer answer to a reset is given with the request. In the model the checks and
-- the effect of a reset are one step; in the code the gate between them may run a nested excursion to
-- EL0, which svc.rs calls sound with its one EL0 context. The x86 scheduler preempts by the timer, but a
-- syscall runs with interrupts masked (its gate is an interrupt gate) and gives up the processor only
-- where it yields, so the ipc calls of threads that run at once are a sequence of passes.
--
-- Not modelled: the other syscalls, and the audit records and serial lines of the handlers; the signed
-- allowlists of citadel-integration; the `Display` texts; the reconciler of mobile; the scheduler, the
-- file system, the drivers and the desktop, of which much is access to hardware, processes or the network.
pub mod Base
pub mod Mobile
pub mod Kernel
pub mod KernelArm
pub mod Ipc
pub mod CapabilityManager
pub mod CitadelIntegration
