-- ===== src/KernelArm/ReconcileMemory.antt =====
-- kernel-arm/src/audit_chain.rs: `ReconcileMemory`, which of a reconcile pass's findings are new. The set
-- of the last pass's keys is a list of distinct keys.
pub mod Fresh
mod Examples
use runix.Base.{
  Bool, Bytes, List, Option, [], any, bytes_eq, false, if◌then◌else◌, none, not, sat_add, some,
  true, ℕ, ◌&&◌, ◌++◌, ◌∷◌,
}

pub record ReconcileMemory : Type 0 where
  pub prev : List Bytes
  pub last_clean : Bool
  pub passes : ℕ
  pub clean_passes : ℕ

pub data CleanPass : Type 0 where
  record_pass coalesce_pass : ℕ → CleanPass

pub record PassPlan : Type 0 where
  pub fresh : List Bool
  pub clean : Option CleanPass

abbrev pub new_memory : ReconcileMemory
new_memory = record { prev = []; last_clean = false; passes = 0; clean_passes = 0 }

-- `set.contains(key)`
abbrev pub contains : List Bytes → Bytes → Bool
contains set key = any (λ k. bytes_eq k key) set

-- `set.insert(key)`: the set after it.
abbrev pub insert_key : List Bytes → Bytes → List Bytes
insert_key set key = if contains set key then set else set ++ key ∷ []

-- The loop over the keys, with the set of those before.
pub fresh_keys : List Bytes → List Bytes → List Bytes → List Bool × List Bytes
fresh_keys prev current [] = ([], current)
fresh_keys prev current (key ∷ keys) =
    let (flags, set) = fresh_keys prev (insert_key current key) keys in
    ((not (contains prev key) && not (contains current key)) ∷ flags, set)

abbrev pub is_empty : List Bytes → Bool
is_empty [] = true
is_empty (k ∷ ks) = false

pub observe : ReconcileMemory → List Bytes → PassPlan × ReconcileMemory
unfolding fresh_keys
observe m keys =
    let (fresh, current) = fresh_keys m.prev [] keys in
    let clean_passes = if is_empty keys then sat_add m.clean_passes 1 else m.clean_passes in
    let plan : PassPlan = record {
      fresh = fresh;
      clean =
          if is_empty keys
          then some (if m.last_clean then coalesce_pass clean_passes else record_pass clean_passes)
          else none;
    } in
    (
      plan,
      record {
        prev = current;
        last_clean = is_empty keys;
        passes = sat_add m.passes 1;
        clean_passes = clean_passes;
      },
    )
