-- ===== src/Lab/Authority.antt =====
-- cks_simulator/state.py, `require_mutation_authority`, `destroy_owned` and
-- `break_glass_destroy_owned`, over the interface `Provider` of cks_simulator/providers/base.py.
-- The caller holds the lab's lock. A destroying call is modelled by the handles that it gives to
-- `_delete_exact`, in order.
pub mod Ordered
pub mod Proven
pub mod Deletes
mod Examples
use cks_simulator.Common.{
  ℕ, String, Bool, true, false, not, ◌&&◌, ◌||◌, Option, none, some, List, [], ◌∷◌, map, length,
  leb, ltb, ◌==◌, if◌then◌else◌, is_empty, str_eq, Kind, Result, ok, err, raise, raise_if, ◌>>=◌,
  ◌>>◌, Checked,
}
use cks_simulator.Lab.Phase.{LabPhase, is_degraded, is_closing, is_cleanup_pending}
use cks_simulator.Lab.Machine.{
  ProviderHandle, ProviderMachine, GuestIdentity, handle_eq, has_handle, distinct_handles,
}
use cks_simulator.Lab.State.{LabState, phase, validate_derived_inventory}
use cks_simulator.Lab.Store.{Disk, load, require_identity}

pub data Presence : Type 0 where
  present absent unknown : Presence

pub data OwnershipProofMode : Type 0 where
  ordinary break_glass : OwnershipProofMode

-- A discovery that `Discovery.__post_init__` has let through; its note is left out.
pub record Discovery : Type 0 where
  pub presence : Presence
  pub handles : List ProviderHandle

pub record Provider : Type 0 where
  pub name : String
  pub discover : List ProviderHandle → Discovery
  pub prove_ownership : GuestIdentity → OwnershipProofMode → Bool

abbrev pub handles_of : List ProviderMachine → List ProviderHandle
handles_of = map (λ m. m.handle)

-- `set(left) <= set(right)`
all_handles_in : List ProviderHandle → List ProviderHandle → Bool
all_handles_in [] ks = true
all_handles_in (h ∷ hs) ks = has_handle h ks && all_handles_in hs ks

pub lookup_guest : ProviderHandle → List GuestIdentity → Option GuestIdentity
lookup_guest h [] = none
lookup_guest h (g ∷ gs) = if handle_eq g.handle h then some g else lookup_guest h gs

abbrev pub guest_of : LabState → ProviderMachine → GuestIdentity
guest_of s m = record {
  lab_id = s.identity.lab_id;
  machine_id = m.machine_id;
  role = m.role;
  handle = m.handle;
}

-- The guest found for a machine must carry exactly its identity.
pub check_guest : LabState → ProviderMachine → Option GuestIdentity → Checked
check_guest s m none = raise Kind.ownership_error "guest identity is missing"
check_guest s m (some guest) =
    raise_if
      (not (str_eq guest.lab_id s.identity.lab_id)
        || not (str_eq guest.machine_id m.machine_id)
        || not (str_eq guest.role m.role)
        || not (handle_eq guest.handle m.handle))
      Kind.ownership_error "guest identity mismatch"

pub check_guests : LabState → List GuestIdentity → List ProviderMachine → Checked
unfolding lookup_guest check_guest
check_guests s guests [] = ok tt
check_guests s guests (m ∷ ms) = do
  check_guest s m (lookup_guest m.handle guests)
  check_guests s guests ms

check_present : LabState → List ProviderHandle → List GuestIdentity → Checked
unfolding all_handles_in check_guests
check_present s discovered guests = do
  raise_if (is_empty s.inventory) Kind.ownership_error "state has no immutable provider inventory"
  raise_if
      (not (
          all_handles_in discovered (handles_of s.inventory)
          && all_handles_in (handles_of s.inventory) discovered)
        || not (length discovered == length (handles_of s.inventory)))
      Kind.ownership_error "discovered provider handles do not exactly match owned inventory"
  raise_if (not (length guests == length s.inventory)) Kind.ownership_error
      "every owned provider handle requires one guest identity"
  raise_if (not (distinct_handles (map (λ g. g.handle) guests))) Kind.ownership_error
      "guest identities contain a duplicate provider handle"
  check_guests s guests s.inventory

-- The three answers of a discovery.
pub check_authority : Presence → LabState → List ProviderHandle → List GuestIdentity → Checked
unfolding check_present
check_authority unknown s discovered guests =
    raise Kind.ownership_error "provider discovery is unknown; refusing mutation"
check_authority absent s discovered guests =
    raise_if (not (is_empty guests)) Kind.ownership_error
      "provider reports absence but guest identities were supplied"
check_authority present s discovered guests = check_present s discovered guests

-- `machine_by_handle`; the handles of an inventory are distinct.
pub machine_at : ProviderHandle → List ProviderMachine → Option ProviderMachine
machine_at h [] = none
machine_at h (m ∷ ms) = if handle_eq m.handle h then some m else machine_at h ms

-- The round of one discovered handle. The second caller has tested that every handle is recorded.
pub prove_machine :
    Provider → OwnershipProofMode → LabState → Option ProviderMachine → Result GuestIdentity
prove_machine provider mode s none =
    raise Kind.ownership_error "provider discovery contains an unrecorded handle"
prove_machine provider mode s (some m) =
    if provider.prove_ownership (guest_of s m) mode
    then ok (guest_of s m)
    else raise Kind.ownership_error "provider ownership proof failed"

-- The loop over the discovered handles.
pub prove_handles :
    Provider → OwnershipProofMode → LabState → List ProviderHandle → Result (List GuestIdentity)
unfolding machine_at prove_machine
prove_handles provider mode s [] = ok []
prove_handles provider mode s (h ∷ hs) = do
  guest ← prove_machine provider mode s (machine_at h s.inventory)
  guests ← prove_handles provider mode s hs
  ok (guest ∷ guests)

-- `_DESTROY_ROLE_ORDER.get(role, -1)`, and one more.
pub destroy_order : String → ℕ
destroy_order role =
    if str_eq role "worker2"
    then 1
    else if str_eq role "worker1"
    then 2
    else if str_eq role "control-plane"
    then 3
    else if str_eq role "candidate"
    then 4
    else 0

-- `sorted(machines, key=…)`, which is stable.
pub insert_machine : ProviderMachine → List ProviderMachine → List ProviderMachine
insert_machine m [] = m ∷ []
insert_machine m (n ∷ ns) =
    if ltb (destroy_order n.role) (destroy_order m.role)
    then n ∷ insert_machine m ns
    else m ∷ n ∷ ns

pub sort_machines : List ProviderMachine → List ProviderMachine
unfolding insert_machine
sort_machines [] = []
sort_machines (m ∷ ms) = insert_machine m (sort_machines ms)

-- The machines whose handle was discovered.
pub discovered_machines : List ProviderHandle → List ProviderMachine → List ProviderMachine
discovered_machines hs [] = []
discovered_machines hs (m ∷ ms) =
    let rest = discovered_machines hs ms in if has_handle m.handle hs then m ∷ rest else rest

-- The guests of a discovery that found something.
pub prove_present :
    Presence → Provider → LabState → List ProviderHandle → Result (List GuestIdentity)
unfolding prove_handles
prove_present present provider s discovered = prove_handles provider ordinary s discovered
prove_present _ provider s discovered = ok []

pub deletions : Presence → List ProviderMachine → List ProviderHandle
unfolding sort_machines
deletions present inventory = handles_of (sort_machines inventory)
deletions _ inventory = []

pub check_recorded : LabState → List ProviderHandle → Checked
unfolding all_handles_in
check_recorded s discovered =
    raise_if
      (not (all_handles_in discovered (handles_of s.inventory))
        || not (distinct_handles discovered))
      Kind.ownership_error "break-glass discovery contains an unrecorded handle"

pub break_glass_present :
    Presence → Provider → LabState → List ProviderHandle → Result (List ProviderHandle)
unfolding check_recorded prove_handles sort_machines discovered_machines
break_glass_present unknown provider s discovered =
    raise Kind.ownership_error "provider discovery is unknown; refusing break-glass cleanup"
break_glass_present absent provider s discovered = ok []
break_glass_present present provider s discovered = do
  check_recorded s discovered
  guests ← prove_handles provider break_glass s discovered
  ok (handles_of (sort_machines (discovered_machines discovered s.inventory)))

pub check_provider : Provider → LabState → Checked
check_provider provider s =
    raise_if (not (str_eq provider.name s.identity.provider)) Kind.ownership_error
      "provider does not match the immutable lab identity"

module _ (namespace : String) where
  pub require_mutation_authority : String → Discovery → List GuestIdentity → Disk → Result LabState
  unfolding check_authority
  require_mutation_authority lab discovery guests disk = do
    s ← load namespace lab disk
    check_authority discovery.presence s discovery.handles guests
    ok s

  pub destroy_owned : String → Provider → Disk → Result (List ProviderHandle)
  unfolding check_provider prove_present deletions require_mutation_authority
  destroy_owned lab provider disk = do
    s ← load namespace lab disk
    validate_derived_inventory s.identity s.inventory
    check_provider provider s
    let discovery = provider.discover (handles_of s.inventory)
    guests ← prove_present discovery.presence provider s discovery.handles
    authorized ← require_mutation_authority lab discovery guests disk
    ok (deletions discovery.presence authorized.inventory)

  pub break_glass_destroy_owned : String → String → Provider → Disk → Result (List ProviderHandle)
  unfolding check_provider break_glass_present
  break_glass_destroy_owned lab expected_lab_id provider disk = do
    s ← load namespace lab disk
    require_identity s expected_lab_id
    raise_if (not (is_degraded (phase s) || is_cleanup_pending (phase s))) Kind.ownership_error
        "break-glass cleanup requires a degraded or cleanup-pending lab"
    raise_if (is_empty s.inventory) Kind.ownership_error
        "break-glass cleanup requires immutable provider inventory"
    validate_derived_inventory s.identity s.inventory
    check_provider provider s
    let discovery = provider.discover (handles_of s.inventory)
    break_glass_present discovery.presence provider s discovery.handles
