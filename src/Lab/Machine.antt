-- ===== src/Lab/Machine.antt =====
-- cks_simulator/providers/base.py and state.py: provider handles, machines and their observations.
-- An observation is one that `MachineObservation.__post_init__` has let through and normalised.
pub mod Observed
use Prim.Native.String.{compare}
use text.Mathlib.Text.{is_lt}
use cks_simulator.Common.{
  ℕ, String, Bool, true, false, not, ◌&&◌, ◌||◌, Option, none, some, List, [], ◌∷◌, map,
  if◌then◌else◌, ◌==◌, length, str_eq, is_in, texts_eq, is_identifier, is_canonical_uuid,
  drop_hyphens, take_text, ◌+++◌, Kind, Result, ok, raise, raise_if, ◌>>=◌, ◌>>◌, Checked,
}

pub record ProviderHandle : Type 0 where
  pub provider : String
  pub value : String

abbrev pub handle_eq : ProviderHandle → ProviderHandle → Bool
handle_eq a b = str_eq a.provider b.provider && str_eq a.value b.value

pub record ProviderMachine : Type 0 where
  pub role : String
  pub machine_id : String
  pub handle : ProviderHandle

pub record GuestIdentity : Type 0 where
  pub lab_id : String
  pub machine_id : String
  pub role : String
  pub handle : ProviderHandle

pub record MachineObservation : Type 0 where
  pub role : String
  pub machine_id : String
  pub handle : ProviderHandle
  pub ipv4 : String
  pub mac_address : String
  pub product_uuid : String
  pub provisioning_bundle_sha256 : String
  pub provisioning_spec_sha256 : String

-- `left == right`, field by field.
observation_eq : MachineObservation → MachineObservation → Bool
observation_eq a b =
    str_eq a.role b.role
    && str_eq a.machine_id b.machine_id
    && handle_eq a.handle b.handle
    && str_eq a.ipv4 b.ipv4
    && str_eq a.mac_address b.mac_address
    && str_eq a.product_uuid b.product_uuid
    && str_eq a.provisioning_bundle_sha256 b.provisioning_bundle_sha256
    && str_eq a.provisioning_spec_sha256 b.provisioning_spec_sha256

pub observations_eq : List MachineObservation → List MachineObservation → Bool
unfolding observation_eq
observations_eq [] [] = true
observations_eq (a ∷ rest) (b ∷ bs) = observation_eq a b && observations_eq rest bs
observations_eq _ _ = false

-- `ProviderHandle(provider, value)`, which validates both.
construct_handle : String → String → Result ProviderHandle
construct_handle provider value = do
  raise_if (not (is_identifier provider)) Kind.value_error "provider is no identifier"
  raise_if (not (is_identifier value)) Kind.value_error "provider handle is no identifier"
  ok (record { provider = provider; value = value })

-- `uuid.UUID(canonical).hex[:16]`
handle_prefix : String → String
handle_prefix lab_id = take_text 16 (drop_hyphens lab_id)

-- The Kind provider has one machine.
kind_handle : String → String → String → Result ProviderHandle
unfolding construct_handle handle_prefix
kind_handle provider lab_id role =
    if not (str_eq role "cluster")
    then raise Kind.value_error "Kind provider identity requires the 'cluster' role"
    else construct_handle provider ("cks-" +++ handle_prefix lab_id +++ "-cluster")

-- The branches on the provider.
handle_for : String → String → String → Result ProviderHandle
unfolding construct_handle handle_prefix kind_handle
handle_for provider lab_id role =
    if str_eq provider "lima"
    then construct_handle provider ("cks-" +++ handle_prefix lab_id +++ "-" +++ role)
    else if str_eq provider "kind"
    then kind_handle provider lab_id role
    else raise Kind.value_error "unsupported provider"

unfoldable pub derive_provider_handle : String → String → String → Result ProviderHandle
unfolding handle_for
derive_provider_handle provider lab_id role = do
  raise_if (not (is_identifier provider)) Kind.value_error "provider is no identifier"
  raise_if (not (is_canonical_uuid lab_id)) Kind.value_error "lab_id must be a canonical UUID"
  raise_if (not (is_identifier role)) Kind.value_error "machine role is no identifier"
  handle_for provider lab_id role

-- `_FULL_LIMA_ROLES`
abbrev pub full_lima_roles : List String
full_lima_roles = "candidate" ∷ "control-plane" ∷ "worker1" ∷ "worker2" ∷ []

insert_text : String → List String → List String
insert_text s [] = s ∷ []
insert_text s (t ∷ ts) = if is_lt (compare t s) then t ∷ insert_text s ts else s ∷ t ∷ ts

-- `tuple(sorted(values))`
sort_texts : List String → List String
unfolding insert_text
sort_texts [] = []
sort_texts (s ∷ ss) = insert_text s (sort_texts ss)

-- `len(values) == len(set(values))`
unfoldable pub distinct : List String → Bool
distinct [] = true
distinct (s ∷ ss) = not (is_in s ss) && distinct ss

unfoldable pub has_handle : ProviderHandle → List ProviderHandle → Bool
has_handle h [] = false
has_handle h (k ∷ ks) = handle_eq h k || has_handle h ks

unfoldable pub distinct_handles : List ProviderHandle → Bool
unfolding has_handle
distinct_handles [] = true
distinct_handles (h ∷ hs) = not (has_handle h hs) && distinct_handles hs

-- `machine_by_role[role]` and `observations_by_role[role]`; the roles are distinct.
machine_of : String → List ProviderMachine → Option ProviderMachine
machine_of role [] = none
machine_of role (m ∷ ms) = if str_eq m.role role then some m else machine_of role ms

observation_of : String → List MachineObservation → Option MachineObservation
observation_of role [] = none
observation_of role (o ∷ os) = if str_eq o.role role then some o else observation_of role os

-- One round of the loop over the roles. A role that a dictionary lacks cannot occur behind the
-- tests on the sets of roles.
match_machine : Option ProviderMachine → Option MachineObservation → Result MachineObservation
match_machine none o = raise Kind.other "KeyError"
match_machine (some m) none = raise Kind.other "KeyError"
match_machine (some m) (some o) =
    if str_eq o.role m.role && str_eq o.machine_id m.machine_id && handle_eq o.handle m.handle
    then ok o
    else raise Kind.state_validation_error
        "machine observation identity does not match immutable inventory"

order_observations :
    List String → List ProviderMachine → List MachineObservation → Result (List MachineObservation)
unfolding machine_of observation_of match_machine
order_observations [] inventory observations = ok []
order_observations (role ∷ roles) inventory observations = do
  o ← match_machine (machine_of role inventory) (observation_of role observations)
  os ← order_observations roles inventory observations
  ok (o ∷ os)

-- `set(left) == set(right)`
all_in : List String → List String → Bool
all_in [] ts = true
all_in (s ∷ ss) ts = is_in s ts && all_in ss ts

-- `_validated_observation_tuple`
pub validated_observations :
    String → List ProviderMachine → List MachineObservation → Result (List MachineObservation)
unfolding sort_texts distinct distinct_handles order_observations all_in
validated_observations provider inventory observations = do
  raise_if (not (str_eq provider "lima")) Kind.state_validation_error
      "machine observations are supported only for the full Lima lab"
  let roles = map (λ m. m.role) inventory
  raise_if (not (texts_eq (sort_texts roles) (sort_texts full_lima_roles)))
      Kind.state_validation_error
      "full Lima inventory must use candidate, control-plane, worker1, and worker2"
  raise_if (not (length observations == 4)) Kind.state_validation_error
      "machine observations must contain all four full-Lima machines"
  let observed = map (λ o. o.role) observations
  raise_if (not (distinct observed)) Kind.state_validation_error
      "machine observation roles must be unique"
  raise_if (not (distinct (map (λ o. o.machine_id) observations))) Kind.state_validation_error
      "machine observation machine identities must be unique"
  raise_if (not (distinct_handles (map (λ o. o.handle) observations))) Kind.state_validation_error
      "machine observation provider handles must be unique"
  raise_if (not (distinct (map (λ o. o.ipv4) observations))) Kind.state_validation_error
      "machine observation IPv4 addresses must be unique"
  raise_if (not (distinct (map (λ o. o.mac_address) observations))) Kind.state_validation_error
      "machine observation MAC addresses must be unique"
  raise_if (not (distinct (map (λ o. o.product_uuid) observations))) Kind.state_validation_error
      "machine observation product UUIDs must be unique"
  raise_if (not (all_in observed roles && all_in roles observed)) Kind.state_validation_error
      "machine observation roles do not match immutable inventory"
  order_observations full_lima_roles inventory observations
