-- ===== src/Lab/Authority/Proven.antt =====
-- The proofs of ownership that stand behind an authorised deletion.
use cks_simulator.Common.{
  ◌≡◌, refl, inl, inr, true, Option, none, some, List, [], ◌∷◌, eq_iff, Option-cases, All, ok,
  bind_ok, arith,
}
use cks_simulator.Lab.Machine.{ProviderHandle, ProviderMachine, GuestIdentity, handle_eq}
use cks_simulator.Lab.State.{LabState}
use cks_simulator.Lab.Authority.{
  OwnershipProofMode, Provider, lookup_guest, guest_of, check_guest, check_guests, machine_at,
  prove_machine, prove_handles,
}

handle_eq_iff : (a b : ProviderHandle) → handle_eq a b ≡ true → a ≡ b
handle_eq_iff a b h = ground (arith, eq_iff a.provider b.provider, eq_iff a.value b.value)

module _ (provider : Provider) (mode : OwnershipProofMode) where
  abbrev ProvenGuest : GuestIdentity → Type 0
  ProvenGuest g = provider.prove_ownership g mode ≡ true

  -- The provider has proven that the machine belongs to the lab.
  abbrev pub IsProven : LabState → ProviderMachine → Type 0
  IsProven s m = provider.prove_ownership (guest_of s m) mode ≡ true

  prove_machine-Proven :
      (s : LabState) (o : Option ProviderMachine) (g : GuestIdentity)
      → prove_machine provider mode s o ≡ ok g
      → ProvenGuest g
  unfolding prove_machine
  prove_machine-Proven s none g h = ground arith
  prove_machine-Proven s (some m) g h = ground arith

  pub prove_handles-All :
      (s : LabState) (hs : List ProviderHandle) (gs : List GuestIdentity)
      → prove_handles provider mode s hs ≡ ok gs
      → All ProvenGuest gs
  unfolding prove_handles
  prove_handles-All s [] gs h = ground arith
  prove_handles-All s (k ∷ hs) gs h =
      let (g, e, rest) = bind_ok (prove_machine provider mode s (machine_at k s.inventory)) h in
      let (gs', e', last) = bind_ok (prove_handles provider mode s hs) rest in
      ground (
        arith,
        prove_machine-Proven s (machine_at k s.inventory) g e,
        prove_handles-All s hs gs' e',
      )

  lookup_guest-Proven :
      (k : ProviderHandle) (gs : List GuestIdentity) (g : GuestIdentity)
      → All ProvenGuest gs
      → lookup_guest k gs ≡ some g
      → ProvenGuest g
  unfolding lookup_guest
  lookup_guest-Proven k [] g ps h = cc
  lookup_guest-Proven k (x ∷ gs) g ps h = ground (arith, lookup_guest-Proven k gs g ps.1)

  -- A guest that passes the check carries the identity of the machine.
  check_guest-Proven :
      (s : LabState) (m : ProviderMachine) (g : GuestIdentity)
      → check_guest s m (some g) ≡ ok tt
      → ProvenGuest g
      → IsProven s m
  unfolding check_guest
  check_guest-Proven s m g h p =
      let same : g ≡ guest_of s m = ground (
        arith,
        eq_iff g.lab_id s.identity.lab_id,
        eq_iff g.machine_id m.machine_id,
        eq_iff g.role m.role,
        handle_eq_iff g.handle m.handle,
      ) in
      rw same at p

  pub check_guests-Proven :
      (s : LabState) (gs : List GuestIdentity) (ms : List ProviderMachine)
      → All ProvenGuest gs
      → check_guests s gs ms ≡ ok tt
      → All (IsProven s) ms
  unfolding check_guests check_guest
  check_guests-Proven s gs [] ps h = tt
  check_guests-Proven s gs (m ∷ ms) ps h = elim (Option-cases (lookup_guest m.handle gs)) [
    | inl e ↦ absurd (ground arith)
    | inr (g, e) ↦
        let here : check_guest s m (some g) ≡ ok tt = ground arith in
        (
          check_guest-Proven s m g here (lookup_guest-Proven m.handle gs g ps e),
          check_guests-Proven s gs ms ps (ground arith),
        )
  ]

-- The handle is recorded in the inventory, for a machine that the provider has proven.
abbrev pub IsRecorded : Provider → OwnershipProofMode → LabState → ProviderHandle → Type 0
IsRecorded provider mode s h =
    (m : ProviderMachine) × (machine_at h s.inventory ≡ some m) × IsProven provider mode s m

prove_machine-some :
    (provider : Provider) (mode : OwnershipProofMode) (s : LabState) (o : Option ProviderMachine)
    (g : GuestIdentity)
    → prove_machine provider mode s o ≡ ok g
    → (m : ProviderMachine) × (o ≡ some m) × IsProven provider mode s m
unfolding prove_machine
prove_machine-some provider mode s none g h = absurd (ground arith)
prove_machine-some provider mode s (some m) g h = (m, refl, ground arith)

pub prove_handles-Recorded :
    (provider : Provider) (mode : OwnershipProofMode) (s : LabState) (hs : List ProviderHandle)
    (gs : List GuestIdentity)
    → prove_handles provider mode s hs ≡ ok gs
    → All (IsRecorded provider mode s) hs
unfolding prove_handles
prove_handles-Recorded provider mode s [] gs h = tt
prove_handles-Recorded provider mode s (k ∷ hs) gs h =
    let (g, e, rest) = bind_ok (prove_machine provider mode s (machine_at k s.inventory)) h in
    let (gs', e', last) = bind_ok (prove_handles provider mode s hs) rest in
    (
      prove_machine-some provider mode s (machine_at k s.inventory) g e,
      prove_handles-Recorded provider mode s hs gs' e',
    )
