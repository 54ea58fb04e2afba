-- ===== src/Lab/Authority/Deletes.antt =====
-- What is deleted: the owned machines, each of them proven, and nothing on an uncertain discovery.
use mathlib.Core.List.{Permᴰ}
use cks_simulator.Common.{◌≡◌, refl, ◌⊎◌, inl, inr, String, List, [], All, ok, bind_ok, arith}
use cks_simulator.Lab.Machine.{ProviderHandle, ProviderMachine, GuestIdentity}
use cks_simulator.Lab.State.{LabState, validate_derived_inventory}
use cks_simulator.Lab.Store.{Disk, load}
use cks_simulator.Lab.Authority.{
  Presence, present, absent, unknown, ordinary, Discovery, Provider, handles_of, prove_present,
  deletions, check_provider, check_guests, check_authority, sort_machines,
  require_mutation_authority, destroy_owned,
}
use cks_simulator.Lab.Authority.Ordered.{InOrder, sort_machines-Perm, sort_machines-InOrder}
use cks_simulator.Lab.Authority.Proven.{IsProven, prove_handles-All, check_guests-Proven}

-- The machines that are deleted, in order.
abbrev pub Deletes : List ProviderMachine → List ProviderHandle → Type 0
Deletes owned hs = (ms : List ProviderMachine) × (hs ≡ handles_of ms) × Permᴰ owned ms × InOrder ms

-- What a discovery that is neither absent nor present lets happen: nothing.
destroy_cases :
    (provider : Provider) (s : LabState) (p : Presence) (discovered hs : List ProviderHandle)
    (gs : List GuestIdentity)
    → prove_present p provider s discovered ≡ ok gs
    → check_authority p s discovered gs ≡ ok tt
    → hs ≡ deletions p s.inventory
    → ((p ≡ absent) × (hs ≡ []))
      ⊎ ((p ≡ present) × Deletes s.inventory hs × All (IsProven provider ordinary s) s.inventory)
unfolding check_authority prove_present deletions
destroy_cases provider s unknown discovered hs gs proven checked eq = absurd (ground arith)
destroy_cases provider s absent discovered hs gs proven checked eq = inl (refl, eq)
destroy_cases provider s present discovered hs gs proven checked eq =
    let guests = prove_handles-All provider ordinary s discovered gs proven in
    let agreed : check_guests s gs s.inventory ≡ ok tt = ground arith in
    inr (
      refl,
      (
        sort_machines s.inventory,
        eq,
        sort_machines-Perm s.inventory,
        sort_machines-InOrder s.inventory,
      ),
      check_guests-Proven provider ordinary s gs s.inventory guests agreed,
    )

module _ (namespace lab : String) (provider : Provider) (disk : Disk) (s : LabState)
    (found : load namespace lab disk ≡ ok s) where
  -- What the provider answers for the handles of the inventory.
  abbrev pub answer : Discovery
  answer = provider.discover (handles_of s.inventory)

  authority_inv :
      (d : Discovery) (gs : List GuestIdentity) (t : LabState)
      → require_mutation_authority namespace lab d gs disk ≡ ok t
      → (t ≡ s) × (check_authority d.presence s d.handles gs ≡ ok tt)
  unfolding require_mutation_authority
  authority_inv d gs t h = ground (arith, found)

  destroy_parts :
      (hs : List ProviderHandle)
      → destroy_owned namespace lab provider disk ≡ ok hs
      → (gs : List GuestIdentity) × (prove_present answer.presence provider s answer.handles
          ≡ ok gs)
        × (check_authority answer.presence s answer.handles gs ≡ ok tt)
        × (hs ≡ deletions answer.presence s.inventory)
  unfolding destroy_owned
  destroy_parts hs h =
      let (s', e₁, r₁) = bind_ok (load namespace lab disk) h in
      let same : s' ≡ s = ground (arith, found) in
      let (_, e₂, r₂) = bind_ok (validate_derived_inventory s'.identity s'.inventory) r₁ in
      let (_, e₃, r₃) = bind_ok (check_provider provider s') r₂ in
      let d : Discovery = provider.discover (handles_of s'.inventory) in
      let (gs, e₄, r₄) = bind_ok (prove_present d.presence provider s' d.handles) r₃ in
      let (t, e₅, r₅) = bind_ok (require_mutation_authority namespace lab d gs disk) r₄ in
      let (authorized, checked) = authority_inv d gs t e₅ in
      (gs, ground arith, ground arith, ground arith)

  -- A destruction that succeeds on a lab that loads has either been told that nothing is there and
  -- deletes nothing, or deletes exactly the machines of the inventory, workers before the control
  -- plane before the candidate, and the provider has proven each of them.
  pub destroy_owned-Deletes :
      (hs : List ProviderHandle)
      → destroy_owned namespace lab provider disk ≡ ok hs
      → ((answer.presence ≡ absent) × (hs ≡ []))
        ⊎ ((answer.presence ≡ present)
            × Deletes s.inventory hs
            × All (IsProven provider ordinary s) s.inventory)
  destroy_owned-Deletes hs h =
      let (gs, proven, checked, eq) = destroy_parts hs h in
      destroy_cases provider s answer.presence answer.handles hs gs proven checked eq
