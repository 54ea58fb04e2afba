-- ===== src/Lab/Authority/Ordered.antt =====
-- The order of deletion: the same machines, the workers before the control plane before the candidate.
use mathlib.Core.List.{Permᴰ}
use mathlib.Core.List.Permᴰ
use cks_simulator.Common.{ℕ, ◌≤◌, refl, inl, inr, List, [], ◌∷◌, ltb, Bool-cases, All, arith}
use cks_simulator.Lab.Machine.{ProviderMachine}
use cks_simulator.Lab.Authority.{destroy_order, insert_machine, sort_machines}

-- Each machine stands before those that are deleted after it.
abbrev pub InOrder : List ProviderMachine → Type 0
InOrder [] = Unit
InOrder (m ∷ ms) = All (λ n. destroy_order m.role ≤ destroy_order n.role) ms × InOrder ms

insert_machine-Perm :
    (m : ProviderMachine) (ms : List ProviderMachine) → Permᴰ (m ∷ ms) (insert_machine m ms)
unfolding insert_machine
insert_machine-Perm m [] = Permᴰ.refl (m ∷ [])
insert_machine-Perm m (n ∷ ns) =
    elim (Bool-cases (ltb (destroy_order n.role) (destroy_order m.role))) [
      | inl later ↦
          rw later (Permᴰ.trans (Permᴰ.swap refl refl) (Permᴰ.cons refl (insert_machine-Perm m ns)))
      | inr first ↦ rw first (Permᴰ.refl (m ∷ n ∷ ns))
    ]

pub sort_machines-Perm : (ms : List ProviderMachine) → Permᴰ ms (sort_machines ms)
unfolding sort_machines
sort_machines-Perm [] = Permᴰ.nil
sort_machines-Perm (m ∷ ms) =
    Permᴰ.trans (Permᴰ.cons refl (sort_machines-Perm ms)) (insert_machine-Perm m (sort_machines ms))

-- What bounds the machine and the others bounds all of them.
insert_machine-All {κ} :
    (P : ProviderMachine → Type κ) (m : ProviderMachine) (ms : List ProviderMachine)
    → P m
    → All P ms
    → All P (insert_machine m ms)
unfolding insert_machine
insert_machine-All P m [] p ps = (p, tt)
insert_machine-All P m (n ∷ ns) p ps = ground (arith, insert_machine-All P m ns p ps.1)

All-weaken :
    (a b : ℕ) (ms : List ProviderMachine)
    → a ≤ b
    → All (λ n. b ≤ destroy_order n.role) ms
    → All (λ n. a ≤ destroy_order n.role) ms
All-weaken a b [] h ps = tt
All-weaken a b (m ∷ ms) h ps = (omega (arith, ps.0), All-weaken a b ms h ps.1)

insert_machine-InOrder :
    (m : ProviderMachine) (ms : List ProviderMachine) → InOrder ms → InOrder (insert_machine m ms)
unfolding insert_machine
insert_machine-InOrder m [] h = (tt, tt)
insert_machine-InOrder m (n ∷ ns) h =
    elim (Bool-cases (ltb (destroy_order n.role) (destroy_order m.role))) [
      | inl later ↦ rw later (
        insert_machine-All (λ k. destroy_order n.role ≤ destroy_order k.role) m ns (ground arith)
            h.0,
        insert_machine-InOrder m ns h.1,
      )
      | inr first ↦
          let here : destroy_order m.role ≤ destroy_order n.role = ground arith in
          rw first ((here, All-weaken (destroy_order m.role) (destroy_order n.role) ns here h.0), h)
    ]

pub sort_machines-InOrder : (ms : List ProviderMachine) → InOrder (sort_machines ms)
unfolding sort_machines
sort_machines-InOrder [] = tt
sort_machines-InOrder (m ∷ ms) =
    insert_machine-InOrder m (sort_machines ms) (sort_machines-InOrder ms)
