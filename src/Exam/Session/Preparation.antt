-- ===== src/Exam/Session/Preparation.antt =====
-- Preparation of the tasks: each is claimed before the guests change, and confirmed afterwards.
use cks_simulator.Common.{
  ℕ, zero, suc, ◌+◌, ◌≤◌, ◌≡◌, refl, sym, ap, ◌∙◌, ◌↔◌, String, true, false, Option, none, some,
  List, [], ◌∷◌, ◌++◌, get_elem?, get_last?, take, length, length-append, take_grow, str_eq, eq_iff,
  ok, arith,
}
use cks_simulator.Exam.Base.{expected_task_ids, preparing}
use cks_simulator.Exam.Session.{
  ExamSession, claim_preparation, confirm_preparation, is_next_task, is_last_claim,
}
use cks_simulator.Exam.Session.Valid.{IsValid, construct_iff, construct-IsValid}

-- The next task of the fixed order, with no claim left open.
pub record CanClaim (task_id : String) (s : ExamSession) : Type 0 where
  pub still_preparing : s.status ≡ preparing
  pub next : get_elem? expected_task_ids (length s.claimed_task_ids) ≡ some task_id
  pub settled : length s.claimed_task_ids ≡ length s.prepared_task_ids

abbrev pub with_claim : String → ExamSession → ExamSession
with_claim task_id s = record s {
  claimed_task_ids = s.claimed_task_ids ++ task_id ∷ [];
  revision = s.revision + 1;
}

-- The last claimed task, if its claim is open.
pub record CanConfirm (task_id : String) (s : ExamSession) : Type 0 where
  pub still_preparing : s.status ≡ preparing
  pub last : get_last? s.claimed_task_ids ≡ some task_id
  pub pending : length s.claimed_task_ids ≡ suc (length s.prepared_task_ids)

abbrev pub with_confirmation : String → ExamSession → ExamSession
with_confirmation task_id s = record s {
  prepared_task_ids = s.prepared_task_ids ++ task_id ∷ [];
  revision = s.revision + 1;
}

is_next_task_iff :
    (t : String) (n : ℕ) → (is_next_task t n ≡ true) ↔ (get_elem? expected_task_ids n ≡ some t)
unfolding is_next_task
is_next_task_iff t n = go (get_elem? expected_task_ids n)
  where
    go : (o : Option String) → (elim o [ none ↦ false | some e ↦ str_eq t e ] ≡ true) ↔ (o ≡ some t)
    go none = ((λ h. cc), (λ h. cc))
    go (some e) = ((λ h. ground (arith, eq_iff t e)), (λ h. ground (arith, eq_iff t e)))

is_last_claim_iff :
    (t : String) (claimed : List String)
    → (is_last_claim t claimed ≡ true) ↔ (get_last? claimed ≡ some t)
unfolding is_last_claim
is_last_claim_iff t claimed = go (get_last? claimed)
  where
    go : (o : Option String) → (elim o [ none ↦ false | some e ↦ str_eq e t ] ≡ true) ↔ (o ≡ some t)
    go none = ((λ h. cc), (λ h. cc))
    go (some e) = ((λ h. ground (arith, eq_iff e t)), (λ h. ground (arith, eq_iff e t)))

-- A list that is a prefix stays one when the next element is added.
prefix_grow :
    (t : String) (xs all : List String)
    → xs ≡ take (length xs) all
    → get_elem? all (length xs) ≡ some t
    → xs ++ t ∷ [] ≡ take (length (xs ++ t ∷ [])) all
prefix_grow t xs all p n =
    let size : length (xs ++ t ∷ []) ≡ suc (length xs) = omega (arith, length-append xs (t ∷ [])) in
    rw size (ap (λ ys. ys ++ t ∷ []) p ∙ sym (take_grow (length xs) t all n))

module _ {ℓ} {A : Type ℓ} where
  -- A prefix is not touched by an addition behind it.
  take-append_short : (n : ℕ) (xs ys : List A) → n ≤ length xs → take n (xs ++ ys) ≡ take n xs
  take-append_short zero xs ys h = refl
  take-append_short (suc n) [] ys h = absurd (omega arith)
  take-append_short (suc n) (x ∷ xs) ys h =
      ap (λ zs. x ∷ zs) (take-append_short n xs ys (omega arith))

  take_whole : (xs : List A) → take (length xs) xs ≡ xs
  take_whole [] = refl
  take_whole (x ∷ xs) = ap (λ zs. x ∷ zs) (take_whole xs)

  -- A list ends in its last element.
  split_last :
      (n : ℕ) (x : A) (xs : List A)
      → length xs ≡ suc n
      → get_last? xs ≡ some x
      → xs ≡ take n xs ++ x ∷ []
  split_last n x [] size last = cc
  split_last zero x (y ∷ []) size last = ap (λ z. z ∷ []) (cc)
  split_last (suc n) x (y ∷ []) size last = absurd (omega arith)
  split_last zero x (y ∷ z ∷ xs) size last = absurd (omega arith)
  split_last (suc n) x (y ∷ z ∷ xs) size last =
      ap (λ zs. y ∷ zs) (split_last n x (z ∷ xs) (omega arith) last)

pub with_claim-IsValid :
    (t : String) (s : ExamSession) → IsValid s → CanClaim t s → IsValid (with_claim t s)
with_claim-IsValid t s v c =
    let n = length s.prepared_task_ids in
    ground (
      arith,
      prefix_grow t s.claimed_task_ids expected_task_ids v.claims_prefix c.next,
      take-append_short n s.claimed_task_ids (t ∷ []) v.prepared_claimed,
      length-append s.claimed_task_ids (t ∷ []),
    )

with_confirmation-IsValid :
    (t : String) (s : ExamSession) → IsValid s → CanConfirm t s → IsValid (with_confirmation t s)
with_confirmation-IsValid t s v c =
    let ps = s.prepared_task_ids in
    let size : length (ps ++ t ∷ []) ≡ length s.claimed_task_ids =
      omega (arith, length-append ps (t ∷ []), c.pending) in
    let whole : ps ++ t ∷ [] ≡ s.claimed_task_ids =
      ap (λ ys. ys ++ t ∷ []) v.prepared_first
      ∙ sym (split_last (length ps) t s.claimed_task_ids c.pending c.last) in
    let first : ps ++ t ∷ [] ≡ take (length (ps ++ t ∷ [])) s.claimed_task_ids =
      rw size (whole ∙ sym (take_whole s.claimed_task_ids)) in
    let prefix : ps ++ t ∷ [] ≡ take (length (ps ++ t ∷ [])) expected_task_ids =
      rw size (whole ∙ v.claims_prefix) in
    ground arith

-- A claim on a valid session succeeds exactly for the next task of the order, while preparing and
-- with no claim open, and then adds that task and one revision.
pub claim_preparation_iff :
    (t : String) (s u : ExamSession)
    → IsValid s
    → (claim_preparation t s ≡ ok u) ↔ (CanClaim t s × (u ≡ with_claim t s))
unfolding claim_preparation
claim_preparation_iff t s u v = (
  (λ h.
      ground
        (arith, is_next_task_iff t (length s.claimed_task_ids), construct_iff (with_claim t s) u)),
  (λ h. ground (
    arith,
    is_next_task_iff t (length s.claimed_task_ids),
    construct-IsValid (with_claim t s) (with_claim-IsValid t s v h.0),
  )),
)

-- A confirmation on a valid session succeeds exactly for the task whose claim is open, while
-- preparing, and then adds that task and one revision.
pub confirm_preparation_iff :
    (t : String) (s u : ExamSession)
    → IsValid s
    → (confirm_preparation t s ≡ ok u) ↔ (CanConfirm t s × (u ≡ with_confirmation t s))
unfolding confirm_preparation
confirm_preparation_iff t s u v = (
  (λ h.
      ground
        (arith, is_last_claim_iff t s.claimed_task_ids, construct_iff (with_confirmation t s) u)),
  (λ h. ground (
    arith,
    is_last_claim_iff t s.claimed_task_ids,
    construct-IsValid (with_confirmation t s) (with_confirmation-IsValid t s v h.0),
  )),
)
