-- ===== src/Exam/Session/Valid.antt =====
-- What a constructed `ExamSession` satisfies, written without the code's tests, and the proof that
-- `__post_init__` lets through exactly the sessions that satisfy it.
use cks_simulator.Common.{
  ℕ, ◌+◌, ◌*◌, ◌≤◌, ◌≡◌, refl, ◌↔◌, String, true, Option, none, some, List, take, length, is_in,
  texts_eq, texts_eq_iff, text_length, is_identifier, is_canonical_uuid, Fields, ok, arith, ◌⊎◌,
}
use cks_simulator.Exam.Base.{
  expected_task_ids, ExamStatus, ExamEndReason, preparing, submitted, failed, Instant,
}
use cks_simulator.Exam.Session.{
  ExamTaskProgress, ExamSession, task_ids, check_identity, check_numbers, check_tasks,
  check_digests, check_timer, check_receipt, check_failure, construct,
}

-- The timer runs for exactly the duration.
abbrev IsTimed : Option Instant → Option Instant → ℕ → Type 0
IsTimed (some start) (some deadline) duration = deadline ≡ start + duration * 1000000
IsTimed _ _ duration = ⊥

-- No timer and nothing terminal.
abbrev IsUntimed : Option Instant → Option Instant → Option Instant → Option ExamEndReason → Type 0
IsUntimed none none none none = Unit
IsUntimed _ _ _ _ = ⊥

-- The timer of each status; a failed session has one if it failed after the start.
abbrev TimerFits :
    ExamStatus
    → Option Instant
    → Option Instant
    → Option Instant
    → Option ExamEndReason
    → ℕ
    → Type 0
TimerFits preparing started deadline ended reason duration = IsUntimed started deadline ended reason
TimerFits failed started deadline ended reason duration =
    IsUntimed started deadline ended reason ⊎ IsTimed started deadline duration
TimerFits _ started deadline ended reason duration = IsTimed started deadline duration

-- A receipt stands in a submitted session, with the time and the reason, and nowhere else.
abbrev ReceiptFits : ExamStatus → Option Instant → Option ExamEndReason → Option Fields → Type 0
ReceiptFits submitted (some ended) (some reason) (some receipt) = Unit
ReceiptFits submitted _ _ _ = ⊥
ReceiptFits _ ended reason receipt = receipt ≡ none

abbrev FailureFits : Option String → Type 0
FailureFits none = Unit
FailureFits (some detail) = text_length detail ≤ 2048

pub record IsValid (s : ExamSession) : Type 0 where
  pub lab_name_safe : is_identifier s.lab_name ≡ true
  pub lab_id_canonical : is_canonical_uuid s.lab_id ≡ true
  pub session_id_canonical : is_canonical_uuid s.session_id ≡ true
  pub schema_known : s.schema_version ≡ 1
  pub duration_low : 60 ≤ s.duration_seconds
  pub duration_high : s.duration_seconds ≤ 21600
  pub tasks_complete : task_ids s.tasks ≡ expected_task_ids
  pub claims_prefix : s.claimed_task_ids ≡ take (length s.claimed_task_ids) expected_task_ids
  pub prepared_prefix : s.prepared_task_ids ≡ take (length s.prepared_task_ids) expected_task_ids
  pub prepared_claimed : length s.prepared_task_ids ≤ length s.claimed_task_ids
  pub prepared_first : s.prepared_task_ids ≡ take (length s.prepared_task_ids) s.claimed_task_ids
  pub selected_known : is_in s.selected_task_id expected_task_ids ≡ true
  pub catalog_digest : text_length s.catalog_sha256 ≡ 64
  pub manifest_digest : text_length s.manifest_sha256 ≡ 64
  pub timer :
      TimerFits s.status s.started_at s.deadline_at s.submitted_at s.end_reason s.duration_seconds
  pub receipt_fits : ReceiptFits s.status s.submitted_at s.end_reason s.receipt
  pub failure_fits : FailureFits s.failure

check_numbers_iff : (v d : ℕ) → (check_numbers v d ≡ ok tt) ↔ ((v ≡ 1) × (60 ≤ d) × (d ≤ 21600))
unfolding check_numbers
check_numbers_iff v d = ((λ h. ground arith), (λ h. ground arith))

check_digests_iff :
    (c m : String) → (check_digests c m ≡ ok tt) ↔ ((text_length c ≡ 64) × (text_length m ≡ 64))
unfolding check_digests
check_digests_iff c m = ((λ h. ground arith), (λ h. ground arith))

check_identity_iff :
    (name lab session : String)
    → (check_identity name lab session ≡ ok tt) ↔ (
        (is_identifier name ≡ true)
        × (is_canonical_uuid lab ≡ true)
        × (is_canonical_uuid session ≡ true))
unfolding check_identity
check_identity_iff name lab session = ((λ h. ground arith), (λ h. ground arith))

check_tasks_iff :
    (tasks : List ExamTaskProgress) (claimed prepared : List String) (selected : String)
    → (check_tasks tasks claimed prepared selected ≡ ok tt) ↔ (
        (task_ids tasks ≡ expected_task_ids)
        × (claimed ≡ take (length claimed) expected_task_ids)
        × (prepared ≡ take (length prepared) expected_task_ids)
        × (length prepared ≤ length claimed)
        × (prepared ≡ take (length prepared) claimed)
        × (is_in selected expected_task_ids ≡ true))
unfolding check_tasks
check_tasks_iff tasks claimed prepared selected =
    ((λ h. ground (arith, eq₁, eq₂, eq₃, eq₄)), (λ h. ground (arith, eq₁, eq₂, eq₃, eq₄)))
  where
    eq₁ :
        (texts_eq (task_ids tasks) expected_task_ids ≡ true) ↔ (task_ids tasks ≡ expected_task_ids)
    eq₁ = texts_eq_iff (task_ids tasks) expected_task_ids

    eq₂ :
        (texts_eq claimed (take (length claimed) expected_task_ids) ≡ true)
        ↔ (claimed ≡ take (length claimed) expected_task_ids)
    eq₂ = texts_eq_iff claimed (take (length claimed) expected_task_ids)

    eq₃ :
        (texts_eq prepared (take (length prepared) expected_task_ids) ≡ true)
        ↔ (prepared ≡ take (length prepared) expected_task_ids)
    eq₃ = texts_eq_iff prepared (take (length prepared) expected_task_ids)

    eq₄ :
        (texts_eq prepared (take (length prepared) claimed) ≡ true)
        ↔ (prepared ≡ take (length prepared) claimed)
    eq₄ = texts_eq_iff prepared (take (length prepared) claimed)

check_timer_iff :
    (status : ExamStatus) (started deadline ended : Option Instant) (reason : Option ExamEndReason)
    (receipt : Option Fields) (duration : ℕ)
    → ReceiptFits status ended reason receipt
    → (check_timer status started deadline ended reason receipt duration ≡ ok tt)
      ↔ TimerFits status started deadline ended reason duration
unfolding check_timer
check_timer_iff preparing started deadline ended reason receipt duration h =
    ((λ e. ground arith), (λ e. ground arith))
check_timer_iff failed started deadline ended reason receipt duration h =
    ((λ e. ground arith), (λ e. ground arith))
check_timer_iff _ started deadline ended reason receipt duration h =
    ((λ e. ground arith), (λ e. ground arith))

check_receipt_iff :
    (status : ExamStatus) (ended : Option Instant) (reason : Option ExamEndReason)
    (receipt : Option Fields)
    → (check_receipt status ended reason receipt ≡ ok tt) ↔ ReceiptFits status ended reason receipt
unfolding check_receipt
check_receipt_iff status ended reason receipt = ((λ h. ground arith), (λ h. ground arith))

check_failure_iff :
    (failure : Option String) → (check_failure failure ≡ ok tt) ↔ FailureFits failure
unfolding check_failure
check_failure_iff none = ((λ h. tt), (λ h. refl))
check_failure_iff (some detail) = ((λ h. ground arith), (λ h. ground arith))

-- The seven checks together.
abbrev Passes : ExamSession → Type 0
Passes s =
    (check_identity s.lab_name s.lab_id s.session_id ≡ ok tt)
    × (check_numbers s.schema_version s.duration_seconds ≡ ok tt)
    × (check_tasks s.tasks s.claimed_task_ids s.prepared_task_ids s.selected_task_id ≡ ok tt)
    × (check_digests s.catalog_sha256 s.manifest_sha256 ≡ ok tt)
    × (check_timer s.status s.started_at s.deadline_at s.submitted_at s.end_reason s.receipt
          s.duration_seconds
        ≡ ok tt)
    × (check_receipt s.status s.submitted_at s.end_reason s.receipt ≡ ok tt)
    × (check_failure s.failure ≡ ok tt)

construct-Passes : (s t : ExamSession) → construct s ≡ ok t → (t ≡ s) × Passes s
unfolding construct
construct-Passes s t h = ground arith

Passes-construct : (s : ExamSession) → Passes s → construct s ≡ ok s
unfolding construct
Passes-construct s h = ground arith

Passes-IsValid : (s : ExamSession) → Passes s → IsValid s
Passes-IsValid s (p₁, p₂, p₃, p₄, p₅, p₆, p₇) =
    let receipt : ReceiptFits s.status s.submitted_at s.end_reason s.receipt =
      (check_receipt_iff s.status s.submitted_at s.end_reason s.receipt).0 p₆ in
    let (name, lab, session) = (check_identity_iff s.lab_name s.lab_id s.session_id).0 p₁ in
    let (schema, low, high) = (check_numbers_iff s.schema_version s.duration_seconds).0 p₂ in
    let (all, claims, prefix, fewer, first, selected) =
      (check_tasks_iff s.tasks s.claimed_task_ids s.prepared_task_ids s.selected_task_id).0 p₃ in
    let (catalog, manifest) = (check_digests_iff s.catalog_sha256 s.manifest_sha256).0 p₄ in
    record {
      lab_name_safe = name;
      lab_id_canonical = lab;
      session_id_canonical = session;
      schema_known = schema;
      duration_low = low;
      duration_high = high;
      tasks_complete = all;
      claims_prefix = claims;
      prepared_prefix = prefix;
      prepared_claimed = fewer;
      prepared_first = first;
      selected_known = selected;
      catalog_digest = catalog;
      manifest_digest = manifest;
      timer =
          (check_timer_iff s.status s.started_at s.deadline_at s.submitted_at s.end_reason s.receipt
              s.duration_seconds receipt).0
            p₅;
      receipt_fits = receipt;
      failure_fits = (check_failure_iff s.failure).0 p₇;
    }

IsValid-Passes : (s : ExamSession) → IsValid s → Passes s
IsValid-Passes s v = (
  (check_identity_iff s.lab_name s.lab_id s.session_id).1
      (v.lab_name_safe, v.lab_id_canonical, v.session_id_canonical),
  (check_numbers_iff s.schema_version s.duration_seconds).1
      (v.schema_known, v.duration_low, v.duration_high),
  (check_tasks_iff s.tasks s.claimed_task_ids s.prepared_task_ids s.selected_task_id).1 (
    v.tasks_complete, v.claims_prefix, v.prepared_prefix, v.prepared_claimed, v.prepared_first,
    v.selected_known,
  ),
  (check_digests_iff s.catalog_sha256 s.manifest_sha256).1 (v.catalog_digest, v.manifest_digest),
  (check_timer_iff s.status s.started_at s.deadline_at s.submitted_at s.end_reason s.receipt
        s.duration_seconds v.receipt_fits).1
      v.timer,
  (check_receipt_iff s.status s.submitted_at s.end_reason s.receipt).1 v.receipt_fits,
  (check_failure_iff s.failure).1 v.failure_fits,
)

-- A session that satisfies the description is constructed, unchanged.
pub construct-IsValid : (s : ExamSession) → IsValid s → construct s ≡ ok s
construct-IsValid s v = Passes-construct s (IsValid-Passes s v)

-- `__post_init__` returns a session exactly when it is the given one and satisfies the description.
pub construct_iff : (s t : ExamSession) → (construct s ≡ ok t) ↔ ((t ≡ s) × IsValid s)
construct_iff s t = (
  (λ h. let (same, passes) = construct-Passes s t h in (same, Passes-IsValid s passes)),
  (λ h. rw h.0 (construct-IsValid s h.1)),
)
