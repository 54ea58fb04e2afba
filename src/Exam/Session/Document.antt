-- ===== src/Exam/Session/Document.antt =====
-- cks_simulator/exam.py, `to_dict` and `from_dict` of a session. The texts of instants are parameters
-- (`_timestamp` and `_parse_timestamp`), and so is `str` of a value that is no text.
pub mod Reads
use cks_simulator.Common.{
  ℕ, String, Bool, true, false, Option, none, some, List, [], ◌∷◌, map, str_eq, if◌then◌else◌, Json,
  Items, nil, cons, Fields, end, field, get_field, Kind, Exception, Result, ok, err, raise, ◌>>=◌,
  ◌>>◌,
}
use cks_simulator.Exam.Base.{
  ExamMode, practice, exam, ExamStatus, preparing, active, submitting, submitted, failed,
  ExamEndReason, manual, expired, Instant,
}
use cks_simulator.Exam.Session.{ExamTaskProgress, ExamSession, construct, construct_progress}

-- The members of the `str` enums.
abbrev mode_text : ExamMode → String
mode_text practice = "practice"
mode_text exam = "exam"

abbrev status_text : ExamStatus → String
status_text preparing = "preparing"
status_text active = "active"
status_text submitting = "submitting"
status_text submitted = "submitted"
status_text failed = "failed"

abbrev reason_text : ExamEndReason → String
reason_text manual = "manual"
reason_text expired = "expired"

items_of : List Json → Items
items_of [] = nil
items_of (v ∷ vs) = cons v (items_of vs)

-- `ExamTaskProgress.to_dict`
abbrev progress_fields : ExamTaskProgress → Fields
progress_fields p = field "task_id" (Json.str p.task_id) (
    field "attempt_id" (Json.str p.attempt_id) (
      field "visited" (Json.bool p.visited)
        (field "flagged" (Json.bool p.flagged) (field "completed" (Json.bool p.completed) end))))

abbrev optional {ℓ} : {A : Type ℓ} → (A → Json) → Option A → Json
optional f none = Json.null
optional f (some a) = f a

-- Every error of the `try` block of `from_dict` but those of the session's own checks.
abbrev schema_error {ℓ} : {A : Type ℓ} → Result A
schema_error = raise Kind.exam_state_error "exam state has an invalid or incomplete schema"

-- `payload[key]`
required : String → Fields → Result Json
required k payload = elim (get_field k payload) [ none ↦ schema_error | some v ↦ ok v ]

-- `payload.get(key)`
given_value : String → Fields → Json
given_value k payload = elim (get_field k payload) [ none ↦ Json.null | some v ↦ v ]

read_int : Json → Result ℕ
read_int (Json.int n) = ok n
read_int _ = schema_error

read_revision : Option Json → Result ℕ
unfolding read_int
read_revision none = ok 0
read_revision (some v) = read_int v

read_array : Json → Result Items
read_array (Json.arr items) = ok items
read_array _ = schema_error

-- `payload.get(key, ())`
read_sequence : Option Json → Result Items
unfolding read_array
read_sequence none = ok nil
read_sequence (some v) = read_array v

read_receipt : Json → Result (Option Fields)
read_receipt Json.null = ok none
read_receipt (Json.obj fs) = ok (some fs)
read_receipt _ = schema_error

read_mode : String → Result ExamMode
read_mode s =
    if str_eq s "practice" then ok practice else if str_eq s "exam" then ok exam else schema_error

read_status : String → Result ExamStatus
read_status s =
    if str_eq s "preparing"
    then ok preparing
    else if str_eq s "active"
    then ok active
    else if str_eq s "submitting"
    then ok submitting
    else if str_eq s "submitted"
    then ok submitted
    else if str_eq s "failed"
    then ok failed
    else schema_error

read_reason_text : String → Result (Option ExamEndReason)
read_reason_text s =
    if str_eq s "manual"
    then ok (some manual)
    else if str_eq s "expired"
    then ok (some expired)
    else schema_error

-- A field that is kept if it is a text.
if_text : Json → Option String
if_text (Json.str s) = some s
if_text _ = none

-- `item.get(key, False)`, which `__post_init__` wants to be a Boolean.
read_flag : Option Json → Result Bool
read_flag none = ok false
read_flag (some (Json.bool b)) = ok b
read_flag (some _) = raise Kind.exam_state_error "exam progress flags must be boolean"

-- `except (KeyError, TypeError, ValueError) as error: raise ExamStateError(...)`
abbrev as_state_error {ℓ} : {A : Type ℓ} → Result A → Result A
as_state_error (ok a) = ok a
as_state_error (err e) = raise Kind.exam_state_error e.message

module _ (timestamp : Instant → String) (parse_timestamp : String → Option Instant)
    (shown : Json → String) where
  -- `ExamSession.to_dict`
  pub to_dict : ExamSession → Fields
  unfolding items_of
  to_dict s = field "schema_version" (Json.int s.schema_version) (
      field "lab_name" (Json.str s.lab_name) (
        field "lab_id" (Json.str s.lab_id) (
          field "session_id" (Json.str s.session_id) (
            field "mode" (Json.str (mode_text s.mode)) (
              field "status" (Json.str (status_text s.status)) (
                field "catalog_sha256" (Json.str s.catalog_sha256) (
                  field "manifest_sha256" (Json.str s.manifest_sha256) (
                    field "duration_seconds" (Json.int s.duration_seconds) (
                      field "created_at" (Json.str (timestamp s.created_at)) (
                        field "started_at" (optional (λ t. Json.str (timestamp t)) s.started_at) (
                          field "deadline_at" (optional (λ t. Json.str (timestamp t)) s.deadline_at)
                            (field "submitted_at"
                              (optional (λ t. Json.str (timestamp t)) s.submitted_at)
                              (field "end_reason"
                                (optional (λ r. Json.str (reason_text r)) s.end_reason)
                                (field "selected_task_id" (Json.str s.selected_task_id) (
                                  field "tasks"
                                    (Json.arr
                                      (items_of (map (λ p. Json.obj (progress_fields p)) s.tasks)))
                                    (field "claimed_task_ids"
                                      (Json.arr (items_of (map Json.str s.claimed_task_ids)))
                                      (field "prepared_task_ids"
                                        (Json.arr (items_of (map Json.str s.prepared_task_ids)))
                                        (field "receipt" (optional Json.obj s.receipt) (
                                          field "failure" (optional Json.str s.failure) (
                                            field "revision" (Json.int s.revision)
                                              end))))))))))))))))))))

  -- `str(value)`
  abbrev text_of : Json → String
  text_of (Json.str s) = s
  text_of v = shown v

  -- `str(payload[key])`
  required_text : String → Fields → Result String
  unfolding required
  required_text k payload = do v ← required k payload; ok (text_of v)

  read_instant : String → Result Instant
  read_instant s = elim (parse_timestamp s) [
    | none ↦ raise Kind.exam_state_error "exam timestamp is invalid"
    | some t ↦ ok t
  ]

  read_time : Option String → Result (Option Instant)
  unfolding read_instant
  read_time none = ok none
  read_time (some s) = do t ← read_instant s; ok (some t)

  read_reason : Json → Result (Option ExamEndReason)
  unfolding read_reason_text
  read_reason Json.null = ok none
  read_reason v = read_reason_text (text_of v)

  read_texts : Items → List String
  read_texts nil = []
  read_texts (cons v vs) = text_of v ∷ read_texts vs

  read_progress : Fields → Result ExamTaskProgress
  unfolding required_text read_flag
  read_progress item = do
    task_id ← required_text "task_id" item
    attempt_id ← required_text "attempt_id" item
    visited ← read_flag (get_field "visited" item)
    flagged ← read_flag (get_field "flagged" item)
    completed ← read_flag (get_field "completed" item)
    construct_progress (record {
      task_id = task_id;
      attempt_id = attempt_id;
      visited = visited;
      flagged = flagged;
      completed = completed;
    })

  -- What is no mapping is passed over.
  read_tasks : Items → Result (List ExamTaskProgress)
  unfolding read_progress
  read_tasks nil = ok []
  read_tasks (cons (Json.obj item) rest) = do
    p ← read_progress item
    ps ← read_tasks rest
    ok (p ∷ ps)
  read_tasks (cons _ rest) = read_tasks rest

  -- The `try` block of `from_dict`.
  read_session : Fields → Result ExamSession
  unfolding required required_text given_value read_int read_revision read_array read_sequence
      read_receipt read_mode read_status if_text read_instant read_time read_reason read_texts
      read_tasks
  read_session payload = do
    tasks_value ← required "tasks" payload
    items ← read_array tasks_value
    receipt ← read_receipt (given_value "receipt" payload)
    claimed ← read_sequence (get_field "claimed_task_ids" payload)
    prepared ← read_sequence (get_field "prepared_task_ids" payload)
    schema_value ← required "schema_version" payload
    duration_value ← required "duration_seconds" payload
    schema_version ← read_int schema_value
    duration_seconds ← read_int duration_value
    revision ← read_revision (get_field "revision" payload)
    lab_name ← required_text "lab_name" payload
    lab_id ← required_text "lab_id" payload
    session_id ← required_text "session_id" payload
    mode_value ← required_text "mode" payload
    mode ← read_mode mode_value
    status_value ← required_text "status" payload
    status ← read_status status_value
    catalog_sha256 ← required_text "catalog_sha256" payload
    manifest_sha256 ← required_text "manifest_sha256" payload
    created_text ← required_text "created_at" payload
    end_reason ← read_reason (given_value "end_reason" payload)
    selected_task_id ← required_text "selected_task_id" payload
    tasks ← read_tasks items
    created_at ← read_instant created_text
    started_at ← read_time (if_text (given_value "started_at" payload))
    deadline_at ← read_time (if_text (given_value "deadline_at" payload))
    submitted_at ← read_time (if_text (given_value "submitted_at" payload))
    construct (record {
      lab_name = lab_name;
      lab_id = lab_id;
      session_id = session_id;
      mode = mode;
      status = status;
      catalog_sha256 = catalog_sha256;
      manifest_sha256 = manifest_sha256;
      duration_seconds = duration_seconds;
      created_at = created_at;
      started_at = started_at;
      deadline_at = deadline_at;
      submitted_at = submitted_at;
      end_reason = end_reason;
      selected_task_id = selected_task_id;
      tasks = tasks;
      claimed_task_ids = read_texts claimed;
      prepared_task_ids = read_texts prepared;
      receipt = receipt;
      failure = if_text (given_value "failure" payload);
      revision = revision;
      schema_version = schema_version;
    })

  -- `ExamSession.from_dict`
  pub from_dict : Fields → Result ExamSession
  unfolding read_session
  from_dict payload = as_state_error (read_session payload)
