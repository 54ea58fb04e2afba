-- ===== src/Exam/Manifest.antt =====
-- cks_simulator/exam.py, `ExamTask`, `ExamManifest` and `build_exam_manifest`. The digest functions
-- `_sha256` and `_canonical_json` are parameters, since SHA-256 is the interpreter's.
pub mod Built
use cks_simulator.Common.{
  ℕ, ◌+◌, String, Bool, not, ◌||◌, List, [], ◌∷◌, map, leb, ◌==◌, is_in, texts_eq, text_length,
  is_identifier, is_blank, is_sha256, path_is_safe, Kind, Result, ok, raise_if, ◌>>◌,
}
use cks_simulator.Exam.Base.{expected_task_ids}

pub record ExamTask : Type 0 where
  pub task_id : String
  pub title : String
  pub domain : String
  pub host : String
  pub target_role : String
  pub workdir : String
  pub prompt : String
  pub weight : ℕ

-- The body of the loop over title, domain and prompt.
text_is_bad : String → ℕ → Bool
text_is_bad value limit = is_blank value || not (leb (text_length value) limit)

construct_task : ExamTask → Result ExamTask
unfolding text_is_bad
construct_task t = do
  raise_if (not (is_in t.task_id expected_task_ids)) Kind.exam_state_error "exam task ID is invalid"
  raise_if (text_is_bad t.title 200) Kind.exam_state_error "exam task title is invalid"
  raise_if (text_is_bad t.domain 100) Kind.exam_state_error "exam task domain is invalid"
  raise_if (text_is_bad t.prompt 8000) Kind.exam_state_error "exam task prompt is invalid"
  raise_if (not (is_identifier t.host)) Kind.value_error "exam task host is no identifier"
  raise_if (not (is_identifier t.target_role)) Kind.value_error
      "exam task target role is no identifier"
  raise_if (not (path_is_safe t.workdir)) Kind.exam_state_error "exam task workdir is unsafe"
  raise_if (t.weight == 0) Kind.exam_state_error "exam task weight must be a positive integer"
  ok t

pub record ExamManifest : Type 0 where
  pub tasks : List ExamTask
  pub catalog_sha256 : String
  pub manifest_sha256 : String

abbrev pub total_weight : List ExamTask → ℕ
total_weight [] = 0
total_weight (t ∷ ts) = t.weight + total_weight ts

unfoldable pub construct_manifest : ExamManifest → Result ExamManifest
construct_manifest m = do
  raise_if (not (texts_eq (map (λ t. t.task_id) m.tasks) expected_task_ids)) Kind.exam_state_error
      "exam manifest must contain tasks 01 through 17 in order"
  raise_if (not (total_weight m.tasks == 100)) Kind.exam_state_error
      "exam task weights must total 100"
  raise_if (not (is_sha256 m.catalog_sha256)) Kind.exam_state_error "catalog digest is invalid"
  raise_if (not (is_sha256 m.manifest_sha256)) Kind.exam_state_error "manifest digest is invalid"
  ok m
