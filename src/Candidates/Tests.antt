-- ===== src/Candidates/Tests.antt =====
-- Runs of the candidates service in memory, and its theorems at concrete inputs.
use talent_flow_ai_backend.Prelude.{
  String, none, some, ◌≡◌, refl, lookup, insert, without, restrict, [], ◌∷◌,
}
use talent_flow_ai_backend.Dto.{Field}
use talent_flow_ai_backend.Model.{Application, ApplicationStage, ApplicationStatus, Candidate, Db}
use talent_flow_ai_backend.Async.{ok}
use talent_flow_ai_backend.Prisma.Memory.{memory, memory-PrismaLaws, delete_candidate}
use talent_flow_ai_backend.Prisma.Memory.Rows.{update_in}
use talent_flow_ai_backend.Candidates.Service.{UpdateCandidateDto, find_one, update, remove}
use talent_flow_ai_backend.Candidates.Removal.{IsRemoval, remove-IsRemoval}

-- What a run computes with.
unfoldable run : Unit {0}
unfolding find_one update remove update_in delete_candidate lookup insert without restrict
run = tt

abbrev dan : Candidate
dan = record {
  id = "c1";
  email = "dan@example.com";
  full_name = "Dan";
  phone = none;
  linkedin_url = none;
  resume_url = none;
  resume_text = none;
}

abbrev application : String → Application
application candidate_id = record {
  id = candidate_id;
  job_id = "j1";
  candidate_id = candidate_id;
  stage = ApplicationStage.applied;
  status = ApplicationStatus.submitted;
  cv_file_key = none;
  cv_file_url = none;
  cover_letter = none;
  notes = none;
  applied_at = 0;
  reviewed_at = none;
  deleted_at = none;
}

abbrev before : Db
before = record {
  users = [];
  jobs = [];
  candidates = ("c1", dan) ∷ [];
  applications = ("c1", application "c1") ∷ ("c2", application "c2") ∷ [];
  interviews = [];
}

abbrev after : Db
after = record before { candidates = []; applications = ("c2", application "c2") ∷ [] }

remove_runs : remove memory "c1" before ≡ (ok tt, after)
unfolding run
remove_runs = refl

remove_answers : (remove memory "c1" before).0 ≡ ok tt
unfolding run
remove_answers = refl

remove-IsRemoval_example : IsRemoval memory "c1" before (remove memory "c1" before).1
remove-IsRemoval_example = remove-IsRemoval memory memory-PrismaLaws "c1" before remove_answers

abbrev new_phone : UpdateCandidateDto
new_phone = record { full_name = none; phone = Field.value "123"; linkedin_url = Field.undefined }

phone_runs : (update memory "c1" new_phone before).0 ≡ ok (record dan { phone = some "123" })
unfolding run
phone_runs = refl
