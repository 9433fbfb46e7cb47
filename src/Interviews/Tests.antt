-- ===== src/Interviews/Tests.antt =====
-- Runs of the interviews service in memory, and its theorems at concrete inputs.
use talent_flow_ai_backend.Prelude.{
  String, none, some, ◌≡◌, ◌≢◌, refl, arith, eq_iff, lookup, insert, [], ◌∷◌, ℕ, if◌then◌else◌,
  ◌==◌,
}
use talent_flow_ai_backend.Dto.{Field, when_truthy, value}
use talent_flow_ai_backend.Model.{
  Application, ApplicationStage, ApplicationStatus, Interview, InterviewStatus, InterviewType, Db,
}
use talent_flow_ai_backend.Async.{ok, err, bad_request}
use talent_flow_ai_backend.Prisma.Memory.{memory, memory-PrismaLaws}
use talent_flow_ai_backend.Prisma.Memory.Rows.{create_in, update_in}
use talent_flow_ai_backend.Interviews.Service.{
  CreateInterviewDto, UpdateInterviewDto, live_application, check_interviewer, check_future,
  check_rescheduled, updated, find_one, create, update, remove,
}
use talent_flow_ai_backend.Interviews.Schedule.{
  IsScheduled, IsRescheduled, create-IsScheduled, update-IsRescheduled,
}

-- What a run computes with.
unfoldable run : Unit {0}
unfolding live_application check_interviewer check_future check_rescheduled updated find_one create
    update remove create_in update_in lookup insert when_truthy
run = tt

abbrev applied : Application
applied = record {
  id = "a1";
  job_id = "j1";
  candidate_id = "c1";
  stage = ApplicationStage.interview;
  status = ApplicationStatus.shortlisted;
  cv_file_key = none;
  cv_file_url = none;
  cover_letter = none;
  notes = none;
  applied_at = 0;
  reviewed_at = none;
  deleted_at = none;
}

abbrev before : Db
before = record {
  users = [];
  jobs = [];
  candidates = [];
  applications = ("a1", applied) ∷ [];
  interviews = [];
}

-- `new Date` on the texts of the tests.
abbrev date_of : String → ℕ
date_of s = if s == "tomorrow" then 100 else 50

abbrev invitation : CreateInterviewDto
invitation = record {
  application_id = "a1";
  scheduled_at = "tomorrow";
  duration = none;
  type = none;
  location = none;
  notes = none;
  interviewer_id = none;
}

abbrev planned : Interview
planned = record {
  id = "k";
  application_id = "a1";
  scheduled_at = 100;
  duration = 60;
  type = InterviewType.video;
  location = none;
  notes = none;
  status = InterviewStatus.scheduled;
  interviewer_id = none;
}

abbrev planned_db : Db
planned_db = record before { interviews = ("k", planned) ∷ [] }

create_runs : create memory date_of 70 invitation before ≡ (ok planned, planned_db)
unfolding run
create_runs = refl

create_late :
    create memory date_of 100 invitation before
    ≡ (err (bad_request "Interview must be scheduled in the future"), before)
unfolding run
create_late = refl

create_answers : (create memory date_of 70 invitation before).0 ≡ ok planned
unfolding run
create_answers = refl

create-IsScheduled_example :
    IsScheduled date_of 70 invitation before (create memory date_of 70 invitation before).1 planned
create-IsScheduled_example =
    create-IsScheduled memory memory-PrismaLaws date_of 70 invitation before planned create_answers

abbrev only_scheduled_at : Field String → UpdateInterviewDto
only_scheduled_at f = record {
  scheduled_at = f;
  duration = none;
  type = none;
  location = Field.undefined;
  notes = Field.undefined;
  status = none;
  interviewer_id = Field.undefined;
}

abbrev move : UpdateInterviewDto
move = record (only_scheduled_at (value "today")) { duration = some 30 }

abbrev moved : Interview
moved = record planned { scheduled_at = 50; duration = 30 }

move_runs : (update memory date_of 40 "k" move planned_db).0 ≡ ok moved
unfolding run
move_runs = refl

move_late :
    update memory date_of 50 "k" move planned_db
    ≡ (err (bad_request "Interview must be scheduled in the future"), planned_db)
unfolding run
move_late = refl

today_is_some : ◌≢◌ {A = Field String} (value "today") (value "")
today_is_some = λ e. ground (arith, eq_iff "today" "")

update-IsRescheduled_example :
    (old : Interview) × IsRescheduled 40 "k" move planned_db
      (update memory date_of 40 "k" move planned_db).1
      old
      moved
update-IsRescheduled_example =
    update-IsRescheduled memory memory-PrismaLaws date_of 40 "k" move planned_db moved today_is_some
      move_runs

cancel_runs : (remove memory "k" planned_db).0 ≡ ok tt
unfolding run
cancel_runs = refl

planned_there : lookup "k" planned_db.interviews ≡ some planned
unfolding run
planned_there = refl
