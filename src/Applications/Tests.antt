-- ===== src/Applications/Tests.antt =====
-- Runs of the applications service in memory, and its theorems at concrete inputs.
use talent_flow_ai_backend.Prelude.{
  ◌↔◌, String, none, some, ◌≡◌, ◌≢◌, refl, arith, eq_iff, lookup, insert, without, [], ◌∷◌, All,
  length, ◌≤◌,
}
use talent_flow_ai_backend.Model.{
  User, Job, Candidate, Application, Db, Role, EmploymentType, JobStatus, ApplicationStage,
  ApplicationStatus, same_status,
}
use talent_flow_ai_backend.Async.{ok, err, conflict, forbidden, error}
use talent_flow_ai_backend.Dto.{Field, when_truthy}
use talent_flow_ai_backend.Pagination.{PaginatedResult, skip_of, total_pages_of}
use talent_flow_ai_backend.Prisma.Laws.{KeepsAllButCandidates}
use talent_flow_ai_backend.Prisma.Memory.{
  memory, memory-PrismaLaws, memory-application-Reads, delete_application,
}
use talent_flow_ai_backend.Prisma.Memory.Search.{search, select}
use talent_flow_ai_backend.Prisma.Memory.Filters.{satisfies}
use talent_flow_ai_backend.Prisma.Memory.Rows.{create_in, update_in}
use talent_flow_ai_backend.Applications.Dto.{
  CreateApplicationDto, UpdateApplicationDto, QueryApplicationsDto,
}
use talent_flow_ai_backend.Applications.Service.{
  find_open_job_or_throw, find_or_create_candidate, find_or_create_candidate_or_throw,
  ensure_no_duplicate_application, create, find_one, update, updated, remove, is_applicant,
  is_recruiter, find_all, where_of, withdrawn_at, find_candidate, application_not_found,
}
use talent_flow_ai_backend.Applications.Create.{IsAdmitted, IsOpenJob, create-IsAdmitted}
use talent_flow_ai_backend.Applications.Refusals.{create-err-keeps, create-after-withdrawal}
use talent_flow_ai_backend.Applications.Access.{MayRead, IsApplicant, find_one-ok_iff}
use talent_flow_ai_backend.Applications.Review.{IsUpdate, update-IsUpdate}
use talent_flow_ai_backend.Applications.Withdraw.{
  IsWithdrawal, remove-IsWithdrawal, find_one-remove,
}
use talent_flow_ai_backend.Applications.Listing.{
  IsShown, find_all-IsShown, find_all_without_candidate,
}

-- What a run computes with.
unfoldable pub run : Unit {0}
unfolding satisfies create find_open_job_or_throw find_or_create_candidate_or_throw
    find_or_create_candidate ensure_no_duplicate_application find_one update updated remove
    withdrawn_at is_applicant is_recruiter find_all where_of search select create_in update_in
    delete_application lookup insert without when_truthy skip_of total_pages_of same_status
run = tt

abbrev pub ann : User
ann = record {
  id = "u1";
  email = "ann@example.com";
  password = "hash";
  role = Role.interviewer;
  full_name = "Ann";
  deleted_at = none;
}

abbrev bob : User
bob = record {
  id = "u2";
  email = "bob@example.com";
  password = "hash";
  role = Role.recruiter;
  full_name = "Bob";
  deleted_at = none;
}

abbrev opening : Job
opening = record {
  id = "j1";
  title = "Engineer";
  description = none;
  requirements = none;
  department = none;
  location = none;
  employment_type = EmploymentType.full_time;
  salary_min = none;
  salary_max = none;
  status = JobStatus.is_open;
  created_by_id = "u2";
  deleted_at = none;
}

abbrev pub before : Db
before = record {
  users = ("u1", ann) ∷ ("u2", bob) ∷ [];
  jobs = ("j1", opening) ∷ [];
  candidates = [];
  applications = [];
  interviews = [];
}

abbrev apply : CreateApplicationDto
apply = record {
  job_id = "j1";
  cover_letter = some "Hello";
  cv_file_key = none;
  cv_file_url = none;
}

abbrev pub made : Application
made = record {
  id = "k";
  job_id = "j1";
  candidate_id = "k";
  stage = ApplicationStage.applied;
  status = ApplicationStatus.submitted;
  cv_file_key = none;
  cv_file_url = none;
  cover_letter = some "Hello";
  notes = none;
  applied_at = 0;
  reviewed_at = none;
  deleted_at = none;
}

apply_runs : (create memory "u1" apply before).0 ≡ ok made
unfolding run
apply_runs = refl

create-IsAdmitted_example :
    IsAdmitted memory memory-PrismaLaws "u1" apply before (create memory "u1" apply before).1 made
create-IsAdmitted_example =
    create-IsAdmitted memory memory-PrismaLaws "u1" apply before made apply_runs

-- The database once Ann has applied.
abbrev pub applied_db : Db
applied_db = record before {
  candidates =
      (
        "k",
        record {
          id = "k";
          email = "ann@example.com";
          full_name = "Ann";
          phone = none;
          linkedin_url = none;
          resume_url = none;
          resume_text = none;
        },
      )
      ∷ [];
  applications = ("k", made) ∷ [];
}

apply_reaches : (create memory "u1" apply before).1 ≡ applied_db
unfolding run
apply_reaches = refl

apply_twice :
    (create memory "u1" apply applied_db).0 ≡ err (conflict "You have already applied to this job")
unfolding run
apply_twice = refl

create-err-keeps_example : KeepsAllButCandidates applied_db (create memory "u1" apply applied_db).1
create-err-keeps_example =
    create-err-keeps memory memory-PrismaLaws "u1" apply applied_db
      (conflict "You have already applied to this job") apply_twice

find_one-ok_iff_example : ((find_one memory "k" "u2" "RECRUITER" applied_db).0 ≡ ok made) ↔ (
    (lookup "k" applied_db.applications ≡ some made)
    × (made.deleted_at ≡ none)
    × MayRead memory "u2" "RECRUITER" made applied_db)
find_one-ok_iff_example = find_one-ok_iff memory "k" "u2" "RECRUITER" applied_db made

abbrev shortlist : UpdateApplicationDto
shortlist = record {
  stage = some ApplicationStage.screening;
  status = some ApplicationStatus.shortlisted;
  notes = Field.value "good";
  cover_letter = Field.undefined;
}

abbrev shortlisted : Application
shortlisted = record made {
  stage = ApplicationStage.screening;
  status = ApplicationStatus.shortlisted;
  notes = some "good";
  reviewed_at = some 7;
}

shortlist_runs : (update memory 7 "k" "u2" "RECRUITER" shortlist applied_db).0 ≡ ok shortlisted
unfolding run
shortlist_runs = refl

shortlist_refused :
    (update memory 7 "k" "u1" "INTERVIEWER" shortlist applied_db).0
    ≡ err (forbidden "Only recruiters can update application stage, status and notes")
unfolding run
shortlist_refused = refl

update-IsUpdate_example :
    (old : Application) × IsUpdate memory memory-PrismaLaws 7 "k" "u2" "RECRUITER" applied_db
      (update memory 7 "k" "u2" "RECRUITER" shortlist applied_db).1
      old
      shortlisted
update-IsUpdate_example =
    update-IsUpdate memory memory-PrismaLaws 7 "k" "u2" "RECRUITER" shortlist applied_db shortlisted
      shortlist_runs

abbrev reviewed_db : Db
reviewed_db = record applied_db { applications = ("k", shortlisted) ∷ [] }

ann_applied : IsApplicant memory "u1" shortlisted reviewed_db
unfolding run
ann_applied = (ann, _, refl, refl, refl)

reviewed_there : lookup "k" reviewed_db.applications ≡ some shortlisted
unfolding run
reviewed_there = refl

withdraw_runs : (remove memory 9 "k" "u1" "INTERVIEWER" applied_db).0 ≡ ok tt
unfolding run
withdraw_runs = refl

withdraw_refused :
    (remove memory 9 "k" "u2" "RECRUITER" applied_db).0
    ≡ err (forbidden "Only applicants can withdraw their applications")
unfolding run
withdraw_refused = refl

remove-IsWithdrawal_example :
    (old : Application) × IsWithdrawal memory memory-PrismaLaws 9 "k" "u1" "INTERVIEWER" applied_db
      (remove memory 9 "k" "u1" "INTERVIEWER" applied_db).1
      old
remove-IsWithdrawal_example =
    remove-IsWithdrawal memory memory-PrismaLaws 9 "k" "u1" "INTERVIEWER" applied_db withdraw_runs

find_one-remove_example :
    (find_one memory "k" "root" "ADMIN" (remove memory 9 "k" "u1" "INTERVIEWER" applied_db).1).0
    ≡ err (application_not_found "k")
find_one-remove_example =
    find_one-remove memory memory-PrismaLaws 9 "k" "u1" "INTERVIEWER" "root" "ADMIN" applied_db
      withdraw_runs

abbrev gone : Application
gone = record made { status = ApplicationStatus.withdrawn; deleted_at = some 9 }

abbrev withdrawn_db : Db
withdrawn_db = record applied_db { applications = ("k", gone) ∷ [] }

gone_is_all :
    (i : String) (a : Application)
    → lookup i withdrawn_db.applications ≡ some a
    → a.deleted_at ≢ none
unfolding run
gone_is_all i a h = ground (arith, eq_iff "k" i)

open_there : IsOpenJob "j1" withdrawn_db
unfolding run
open_there = (opening, refl, refl, refl)

ann_there : lookup "u1" withdrawn_db.users ≡ some ann
unfolding run
ann_there = refl

gone_there : lookup "k" withdrawn_db.applications ≡ some gone
unfolding run
gone_there = refl

abbrev pub ann_candidate : Candidate
ann_candidate = record {
  id = "k";
  email = "ann@example.com";
  full_name = "Ann";
  phone = none;
  linkedin_url = none;
  resume_url = none;
  resume_text = none;
}

ann_found : memory.candidate_by_email "ann@example.com" withdrawn_db ≡ some ann_candidate
unfolding run
ann_found = refl

create-after-withdrawal_example :
    (s : String) × ((create memory "u1" apply withdrawn_db).0 ≡ err (error s))
create-after-withdrawal_example =
    create-after-withdrawal memory memory-PrismaLaws "u1" apply withdrawn_db ann ann_candidate "k"
      gone open_there ann_there ann_found gone_there refl refl (λ i a at j c. gone_is_all i a at)

abbrev everything : QueryApplicationsDto
everything = record {
  page = none;
  limit = none;
  job_id = none;
  candidate_id = none;
  stage = none;
  status = none;
  sort_by = none;
  sort_order = none;
}

abbrev bobs_page : PaginatedResult Application
bobs_page = record {
  rows = made ∷ [];
  meta = record { total = 1; page = 1; limit = 10; total_pages = 1 };
}

list_runs : find_all memory "u2" "RECRUITER" everything applied_db ≡ (ok bobs_page, applied_db)
unfolding run
list_runs = refl

find_all-IsShown_example :
    All (IsShown memory "u2" "RECRUITER" applied_db) bobs_page.rows × (length bobs_page.rows ≤ 10)
find_all-IsShown_example =
    find_all-IsShown memory memory-application-Reads "u2" "RECRUITER" everything applied_db
      bobs_page list_runs

not_recruiter : ◌≢◌ {A = String} "INTERVIEWER" "RECRUITER"
not_recruiter = ground (arith, eq_iff "INTERVIEWER" "RECRUITER")

no_candidate : find_candidate memory "u9" applied_db ≡ none
unfolding run find_candidate
no_candidate = refl

find_all_without_candidate_example :
    find_all memory "u9" "INTERVIEWER" everything applied_db
    ≡ find_all memory "root" "ADMIN" everything applied_db
find_all_without_candidate_example =
    find_all_without_candidate memory "u9" "INTERVIEWER" "root" everything applied_db not_recruiter
      no_candidate refl
