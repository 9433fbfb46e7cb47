-- ===== src/Jobs/Tests.antt =====
-- Runs of the jobs service in memory, and its theorems at concrete inputs.
use talent_flow_ai_backend.Prelude.{String, none, some, ◌≡◌, refl, lookup, insert, [], ◌∷◌}
use talent_flow_ai_backend.Dto.{Field, when_truthy}
use talent_flow_ai_backend.Model.{Job, Db, JobStatus, EmploymentType}
use talent_flow_ai_backend.Async.{ok, err, forbidden}
use talent_flow_ai_backend.Pagination.{PaginatedResult, skip_of, total_pages_of}
use talent_flow_ai_backend.Prisma.Memory.{memory, memory-PrismaLaws}
use talent_flow_ai_backend.Prisma.Memory.Search.{select}
use talent_flow_ai_backend.Prisma.Memory.Filters.{satisfies_job}
use talent_flow_ai_backend.Prisma.Memory.Rows.{create_in, update_in}
use talent_flow_ai_backend.Applications.Service.{job_not_found, find_open_job_or_throw}
use talent_flow_ai_backend.Jobs.Dto.{CreateJobDto, UpdateJobDto, QueryJobsDto}
use talent_flow_ai_backend.Jobs.Service.{
  find_one, updated, removed_at, is_denied, create, update, remove, find_all, where_of,
}
use talent_flow_ai_backend.Jobs.Rights.{IsJobWrite, remove-IsJobWrite}

-- What a run computes with.
unfoldable run : Unit {0}
unfolding satisfies_job create find_one updated removed_at is_denied update remove find_all where_of
    select create_in update_in lookup insert when_truthy skip_of total_pages_of
run = tt

abbrev empty : Db
empty = record { users = []; jobs = []; candidates = []; applications = []; interviews = [] }

abbrev posting : CreateJobDto
posting = record {
  title = "Engineer";
  description = none;
  department = none;
  location = none;
  employment_type = none;
  salary_min = some 10;
  salary_max = some 20;
  status = none;
  requirements = none;
}

abbrev engineer : Job
engineer = record {
  id = "k";
  title = "Engineer";
  description = none;
  requirements = none;
  department = none;
  location = none;
  employment_type = EmploymentType.full_time;
  salary_min = some 10;
  salary_max = some 20;
  status = JobStatus.draft;
  created_by_id = "u2";
  deleted_at = none;
}

abbrev posted : Db
posted = record empty { jobs = ("k", engineer) ∷ [] }

create_runs : create memory "u2" posting empty ≡ (ok engineer, posted)
unfolding run
create_runs = refl

abbrev publish : UpdateJobDto
publish = record {
  title = none;
  description = Field.undefined;
  department = Field.value "R&D";
  location = Field.undefined;
  employment_type = none;
  salary_min = Field.null;
  salary_max = Field.undefined;
  status = some JobStatus.is_open;
  requirements = none;
}

abbrev published : Job
published = record engineer {
  department = some "R&D";
  salary_min = none;
  status = JobStatus.is_open;
}

update_runs : (update memory "k" "u2" "RECRUITER" publish posted).0 ≡ ok published
unfolding run
update_runs = refl

update_refused :
    (update memory "k" "u3" "RECRUITER" publish posted).0
    ≡ err (forbidden "You do not have permission to update this job")
unfolding run
update_refused = refl

remove_runs : (remove memory 5 "k" "root" "ADMIN" posted).0 ≡ ok tt
unfolding run
remove_runs = refl

remove-IsJobWrite_example :
    ((old : Job) × IsJobWrite "k" "root" "ADMIN" posted
        (remove memory 5 "k" "root" "ADMIN" posted).1
        old
        (record old { deleted_at = some 5 }))
    × ((find_one "k" (remove memory 5 "k" "root" "ADMIN" posted).1).0 ≡ err (job_not_found "k"))
    × ((find_open_job_or_throw "k" (remove memory 5 "k" "root" "ADMIN" posted).1).0
        ≡ err (job_not_found "k"))
remove-IsJobWrite_example =
    remove-IsJobWrite memory memory-PrismaLaws 5 "k" "root" "ADMIN" posted remove_runs

abbrev from_fifteen : QueryJobsDto
from_fifteen = record {
  page = none;
  limit = none;
  search = none;
  status = none;
  employment_type = none;
  department = none;
  salary_min = some 15;
  salary_max = none;
  skills = none;
  sort_by = none;
  sort_order = none;
}

abbrev page_of_one : PaginatedResult Job
page_of_one = record {
  rows = engineer ∷ [];
  meta = record { total = 1; page = 1; limit = 10; total_pages = 1 };
}

abbrev same_skill : String → String
same_skill s = s

list_runs : find_all memory same_skill from_fifteen posted ≡ (ok page_of_one, posted)
unfolding run
list_runs = refl
