-- ===== src/Jobs/Service.antt =====
-- jobs/jobs.service.ts. `now` is what `new Date()` returned, `skill_of` is
-- `s.trim().toLowerCase()`. `requirements`, any JSON value, is kept as its text.
use talent_flow_ai_backend.Prelude.{
  ℕ, String, Option, none, some, List, Bool, true, not, ◌&&◌, ◌==◌, lookup, is_some, or_else, map,
  if◌then◌else◌,
}
use talent_flow_ai_backend.Texts.{split}
use talent_flow_ai_backend.Model.{Job, Db}
use talent_flow_ai_backend.Async.{Async, Result, ok, err, forbidden, pure, throw, ◌>>=◌, ◌>>◌}
use talent_flow_ai_backend.Dto.{written_json, written, replaced, when_truthy}
use talent_flow_ai_backend.Pagination.{PaginatedResult, meta_of, skip_of}
use talent_flow_ai_backend.Prisma.{PrismaClient}
use talent_flow_ai_backend.Prisma.Where.{JobWhere, OrderBy, desc}
use talent_flow_ai_backend.Applications.Service.{job_not_found, is_admin}
use talent_flow_ai_backend.Jobs.Dto.{CreateJobDto, UpdateJobDto, QueryJobsDto}

-- `!job || job.deletedAt`
unfoldable pub live_job : String → Option Job → Result Job
live_job id none = err (job_not_found id)
live_job id (some job) = if is_some job.deleted_at then err (job_not_found id) else ok job

-- `findOne`
unfoldable pub find_one : String → Async Db Job
unfolding live_job
find_one id d = (live_job id (lookup id d.jobs), d)

-- `data: updateJobDto`
unfoldable pub updated : UpdateJobDto → Job → Job
updated dto j = record j {
  title = replaced dto.title j.title;
  description = written dto.description j.description;
  department = written dto.department j.department;
  location = written dto.location j.location;
  employment_type = replaced dto.employment_type j.employment_type;
  salary_min = written dto.salary_min j.salary_min;
  salary_max = written dto.salary_max j.salary_max;
  status = replaced dto.status j.status;
  requirements = written_json dto.requirements j.requirements;
}

unfoldable pub removed_at : ℕ → Job → Job
removed_at now j = record j { deleted_at = some now }

-- `job.createdById !== userId && userRole !== 'ADMIN'`
unfoldable pub is_denied : (user_id user_role : String) → Job → Bool
is_denied user_id user_role job = not (job.created_by_id == user_id) && not (is_admin user_role)

skill_list : (String → String) → Option String → Option (List String)
skill_list skill_of none = none
skill_list skill_of (some s) = some (map skill_of (split "," s))

abbrev pub order_of : QueryJobsDto → OrderBy
order_of query = record {
  sort_by = or_else query.sort_by "createdAt";
  sort_order = or_else query.sort_order desc;
}

-- The `where` of `findAll`: a job whose salary range overlaps with the requested one.
unfoldable pub where_of : (String → String) → QueryJobsDto → JobWhere
unfolding skill_list
where_of skill_of query = record {
  live = true;
  search = when_truthy query.search;
  status = query.status;
  employment_type = query.employment_type;
  department = when_truthy query.department;
  salary_max_gte = query.salary_min;
  salary_min_lte = query.salary_max;
  skills = skill_list skill_of (when_truthy query.skills);
}

module _ (p : PrismaClient) where
  -- `create`
  unfoldable pub create : String → CreateJobDto → Async Db Job
  create created_by_id dto = p.job.create (record {
    title = dto.title;
    description = dto.description;
    requirements = dto.requirements;
    department = dto.department;
    location = dto.location;
    employment_type = dto.employment_type;
    salary_min = dto.salary_min;
    salary_max = dto.salary_max;
    status = dto.status;
    created_by_id = created_by_id;
  })

  -- `findAll`
  unfoldable pub find_all : (String → String) → QueryJobsDto → Async Db (PaginatedResult Job)
  find_all skill_of query d =
      let page = or_else query.page 1 in
      let limit = or_else query.limit 10 in
      let w = where_of skill_of query in
      (
        ok (record {
          rows = p.job.find_many w (order_of query) (skip_of page limit) limit d;
          meta = meta_of (p.job.count w d) page limit;
        }),
        d,
      )

  -- `update`
  unfoldable pub update : (id user_id user_role : String) → UpdateJobDto → Async Db Job
  update id user_id user_role dto = do
    job ← find_one id
    if is_denied user_id user_role job
        then throw (forbidden "You do not have permission to update this job")
        else p.job.update id (updated dto)

  -- `remove`
  unfoldable pub remove : ℕ → (id user_id user_role : String) → Async Db Unit
  remove now id user_id user_role = do
    job ← find_one id
    if is_denied user_id user_role job
        then throw (forbidden "You do not have permission to delete this job")
        else (p.job.update id (removed_at now) >> pure tt)
