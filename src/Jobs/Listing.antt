-- ===== src/Jobs/Listing.antt =====
-- `findAll`: which jobs are listed.
use talent_flow_ai_backend.Prelude.{
  ℕ, String, none, some, ◌≡◌, ◌≤◌, All, All-map, arith, length, or_else,
}
use talent_flow_ai_backend.Model.{Job, JobStatus, EmploymentType, Db}
use talent_flow_ai_backend.Async.{ok}
use talent_flow_ai_backend.Pagination.{PaginatedResult, skip_of}
use talent_flow_ai_backend.Prisma.{PrismaClient}
use talent_flow_ai_backend.Prisma.Laws.{Reads}
use talent_flow_ai_backend.Prisma.Where.{SatisfiesJob, OrderBy}
use talent_flow_ai_backend.Jobs.Dto.{QueryJobsDto}
use talent_flow_ai_backend.Jobs.Service.{where_of, order_of, find_all}

-- What `findAll` promises of a job that it lists.
pub record IsListed (query : QueryJobsDto) (j : Job) : Type 0 where
  pub live : j.deleted_at ≡ none
  pub status : (s : JobStatus) → query.status ≡ some s → j.status ≡ s
  pub employment_type :
      (t : EmploymentType) → query.employment_type ≡ some t → j.employment_type ≡ t
  -- The range of the job reaches up to the least salary asked for, and starts at the most or below.
  pub reaches : (a : ℕ) → query.salary_min ≡ some a → (n : ℕ) × (j.salary_max ≡ some n) × (a ≤ n)
  pub starts : (b : ℕ) → query.salary_max ≡ some b → (n : ℕ) × (j.salary_min ≡ some n) × (n ≤ b)

IsListed-of_SatisfiesJob :
    (skill_of : String → String) (query : QueryJobsDto) (d : Db) (j : Job)
    → SatisfiesJob (where_of skill_of query) d j
    → IsListed query j
unfolding where_of
IsListed-of_SatisfiesJob skill_of query d j s = record {
  live = s.live;
  status = λ t e. rw e at s.status;
  employment_type = λ t e. rw e at s.employment_type;
  reaches = λ a e. rw e at s.salary_max;
  starts = λ b e. rw e at s.salary_min;
}

-- Of the jobs that `findAll` lists none is deleted, each has the status and type asked for, and a
-- salary range that overlaps with the range asked for; there are at most `limit` of them (10 if it
-- is not given); and the count is of the same filter, in the page's numbers.
pub find_all-IsListed :
    (p : PrismaClient)
    → Reads SatisfiesJob p.job
    → (skill_of : String → String) (query : QueryJobsDto) (d : Db) (r : PaginatedResult Job)
    → find_all p skill_of query d ≡ (ok r, d)
    → All (IsListed query) r.rows
      × (length r.rows ≤ or_else query.limit 10)
      × (r.meta.total ≡ p.job.count (where_of skill_of query) d)
unfolding find_all
find_all-IsListed p reads skill_of query d r h =
    let w = where_of skill_of query in
    let o : OrderBy = order_of query in
    let limit = or_else query.limit 10 in
    let skip = skip_of (or_else query.page 1) limit in
    let same : r.rows ≡ p.job.find_many w o skip limit d = ground arith in
    (
      rw same (
          All-map (p.job.find_many w o skip limit d) (IsListed-of_SatisfiesJob skill_of query d)
            (reads.find_many_holds w o skip limit d)),
      rw same (reads.find_many_limit w o skip limit d),
      ground arith,
    )
