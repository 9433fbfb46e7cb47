-- ===== src/Applications/Service.antt =====
-- applications/applications.service.ts, the methods that use the database alone. `now` is what
-- `new Date()` returned. The user's role is a text, as in the source.
use Prim.Native.String
use talent_flow_ai_backend.Prelude.{
  ℕ, String, Option, none, some, Bool, true, false, not, ◌&&◌, ◌||◌, ◌==◌, lookup, is_some, or_else,
  if◌then◌else◌,
}
use talent_flow_ai_backend.Model.{
  User, Job, Candidate, Application, Db, JobStatus, ApplicationStatus, same_status,
}
use talent_flow_ai_backend.Async.{
  Async, Result, ok, err, Exception, not_found, forbidden, conflict, pure, throw, gets, ◌>>=◌, ◌>>◌,
}
use talent_flow_ai_backend.Dto.{truthy, written, replaced, when_truthy}
use talent_flow_ai_backend.Pagination.{PaginatedResult, meta_of, skip_of}
use talent_flow_ai_backend.Prisma.{PrismaClient}
use talent_flow_ai_backend.Prisma.Where.{ApplicationWhere, OrderBy, desc}
use talent_flow_ai_backend.Applications.Dto.{
  CreateApplicationDto, UpdateApplicationDto, QueryApplicationsDto,
}

abbrev pub job_not_found : String → Exception
job_not_found id = not_found (String.◌++◌ "Job with ID " (String.◌++◌ id " not found"))

abbrev pub application_not_found : String → Exception
application_not_found id =
    not_found (String.◌++◌ "Application with ID " (String.◌++◌ id " not found"))

abbrev pub is_open_status : JobStatus → Bool
is_open_status JobStatus.is_open = true
is_open_status _ = false

-- `job.status !== 'OPEN'` and `!job || job.deletedAt`
unfoldable pub open_job : String → Option Job → Result Job
open_job id none = err (job_not_found id)
open_job id (some job) =
    if is_some job.deleted_at
    then err (job_not_found id)
    else if is_open_status job.status
    then ok job
    else err (forbidden "Cannot apply to a job that is not open")

-- `findOpenJobOrThrow`
unfoldable pub find_open_job_or_throw : String → Async Db Job
unfolding open_job
find_open_job_or_throw job_id d = (open_job job_id (lookup job_id d.jobs), d)

unfoldable pub find_user_or_throw : String → Async Db User
find_user_or_throw user_id d =
    (elim (lookup user_id d.users) [ none ↦ err (not_found "User not found") | some u ↦ ok u ], d)

abbrev pub id_of : Option Candidate → Option String
id_of none = none
id_of (some candidate) = some candidate.id

abbrev pub is_admin : String → Bool
is_admin user_role = user_role == "ADMIN"

live_application : String → Option Application → Result Application
live_application id none = err (application_not_found id)
live_application id (some a) = if is_some a.deleted_at then err (application_not_found id) else ok a

-- `updateApplicationDto.stage || updateApplicationDto.status || updateApplicationDto.notes`
abbrev pub is_review : UpdateApplicationDto → Bool
is_review dto = is_some dto.stage || is_some dto.status || truthy dto.notes

-- `updateApplicationDto.status && application.status !== updateApplicationDto.status`
unfoldable pub reviewed_at_of : ℕ → Option ApplicationStatus → Application → Option ℕ
reviewed_at_of now none a = a.reviewed_at
reviewed_at_of now (some status) a =
    if not (same_status a.status status) then some now else a.reviewed_at

-- `updateData`
unfoldable pub updated : ℕ → UpdateApplicationDto → Application → Application
unfolding reviewed_at_of
updated now dto a = record a {
  stage = replaced dto.stage a.stage;
  status = replaced dto.status a.status;
  notes = written dto.notes a.notes;
  cover_letter = written dto.cover_letter a.cover_letter;
  reviewed_at = reviewed_at_of now dto.status a;
}

unfoldable pub withdrawn_at : ℕ → Application → Application
withdrawn_at now a = record a { deleted_at = some now; status = ApplicationStatus.withdrawn }

abbrev pub order_of : QueryApplicationsDto → OrderBy
order_of query = record {
  sort_by = or_else query.sort_by "appliedAt";
  sort_order = or_else query.sort_order desc;
}

-- `{ jobId, candidateId, deletedAt: null }`
abbrev pub live_pair : (job_id candidate_id : String) → ApplicationWhere
live_pair job_id candidate_id = record {
  live = true;
  job_created_by_id = none;
  candidate_id = some candidate_id;
  job_id = some job_id;
  stage = none;
  status = none;
}

module _ (p : PrismaClient) where
  unfoldable pub find_or_create_candidate : User → Option Candidate → Async Db Candidate
  find_or_create_candidate user (some candidate) = pure candidate
  find_or_create_candidate user none =
      p.candidate.create (record { email = user.email; full_name = user.full_name })

  -- `findOrCreateCandidateOrThrow`
  unfoldable pub find_or_create_candidate_or_throw : String → Async Db Candidate
  unfolding find_user_or_throw
  find_or_create_candidate_or_throw user_id = do
    user ← find_user_or_throw user_id
    found ← gets (p.candidate_by_email user.email)
    find_or_create_candidate user found

  -- `ensureNoDuplicateApplication`
  unfoldable pub ensure_no_duplicate_application : (job_id candidate_id : String) → Async Db Unit
  ensure_no_duplicate_application job_id candidate_id d = (
    elim (p.first_application (live_pair job_id candidate_id) d) [
      | none ↦ ok tt
      | some _ ↦ err (conflict "You have already applied to this job")
    ],
    d,
  )

  -- `create` writes the three steps above out once more.
  unfoldable pub create : String → CreateApplicationDto → Async Db Application
  create user_id dto = do
    job ← find_open_job_or_throw dto.job_id
    candidate ← find_or_create_candidate_or_throw user_id
    ensure_no_duplicate_application dto.job_id candidate.id
    p.application.create (record {
      job_id = dto.job_id;
      candidate_id = candidate.id;
      cover_letter = dto.cover_letter;
      cv_file_key = dto.cv_file_key;
      cv_file_url = dto.cv_file_url;
    })

  -- The candidate with the email of a user.
  unfoldable pub candidate_of_user : Option User → Db → Option Candidate
  candidate_of_user none d = none
  candidate_of_user (some user) d = p.candidate_by_email user.email d

  unfoldable pub find_candidate : String → Db → Option Candidate
  unfolding candidate_of_user
  find_candidate user_id d = candidate_of_user (lookup user_id d.users) d

  -- `candidate && application.candidateId === candidate.id`
  unfoldable pub is_applicant : String → Application → Db → Bool
  unfolding find_candidate
  is_applicant user_id application d = elim (find_candidate user_id d) [
    | none ↦ false
    | some candidate ↦ application.candidate_id == candidate.id
  ]

  -- `application.job.createdById === userId`, by the relation `job`
  unfoldable pub is_recruiter : String → Application → Db → Bool
  is_recruiter user_id application d = elim (lookup application.job_id d.jobs) [
    | none ↦ false
    | some job ↦ job.created_by_id == user_id
  ]

  -- `findOne`
  unfoldable pub find_one : (id user_id user_role : String) → Async Db Application
  unfolding live_application
  find_one id user_id user_role = do
    application ← λ d. (live_application id (lookup id d.applications), d)
    applicant ← gets (is_applicant user_id application)
    recruiter ← gets (is_recruiter user_id application)
    if not applicant && not recruiter && not (is_admin user_role)
        then throw (forbidden "You do not have permission to view this application")
        else pure application

  -- `update`; the row that `findOne` returned is the row that is updated
  unfoldable pub update :
      ℕ → (id user_id user_role : String) → UpdateApplicationDto → Async Db Application
  update now id user_id user_role dto = do
    application ← find_one id user_id user_role
    recruiter ← gets (is_recruiter user_id application)
    applicant ← gets (is_applicant user_id application)
    if is_review dto && not recruiter && not (is_admin user_role)
        then throw (forbidden "Only recruiters can update application stage, status and notes")
        else if not recruiter && not (is_admin user_role) && not applicant
        then throw (forbidden "You do not have permission to update this application")
        else p.application.update id (updated now dto)

  -- `remove`
  unfoldable pub remove : ℕ → (id user_id user_role : String) → Async Db Unit
  unfolding withdrawn_at
  remove now id user_id user_role = do
    application ← find_one id user_id user_role
    applicant ← gets (is_applicant user_id application)
    if not applicant && not (is_admin user_role)
        then throw (forbidden "Only applicants can withdraw their applications")
        else (p.application.update id (withdrawn_at now) >> pure tt)

  -- The filter on `candidateId` for who is no recruiter and no administrator: both branches look
  -- the candidate up by the user's email, and set no filter where there is none.
  abbrev own_candidate_id : String → Db → Option String
  own_candidate_id user_id d = id_of (find_candidate user_id d)

  -- The `where` of `findAll`
  unfoldable pub where_of :
      (user_id user_role : String) → QueryApplicationsDto → Db → ApplicationWhere
  where_of user_id user_role query d = record {
    live = true;
    job_created_by_id = if user_role == "RECRUITER" then some user_id else none;
    candidate_id =
        let own =
          if user_role == "RECRUITER"
          then none
          else if user_role == "INTERVIEWER"
          then own_candidate_id user_id d
          else if not (user_role == "ADMIN")
          then own_candidate_id user_id d
          else none in
        elim (when_truthy query.candidate_id) [
          | none ↦ own
          | some candidate_id ↦ if user_role == "ADMIN" then some candidate_id else own
        ];
    job_id = when_truthy query.job_id;
    stage = query.stage;
    status = query.status;
  }

  -- `findAll`
  unfoldable pub find_all :
      (user_id user_role : String) → QueryApplicationsDto → Async Db (PaginatedResult Application)
  find_all user_id user_role query d =
      let page = or_else query.page 1 in
      let limit = or_else query.limit 10 in
      let w = where_of user_id user_role query d in
      (
        ok (record {
          rows = p.application.find_many w (order_of query) (skip_of page limit) limit d;
          meta = meta_of (p.application.count w d) page limit;
        }),
        d,
      )
