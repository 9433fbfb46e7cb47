-- ===== src/Interviews/Service.antt =====
-- interviews/interviews.service.ts and interviews/dto/*.ts. `now` is what `new Date()` returned,
-- `date_of` is `new Date(text)`, in milliseconds; a date before 1970, which is as little in the
-- future as 0 is, counts as 0.
use Prim.Native.String
use talent_flow_ai_backend.Prelude.{
  ℕ, String, Option, none, some, lookup, is_some, or_else, leb, if◌then◌else◌,
}
use talent_flow_ai_backend.Model.{Application, User, Interview, InterviewType, InterviewStatus, Db}
use talent_flow_ai_backend.Async.{
  Async, Result, ok, err, Exception, not_found, bad_request, pure, ◌>>=◌, ◌>>◌,
}
use talent_flow_ai_backend.Dto.{
  Field, undefined, null, value, truthy, written, replaced, when_truthy,
}
use talent_flow_ai_backend.Pagination.{PaginatedResult, meta_of, skip_of}
use talent_flow_ai_backend.Prisma.{PrismaClient}
use talent_flow_ai_backend.Prisma.Where.{InterviewWhere, OrderBy, SortOrder, asc}

pub record CreateInterviewDto : Type 0 where
  pub application_id : String
  pub scheduled_at : String
  pub duration : Option ℕ
  pub type : Option InterviewType
  pub location : Option String
  pub notes : Option String
  pub interviewer_id : Option String

-- A `null` for `duration`, `type` or `status`, which the database refuses, is left out.
pub record UpdateInterviewDto : Type 0 where
  pub scheduled_at : Field String
  pub duration : Option ℕ
  pub type : Option InterviewType
  pub location : Field String
  pub notes : Field String
  pub status : Option InterviewStatus
  pub interviewer_id : Field String

pub record QueryInterviewsDto : Type 0 where
  pub page : Option ℕ
  pub limit : Option ℕ
  pub application_id : Option String
  pub interviewer_id : Option String
  pub type : Option InterviewType
  pub status : Option InterviewStatus
  pub sort_by : Option String
  pub sort_order : Option SortOrder

abbrev missing : (what id : String) → Exception
missing what id =
    not_found (String.◌++◌ what (String.◌++◌ " with ID \"" (String.◌++◌ id "\" not found")))

abbrev pub interview_not_found : String → Exception
interview_not_found id = missing "Interview" id

-- `findUnique({ where: { id, deletedAt: null } })`, and the test on what it gives
unfoldable pub live_application : String → Option Application → Result Application
live_application id none = err (missing "Application" id)
live_application id (some a) = if is_some a.deleted_at then err (missing "Application" id) else ok a

unfoldable pub live_interviewer : String → Option User → Result {0} Unit
live_interviewer id none = err (missing "Interviewer" id)
live_interviewer id (some u) =
    if is_some u.deleted_at then err (missing "Interviewer" id) else ok tt

-- `if (dto.interviewerId) { … }`
unfoldable pub check_interviewer : Option String → Async Db Unit
unfolding live_interviewer
check_interviewer none d = (ok tt, d)
check_interviewer (some id) d = (live_interviewer id (lookup id d.users), d)

abbrev not_in_future : Exception
not_in_future = bad_request "Interview must be scheduled in the future"

-- `if (scheduledAt <= new Date()) throw …`
unfoldable pub check_future : (now at : ℕ) → Async Db Unit
check_future now at d = (if leb at now then err not_in_future else ok tt, d)

-- The interviewer that `if (dto.interviewerId)` finds set.
abbrev pub given : Field String → Option String
given (value s) = when_truthy (some s)
given _ = none

-- `if (dto.scheduledAt) { … }`
unfoldable pub check_rescheduled : (String → ℕ) → ℕ → Field String → Async Db Unit
unfolding check_future
check_rescheduled date_of now (value s) d =
    if truthy (value s) then check_future now (date_of s) d else (ok tt, d)
check_rescheduled date_of now _ d = (ok tt, d)

-- `new Date(dto.scheduledAt)` if it is not `undefined`: `new Date(null)` is the start of 1970.
unfoldable pub rescheduled : (String → ℕ) → Field String → ℕ → ℕ
rescheduled date_of undefined old = old
rescheduled date_of null old = 0
rescheduled date_of (value s) old = date_of s

-- The `data` of `update`
unfoldable pub updated : (String → ℕ) → UpdateInterviewDto → Interview → Interview
unfolding rescheduled
updated date_of dto i = record i {
  scheduled_at = rescheduled date_of dto.scheduled_at i.scheduled_at;
  duration = replaced dto.duration i.duration;
  type = replaced dto.type i.type;
  location = written dto.location i.location;
  notes = written dto.notes i.notes;
  status = replaced dto.status i.status;
  interviewer_id = written dto.interviewer_id i.interviewer_id;
}

abbrev pub cancelled : Interview → Interview
cancelled i = record i { status = InterviewStatus.cancelled }

-- `findUnique({ where: { id } })`, and the test on what it gives
unfoldable pub known_interview : String → Option Interview → Result Interview
known_interview id none = err (interview_not_found id)
known_interview id (some i) = ok i

-- `findOne`
unfoldable pub find_one : String → Async Db Interview
unfolding known_interview
find_one id d = (known_interview id (lookup id d.interviews), d)

abbrev pub order_of : QueryInterviewsDto → OrderBy
order_of query = record {
  sort_by = or_else query.sort_by "scheduledAt";
  sort_order = or_else query.sort_order asc;
}

unfoldable pub where_of : QueryInterviewsDto → InterviewWhere
where_of query = record {
  application_id = when_truthy query.application_id;
  interviewer_id = when_truthy query.interviewer_id;
  type = query.type;
  status = query.status;
}

module _ (p : PrismaClient) where
  -- `create`
  unfoldable pub create : (String → ℕ) → ℕ → CreateInterviewDto → Async Db Interview
  unfolding live_application
  create date_of now dto = do
    application ←
        λ d. (live_application dto.application_id (lookup dto.application_id d.applications), d)
    check_interviewer (when_truthy dto.interviewer_id)
    check_future now (date_of dto.scheduled_at)
    p.interview.create (record {
      application_id = dto.application_id;
      scheduled_at = date_of dto.scheduled_at;
      duration = or_else dto.duration 60;
      type = or_else dto.type InterviewType.video;
      location = dto.location;
      notes = dto.notes;
      interviewer_id = dto.interviewer_id;
    })

  -- `findAll`
  unfoldable pub find_all : QueryInterviewsDto → Async Db (PaginatedResult Interview)
  find_all query d =
      let page = or_else query.page 1 in
      let limit = or_else query.limit 10 in
      let w = where_of query in
      (
        ok (record {
          rows = p.interview.find_many w (order_of query) (skip_of page limit) limit d;
          meta = meta_of (p.interview.count w d) page limit;
        }),
        d,
      )

  -- `update`
  unfoldable pub update : (String → ℕ) → ℕ → String → UpdateInterviewDto → Async Db Interview
  update date_of now id dto = do
    existing ← find_one id
    check_rescheduled date_of now dto.scheduled_at
    check_interviewer (given dto.interviewer_id)
    p.interview.update id (updated date_of dto)

  -- `remove`
  unfoldable pub remove : String → Async Db Unit
  remove id = do existing ← find_one id; p.interview.update id cancelled; pure tt
