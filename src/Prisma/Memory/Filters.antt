-- ===== src/Prisma/Memory/Filters.antt =====
-- When a row in memory passes a `where`: Boolean tests that are sound for the predicates.
use mathlib.Core.Bool.{decide, decide_iff}
use talent_flow_ai_backend.Prelude.{
  ℕ, String, Option, none, some, Bool, true, false, ◌≡◌, refl, ◌&&◌, arith, ◌==◌, eq_iff, lookup,
  leb,
}
use talent_flow_ai_backend.Model.{
  Role-discrete, EmploymentType-discrete, JobStatus-discrete, ApplicationStage-discrete,
  ApplicationStatus-discrete, InterviewType-discrete, InterviewStatus-discrete,
}
use talent_flow_ai_backend.Model.{Job, Application, Interview, User, Db}
use talent_flow_ai_backend.Prisma.Where.{
  UserWhere, JobWhere, ApplicationWhere, InterviewWhere, Equals, IsLive, AtLeast, AtMost,
  JobCreatedBy, Satisfies, SatisfiesJob, SatisfiesUser, SatisfiesInterview,
}

module _ {A : Type 0} (same : Discrete A) where
  equals : Option A → A → Bool
  equals none x = true
  equals (some a) x = decide (same x a)

  equals_sound : (o : Option A) (x : A) → equals o x ≡ true → Equals o x
  unfolding equals
  equals_sound none x h = tt
  equals_sound (some a) x h = (decide_iff (same x a)).0 h

text_equals : Option String → String → Bool
text_equals none x = true
text_equals (some a) x = x == a

text_equals_sound : (o : Option String) (x : String) → text_equals o x ≡ true → Equals o x
unfolding text_equals
text_equals_sound none x h = tt
text_equals_sound (some a) x h = (eq_iff x a).0 h

is_live : Bool → Option ℕ → Bool
is_live true (some t) = false
is_live _ _ = true

is_live_sound : (b : Bool) (o : Option ℕ) → is_live b o ≡ true → IsLive b o
unfolding is_live
is_live_sound true none h = ground arith
is_live_sound true (some t) h = ground arith
is_live_sound false o h = tt

job_created_by : Option String → Db → String → Bool
job_created_by none d id = true
job_created_by (some u) d id = elim (lookup id d.jobs) [
  | none ↦ false
  | some j ↦ j.created_by_id == u
]

job_created_by_sound :
    (o : Option String) (d : Db) (id : String) → job_created_by o d id ≡ true → JobCreatedBy o d id
unfolding job_created_by
job_created_by_sound none d id h = tt
job_created_by_sound (some u) d id h =
    elim (lookup id d.jobs)
        as (λ o.
          (elim o [ none ↦ false | some j ↦ j.created_by_id == u ]) ≡ true
          → (j : Job) × (o ≡ some j) × (j.created_by_id ≡ u)) [
            | none ↦ λ e. cc
            | some j ↦ λ e. (j, refl, (eq_iff j.created_by_id u).0 e)
          ]
      h

unfoldable pub satisfies : ApplicationWhere → Db → Application → Bool
unfolding equals text_equals is_live job_created_by
satisfies w d a =
    is_live w.live a.deleted_at
    && job_created_by w.job_created_by_id d a.job_id
    && text_equals w.candidate_id a.candidate_id
    && text_equals w.job_id a.job_id
    && equals ApplicationStage-discrete w.stage a.stage
    && equals ApplicationStatus-discrete w.status a.status

pub satisfies_sound :
    (w : ApplicationWhere) (d : Db) (a : Application) → satisfies w d a ≡ true → Satisfies w d a
unfolding satisfies
satisfies_sound w d a h = record {
  live = is_live_sound _ _ (ground arith);
  job_created_by = job_created_by_sound _ d _ (ground arith);
  candidate = text_equals_sound _ _ (ground arith);
  job = text_equals_sound _ _ (ground arith);
  stage = equals_sound ApplicationStage-discrete _ _ (ground arith);
  status = equals_sound ApplicationStatus-discrete _ _ (ground arith);
}

text_equals_complete : (o : Option String) (x : String) → Equals o x → text_equals o x ≡ true
unfolding text_equals
text_equals_complete none x h = refl
text_equals_complete (some a) x h = (eq_iff x a).1 h

is_live_complete : (b : Bool) (o : Option ℕ) → IsLive b o → is_live b o ≡ true
unfolding is_live
is_live_complete true none h = refl
is_live_complete true (some t) h = absurd (ground arith)
is_live_complete false o h = refl

module _ {A : Type 0} (same : Discrete A) where
  equals_complete : (o : Option A) (x : A) → Equals o x → equals same o x ≡ true
  unfolding equals
  equals_complete none x h = refl
  equals_complete (some a) x h = (decide_iff (same x a)).1 h

job_created_by_complete :
    (o : Option String) (d : Db) (id : String) → JobCreatedBy o d id → job_created_by o d id ≡ true
unfolding job_created_by
job_created_by_complete none d id h = refl
job_created_by_complete (some u) d id (j, e, made) =
    rw (e, job_created_by) ((eq_iff j.created_by_id u).1 made)

pub satisfies_complete :
    (w : ApplicationWhere) (d : Db) (a : Application) → Satisfies w d a → satisfies w d a ≡ true
unfolding satisfies
satisfies_complete w d a s =
    let live = is_live_complete w.live a.deleted_at s.live in
    let made = job_created_by_complete w.job_created_by_id d a.job_id s.job_created_by in
    let of_candidate = text_equals_complete w.candidate_id a.candidate_id s.candidate in
    let to_job = text_equals_complete w.job_id a.job_id s.job in
    let at_stage = equals_complete ApplicationStage-discrete w.stage a.stage s.stage in
    let with_status = equals_complete ApplicationStatus-discrete w.status a.status s.status in
    rw (live, made, of_candidate, to_job, at_stage, with_status) refl

at_least : Option ℕ → Option ℕ → Bool
at_least none x = true
at_least (some a) none = false
at_least (some a) (some n) = leb a n

at_least_sound : (o x : Option ℕ) → at_least o x ≡ true → AtLeast o x
unfolding at_least
at_least_sound none x h = tt
at_least_sound (some a) none h = cc
at_least_sound (some a) (some n) h = (n, refl, ground arith)

at_most : Option ℕ → Option ℕ → Bool
at_most none x = true
at_most (some a) none = false
at_most (some a) (some n) = leb n a

at_most_sound : (o x : Option ℕ) → at_most o x ≡ true → AtMost o x
unfolding at_most
at_most_sound none x h = tt
at_most_sound (some a) none h = cc
at_most_sound (some a) (some n) h = (n, refl, ground arith)

-- The text searches are left to the database: in memory they let every row pass.
unfoldable pub satisfies_job : JobWhere → Db → Job → Bool
unfolding equals is_live at_least at_most
satisfies_job w d j =
    is_live w.live j.deleted_at
    && equals JobStatus-discrete w.status j.status
    && equals EmploymentType-discrete w.employment_type j.employment_type
    && at_least w.salary_max_gte j.salary_max
    && at_most w.salary_min_lte j.salary_min

pub satisfies_job_sound :
    (w : JobWhere) (d : Db) (j : Job) → satisfies_job w d j ≡ true → SatisfiesJob w d j
unfolding satisfies_job
satisfies_job_sound w d j h = record {
  live = is_live_sound _ _ (ground arith);
  status = equals_sound JobStatus-discrete _ _ (ground arith);
  employment_type = equals_sound EmploymentType-discrete _ _ (ground arith);
  salary_max = at_least_sound _ _ (ground arith);
  salary_min = at_most_sound _ _ (ground arith);
}

unfoldable pub satisfies_user : UserWhere → Db → User → Bool
unfolding equals is_live
satisfies_user w d u = is_live w.live u.deleted_at && equals Role-discrete w.role u.role

pub satisfies_user_sound :
    (w : UserWhere) (d : Db) (u : User) → satisfies_user w d u ≡ true → SatisfiesUser w d u
unfolding satisfies_user
satisfies_user_sound w d u h = record {
  live = is_live_sound _ _ (ground arith);
  role = equals_sound Role-discrete _ _ (ground arith);
}

assigned_to : Option String → Option String → Bool
assigned_to none x = true
assigned_to (some u) none = false
assigned_to (some u) (some v) = v == u

assigned_to_sound :
    (o x : Option String) → assigned_to o x ≡ true → (u : String) → o ≡ some u → x ≡ some u
unfolding assigned_to
assigned_to_sound none x h u e = cc
assigned_to_sound (some v) none h u e = cc
assigned_to_sound (some v) (some x) h u e = ground (arith, eq_iff x v)

unfoldable pub satisfies_interview : InterviewWhere → Db → Interview → Bool
unfolding equals text_equals assigned_to
satisfies_interview w d i =
    text_equals w.application_id i.application_id
    && assigned_to w.interviewer_id i.interviewer_id
    && equals InterviewType-discrete w.type i.type
    && equals InterviewStatus-discrete w.status i.status

pub satisfies_interview_sound :
    (w : InterviewWhere) (d : Db) (i : Interview)
    → satisfies_interview w d i ≡ true
    → SatisfiesInterview w d i
unfolding satisfies_interview
satisfies_interview_sound w d i h = record {
  application = text_equals_sound _ _ (ground arith);
  interviewer = assigned_to_sound _ _ (ground arith);
  type = equals_sound InterviewType-discrete _ _ (ground arith);
  status = equals_sound InterviewStatus-discrete _ _ (ground arith);
}
