-- ===== src/Prisma/Laws.antt =====
-- What the services rely on of the Prisma client and of the schema's constraints, as documented.
use talent_flow_ai_backend.Prelude.{
  ◌≤◌, ℕ, String, none, some, ◌≡◌, ◌≢◌, All, length, Table, lookup, insert, without, or_else,
}
use talent_flow_ai_backend.Model.{User, Job, Candidate, Application, Interview, Db}
use talent_flow_ai_backend.Model.{full_time, draft, applied, submitted, scheduled}
use talent_flow_ai_backend.Async.{ok, err, Exception, error}
use talent_flow_ai_backend.Prisma.{NewUser, NewJob, NewCandidate, NewApplication, NewInterview}
use talent_flow_ai_backend.Prisma.{Delegate, PrismaClient}
use talent_flow_ai_backend.Prisma.Where.{OrderBy, ApplicationWhere, Satisfies}

-- Where a model's rows stand.
pub record Place (Row : Type 0) : Type 0 where
  pub table : Db → Table Row
  pub put : Table Row → Db → Db
  pub key : Row → String

abbrev pub users : Place User
users = record { table = λ d. d.users; put = λ t d. record d { users = t }; key = λ r. r.id }

abbrev pub jobs : Place Job
jobs = record { table = λ d. d.jobs; put = λ t d. record d { jobs = t }; key = λ r. r.id }

abbrev pub candidates : Place Candidate
candidates = record {
  table = λ d. d.candidates;
  put = λ t d. record d { candidates = t };
  key = λ r. r.id;
}

abbrev pub applications : Place Application
applications = record {
  table = λ d. d.applications;
  put = λ t d. record d { applications = t };
  key = λ r. r.id;
}

abbrev pub interviews : Place Interview
interviews = record {
  table = λ d. d.interviews;
  put = λ t d. record d { interviews = t };
  key = λ r. r.id;
}

-- The row that a `create` makes: its data, and the schema's defaults for the rest.
abbrev pub user_of : String → NewUser → User
user_of id n = record {
  id = id;
  email = n.email;
  password = n.password;
  role = n.role;
  full_name = n.full_name;
  deleted_at = none;
}

abbrev pub job_of : String → NewJob → Job
job_of id n = record {
  id = id;
  title = n.title;
  description = n.description;
  requirements = n.requirements;
  department = n.department;
  location = n.location;
  employment_type = or_else n.employment_type full_time;
  salary_min = n.salary_min;
  salary_max = n.salary_max;
  status = or_else n.status draft;
  created_by_id = n.created_by_id;
  deleted_at = none;
}

abbrev pub candidate_of : String → NewCandidate → Candidate
candidate_of id n = record {
  id = id;
  email = n.email;
  full_name = n.full_name;
  phone = none;
  linkedin_url = none;
  resume_url = none;
  resume_text = none;
}

abbrev pub application_of : String → ℕ → NewApplication → Application
application_of id now n = record {
  id = id;
  job_id = n.job_id;
  candidate_id = n.candidate_id;
  stage = applied;
  status = submitted;
  cv_file_key = n.cv_file_key;
  cv_file_url = n.cv_file_url;
  cover_letter = n.cover_letter;
  notes = none;
  applied_at = now;
  reviewed_at = none;
  deleted_at = none;
}

abbrev pub interview_of : String → NewInterview → Interview
interview_of id n = record {
  id = id;
  application_id = n.application_id;
  scheduled_at = n.scheduled_at;
  duration = n.duration;
  type = n.type;
  location = n.location;
  notes = n.notes;
  status = scheduled;
  interviewer_id = n.interviewer_id;
}

-- A statement either takes effect or rejects and changes nothing.
pub record Writes {Row New Where : Type 0} (p : Place Row) (row : String → ℕ → New → Row)
    (m : Delegate Row New Where) : Type 0 where
  pub create_ok :
      (n : New) (d : Db) (r : Row)
      → (m.create n d).0 ≡ ok r
      → (now : ℕ) × (r ≡ row (p.key r) now n)
        × (lookup (p.key r) (p.table d) ≡ none)
        × ((m.create n d).1 ≡ p.put (insert (p.key r) r (p.table d)) d)
  pub create_err :
      (n : New) (d : Db) (e : Exception)
      → (m.create n d).0 ≡ err e
      → (s : String) × (e ≡ error s) × ((m.create n d).1 ≡ d)
  pub update_ok :
      (id : String) (change : Row → Row) (d : Db) (r : Row)
      → (m.update id change d).0 ≡ ok r
      → (q : Row) × (lookup id (p.table d) ≡ some q)
        × (r ≡ change q)
        × ((m.update id change d).1 ≡ p.put (insert id r (p.table d)) d)
  pub update_err :
      (id : String) (change : Row → Row) (d : Db) (e : Exception)
      → (m.update id change d).0 ≡ err e
      → (s : String) × (e ≡ error s) × ((m.update id change d).1 ≡ d)

-- `findMany` gives rows that satisfy the `where`, `take` of them at most.
pub record Reads {Row New Where : Type 0} (holds : Where → Db → Row → Type 0)
    (m : Delegate Row New Where) : Type 0 where
  pub find_many_holds :
      (w : Where) (o : OrderBy) (skip limit : ℕ) (d : Db)
      → All (holds w d) (m.find_many w o skip limit d)
  pub find_many_limit :
      (w : Where) (o : OrderBy) (skip limit : ℕ) (d : Db)
      → length (m.find_many w o skip limit d) ≤ limit

pub record PrismaLaws (p : PrismaClient) : Type 0 where
  pub user : Writes users (λ id now n. user_of id n) p.user
  pub job : Writes jobs (λ id now n. job_of id n) p.job
  pub candidate : Writes candidates (λ id now n. candidate_of id n) p.candidate
  pub application : Writes applications application_of p.application
  pub interview : Writes interviews (λ id now n. interview_of id n) p.interview
  pub user_by_email_sound :
      (e : String) (d : Db) (u : User)
      → p.user_by_email e d ≡ some u
      → (u.email ≡ e) × ((id : String) × (lookup id d.users ≡ some u))
  pub user_by_email_complete :
      (d : Db) (id : String) (u : User)
      → lookup id d.users ≡ some u
      → p.user_by_email u.email d ≢ none
  pub candidate_by_email_sound :
      (e : String) (d : Db) (c : Candidate)
      → p.candidate_by_email e d ≡ some c
      → (c.email ≡ e) × ((id : String) × (lookup id d.candidates ≡ some c))
  pub candidate_by_email_complete :
      (d : Db) (id : String) (c : Candidate)
      → lookup id d.candidates ≡ some c
      → p.candidate_by_email c.email d ≢ none
  pub first_application_sound :
      (w : ApplicationWhere) (d : Db) (a : Application)
      → p.first_application w d ≡ some a
      → Satisfies w d a × ((id : String) × (lookup id d.applications ≡ some a))
  pub first_application_complete :
      (w : ApplicationWhere) (d : Db) (id : String) (a : Application)
      → lookup id d.applications ≡ some a
      → Satisfies w d a
      → p.first_application w d ≢ none
  -- `@@unique([jobId, candidateId])`, deleted rows included
  pub application_unique :
      (n : NewApplication) (d : Db) (id : String) (a : Application)
      → lookup id d.applications ≡ some a
      → a.job_id ≡ n.job_id
      → a.candidate_id ≡ n.candidate_id
      → (s : String) × ((p.application.create n d).0 ≡ err (error s))
  pub delete_application_ok :
      (id : String) (d : Db) (a : Application)
      → (p.delete_application id d).0 ≡ ok a
      → (is : Table Interview) × ((p.delete_application id d).1
          ≡ record d { applications = without id d.applications; interviews = is })
  pub delete_application_err :
      (id : String) (d : Db) (e : Exception)
      → (p.delete_application id d).0 ≡ err e
      → (s : String) × (e ≡ error s) × ((p.delete_application id d).1 ≡ d)
  -- `onDelete: Cascade` of the applications
  pub delete_candidate_ok :
      (id : String) (d : Db) (c : Candidate)
      → (p.delete_candidate id d).0 ≡ ok c
      → (kept : Table Application) × (is : Table Interview) × ((p.delete_candidate id d).1
          ≡ record d { candidates = without id d.candidates; applications = kept; interviews = is })
        × ((i : String) (a : Application)
            → lookup i kept ≡ some a
            → (lookup i d.applications ≡ some a) × (a.candidate_id ≢ id))
        × ((i : String) (a : Application)
            → lookup i d.applications ≡ some a
            → a.candidate_id ≢ id
            → lookup i kept ≡ some a)
  pub delete_candidate_err :
      (id : String) (d : Db) (e : Exception)
      → (p.delete_candidate id d).0 ≡ err e
      → (s : String) × (e ≡ error s) × ((p.delete_candidate id d).1 ≡ d)

-- Only the table of candidates may differ.
pub record KeepsAllButCandidates (d d' : Db) : Type 0 where
  pub users : d'.users ≡ d.users
  pub jobs : d'.jobs ≡ d.jobs
  pub applications : d'.applications ≡ d.applications
  pub interviews : d'.interviews ≡ d.interviews
