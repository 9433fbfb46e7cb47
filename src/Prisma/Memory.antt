-- ===== src/Prisma/Memory.antt =====
-- A database in memory that meets the laws: the laws can hold, and runs have something to run on.
pub mod Search
pub mod Rows
pub mod Filters
use talent_flow_ai_backend.Prelude.{
  String, none, some, Bool, true, false, ◌≡◌, ◌≢◌, refl, ◌&&◌, arith, ◌==◌, eq_iff, eq_refl, Table,
  lookup, without, is_some, restrict, lookup-restrict, Option-cases, inl, inr, not, Option,
}
use talent_flow_ai_backend.Model.{User, Job, Candidate, Application, Interview, Db}
use talent_flow_ai_backend.Async.{Async, ok, err, error}
use talent_flow_ai_backend.Prisma.{NewUser, NewJob, NewCandidate, NewApplication, NewInterview}
use talent_flow_ai_backend.Prisma.{PrismaClient}
use talent_flow_ai_backend.Prisma.Where.{
  Satisfies, SatisfiesJob, SatisfiesUser, SatisfiesInterview, CandidateWhere,
}
use talent_flow_ai_backend.Prisma.Laws.{users, jobs, candidates, applications, interviews}
use talent_flow_ai_backend.Prisma.Laws.{user_of, job_of, candidate_of, application_of, interview_of}
use talent_flow_ai_backend.Prisma.Laws.{PrismaLaws, Reads}
use Search.{search, search_sound, search_complete}
use Rows.{delegate, delegate-Writes, delegate-Reads, create_in}
use Filters.{
  satisfies, satisfies_sound, satisfies_complete, satisfies_job, satisfies_job_sound,
  satisfies_user, satisfies_user_sound, satisfies_interview, satisfies_interview_sound,
}

abbrev is_pair : String → String → Application → Bool
is_pair j c a = a.job_id == j && a.candidate_id == c

unfoldable pub delete_application : String → Async Db Application
delete_application id d = elim (lookup id d.applications) [
  | none ↦ (err (error "record to delete not found"), d)
  | some a ↦ (ok a, record d { applications = without id d.applications })
]

abbrev of_another : String → Option Application → Bool
of_another id none = true
of_another id (some a) = not (a.candidate_id == id)

abbrev is_kept : String → Table Application → String → Bool
is_kept id t i = of_another id (lookup i t)

unfoldable pub delete_candidate : String → Async Db Candidate
delete_candidate id d = elim (lookup id d.candidates) [
  | none ↦ (err (error "record to delete not found"), d)
  | some c ↦ (
    ok c,
    record d {
      candidates = without id d.candidates;
      applications = restrict (is_kept id d.applications) d.applications;
    },
  )
]

abbrev taken : NewApplication → Db → Bool
taken n d = is_some (search (is_pair n.job_id n.candidate_id) d.applications)

abbrev pub memory : PrismaClient
memory = record {
  user =
      delegate users (λ id now n. user_of id n)
        (λ n d. is_some (search (λ u. u.email == n.email) d.users)) satisfies_user;
  job = delegate jobs (λ id now n. job_of id n) (λ n d. false) satisfies_job;
  candidate =
      delegate candidates (λ id now n. candidate_of id n)
        (λ n d. is_some (search (λ c. c.email == n.email) d.candidates)) (λ w d c. true);
  application = delegate applications application_of taken satisfies;
  interview =
      delegate interviews (λ id now n. interview_of id n) (λ n d. false) satisfies_interview;
  user_by_email = λ e d. search (λ u. u.email == e) d.users;
  candidate_by_email = λ e d. search (λ c. c.email == e) d.candidates;
  first_application = λ w d. search (satisfies w d) d.applications;
  delete_candidate = delete_candidate;
  delete_application = delete_application;
}

by_email_sound :
    {Row : Type 0} (mail : Row → String) (e : String) (t : Table Row) (r : Row)
    → search (λ q. mail q == e) t ≡ some r
    → (mail r ≡ e) × ((id : String) × (lookup id t ≡ some r))
by_email_sound mail e t r h =
    let (y, found) = search_sound _ t r h in ((eq_iff (mail r) e).0 y, found)

application_unique :
    (n : NewApplication) (d : Db) (id : String) (a : Application)
    → lookup id d.applications ≡ some a
    → a.job_id ≡ n.job_id
    → a.candidate_id ≡ n.candidate_id
    → taken n d ≡ true
application_unique n d id a h j c =
    let miss =
      search_complete (is_pair n.job_id n.candidate_id) d.applications id a h
        (ground (arith, eq_iff a.job_id n.job_id, eq_iff a.candidate_id n.candidate_id)) in
    ground arith

kept_sound :
    (id i : String) (t : Table Application) (a : Application)
    → lookup i (restrict (is_kept id t) t) ≡ some a
    → (lookup i t ≡ some a) × (a.candidate_id ≢ id)
kept_sound id i t a h =
    let shown = lookup-restrict (is_kept id t) i t in
    elim (Option-cases (lookup i t)) [
      | inl e ↦ absurd (ground arith)
      | inr (b, e) ↦ (ground arith, ground (arith, eq_iff a.candidate_id id))
    ]

kept_complete :
    (id i : String) (t : Table Application) (a : Application)
    → lookup i t ≡ some a
    → a.candidate_id ≢ id
    → lookup i (restrict (is_kept id t) t) ≡ some a
kept_complete id i t a h n =
    ground (arith, lookup-restrict (is_kept id t) i t, eq_iff a.candidate_id id)

pub memory-PrismaLaws : PrismaLaws memory
unfolding delete_application create_in delete_candidate
memory-PrismaLaws = record {
  user = delegate-Writes users _ _ _ (λ id now n. refl);
  job = delegate-Writes jobs _ _ _ (λ id now n. refl);
  candidate = delegate-Writes candidates _ _ _ (λ id now n. refl);
  application = delegate-Writes applications _ _ _ (λ id now n. refl);
  interview = delegate-Writes interviews _ _ _ (λ id now n. refl);
  user_by_email_sound = λ e d u h. by_email_sound (λ q. q.email) e d.users u h;
  user_by_email_complete =
      λ d id u h. search_complete (λ q. q.email == u.email) d.users id u h (eq_refl u.email);
  candidate_by_email_sound = λ e d c h. by_email_sound (λ q. q.email) e d.candidates c h;
  candidate_by_email_complete =
      λ d id c h. search_complete (λ q. q.email == c.email) d.candidates id c h (eq_refl c.email);
  first_application_sound = λ w d a h.
      let (y, found) = search_sound (satisfies w d) d.applications a h in
      (satisfies_sound w d a y, found);
  first_application_complete = λ w d id a h s.
      search_complete (satisfies w d) d.applications id a h (satisfies_complete w d a s);
  application_unique =
      λ n d id a h j c. ("constraint failed", ground (arith, application_unique n d id a h j c));
  delete_application_ok = λ id d a h. (d.interviews, ground arith);
  delete_candidate_ok = λ id d c h. (
    restrict (is_kept id d.applications) d.applications,
    d.interviews,
    ground arith,
    λ i a. kept_sound id i d.applications a,
    λ i a. kept_complete id i d.applications a,
  );
  delete_candidate_err = λ id d e h. ("record to delete not found", ground arith, ground arith);
  delete_application_err = λ id d e h. ("record to delete not found", ground arith, ground arith);
}

pub memory-application-Reads : Reads Satisfies memory.application
memory-application-Reads = delegate-Reads applications _ _ _ Satisfies satisfies_sound

pub memory-job-Reads : Reads SatisfiesJob memory.job
memory-job-Reads = delegate-Reads jobs _ _ _ SatisfiesJob satisfies_job_sound

pub memory-user-Reads : Reads SatisfiesUser memory.user
memory-user-Reads = delegate-Reads users _ _ _ SatisfiesUser satisfies_user_sound

pub memory-interview-Reads : Reads SatisfiesInterview memory.interview
memory-interview-Reads =
    delegate-Reads interviews _ _ _ SatisfiesInterview satisfies_interview_sound

pub memory-candidate-Reads : Reads (λ w d c. Unit {0}) memory.candidate
memory-candidate-Reads = delegate-Reads candidates _ _ _ (λ w d c. Unit {0}) (λ w d c h. tt)
