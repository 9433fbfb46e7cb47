-- ===== src/Applications/Refusals.antt =====
-- `create`: what a refusal leaves alone, and applying to the same job again.
use talent_flow_ai_backend.Prelude.{
  String, none, some, ◌≡◌, ◌≢◌, refl, ap, ◌∙◌, subst, sym, arith, lookup, Option-cases, inl, inr,
}
use talent_flow_ai_backend.Model.{User, Candidate, Application, Db}
use talent_flow_ai_backend.Async.{err, Exception, error, bind-err}
use talent_flow_ai_backend.Prisma.{PrismaClient}
use talent_flow_ai_backend.Prisma.Laws.{PrismaLaws, KeepsAllButCandidates}
use talent_flow_ai_backend.Applications.Dto.{CreateApplicationDto}
use talent_flow_ai_backend.Applications.Service.{
  find_open_job_or_throw, find_or_create_candidate, find_or_create_candidate_or_throw,
  ensure_no_duplicate_application, create, live_pair,
}
use talent_flow_ai_backend.Applications.Create.{IsOpenJob, find_or_create-keeps, new_application}

module _ (p : PrismaClient) (laws : PrismaLaws p) where
  -- Every refusal leaves the users, the jobs, the applications and the interviews as they were; a
  -- candidate may have been added.
  pub create-err-keeps :
      (user_id : String) (dto : CreateApplicationDto) (d : Db) (e : Exception)
      → (create p user_id dto d).0 ≡ err e
      → KeepsAllButCandidates d (create p user_id dto d).1
  unfolding create find_open_job_or_throw ensure_no_duplicate_application
  create-err-keeps user_id dto d e h =
      let kept = find_or_create-keeps p laws user_id d in
      let d1 = (find_or_create_candidate_or_throw p user_id d).1 in
      let P = KeepsAllButCandidates d in
      elim (bind-err (find_open_job_or_throw dto.job_id) _ d e h) [
        | inl same ↦
            subst P (sym (ap (λ r. r.1) same))
              (record { users = refl; jobs = refl; applications = refl; interviews = refl })
        | inr (j, _, h1, e1) ↦
            elim (bind-err (find_or_create_candidate_or_throw p user_id) _ d e h1) [
              | inl same ↦ subst P (sym (ap (λ r. r.1) (e1 ∙ same))) kept
              | inr (c, _, h2, e2) ↦
                  elim (bind-err (ensure_no_duplicate_application p dto.job_id c.id) _ d1 e h2) [
                    | inl same ↦ subst P (sym (ap (λ r. r.1) (e1 ∙ e2 ∙ same))) kept
                    | inr (t, _, h3, e3) ↦
                        let (s, _, after) =
                          laws.application.create_err (new_application dto c.id) d1 e h3 in
                        subst P (sym (ap (λ r. r.1) (e1 ∙ e2 ∙ e3) ∙ after)) kept
                  ]
            ]
      ]

  -- Where every application of the user's candidate to this open job is withdrawn, and there is one,
  -- the user can not apply again: `create` fails with the database's error, as the constraint
  -- `@@unique([jobId, candidateId])` counts withdrawn applications.
  pub create-after-withdrawal :
      (user_id : String) (dto : CreateApplicationDto) (d : Db) (u : User) (c : Candidate)
      (id : String) (b : Application)
      → IsOpenJob dto.job_id d
      → lookup user_id d.users ≡ some u
      → p.candidate_by_email u.email d ≡ some c
      → lookup id d.applications ≡ some b
      → b.job_id ≡ dto.job_id
      → b.candidate_id ≡ c.id
      → ((i : String) (a : Application)
          → lookup i d.applications ≡ some a
          → a.job_id ≡ dto.job_id
          → a.candidate_id ≡ c.id
          → a.deleted_at ≢ none)
      → (s : String) × ((create p user_id dto d).0 ≡ err (error s))
  unfolding create find_open_job_or_throw find_or_create_candidate_or_throw find_or_create_candidate
      ensure_no_duplicate_application
  create-after-withdrawal user_id dto d u c id b (j, there, live, opened) known found old same_job
        same_candidate withdrawn =
      let (s, refused) =
        laws.application_unique (new_application dto c.id) d id b old same_job same_candidate in
      elim (Option-cases (p.first_application (live_pair dto.job_id c.id) d)) [
        | inl nothing ↦ (s, ground arith)
        | inr (a, first) ↦
            let (found, (i, at)) =
              laws.first_application_sound (live_pair dto.job_id c.id) d a first in
            absurd (withdrawn i a at found.job found.candidate found.live)
      ]
