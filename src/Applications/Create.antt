-- ===== src/Applications/Create.antt =====
-- `create`: what an application that is made satisfies, what a refusal leaves alone.
use talent_flow_ai_backend.Prelude.{
  ℕ, String, none, some, ◌≡◌, ◌≢◌, ap, sym, ◌∙◌, refl, arith, lookup, insert, lookup-insert,
  eq_refl, ◌⊎◌, Option-cases, inl, inr,
}
use talent_flow_ai_backend.Model.{User, Job, Candidate, Application, Db, JobStatus}
use talent_flow_ai_backend.Async.{ok, Result-cases, bind-ok}
use talent_flow_ai_backend.Prisma.{PrismaClient, NewCandidate, NewApplication}
use talent_flow_ai_backend.Prisma.Laws.{
  PrismaLaws, application_of, candidate_of, KeepsAllButCandidates,
}
use talent_flow_ai_backend.Applications.Dto.{CreateApplicationDto}
use talent_flow_ai_backend.Applications.Service.{
  live_pair, find_open_job_or_throw, find_or_create_candidate, find_or_create_candidate_or_throw,
  ensure_no_duplicate_application, create,
}

-- The job is there, not deleted, and open.
abbrev pub IsOpenJob : String → Db → Type 0
IsOpenJob id d =
    (j : Job) × (lookup id d.jobs ≡ some j) × (j.deleted_at ≡ none) × (j.status ≡ JobStatus.is_open)

pub find_open_job_or_throw-ok :
    (id : String) (d : Db) (j : Job) → (find_open_job_or_throw id d).0 ≡ ok j → IsOpenJob id d
unfolding find_open_job_or_throw
find_open_job_or_throw-ok id d j h = (j, ground arith, ground arith, ground arith)

-- The `data` of `create`.
abbrev pub new_application : CreateApplicationDto → String → NewApplication
new_application dto candidate_id = record {
  job_id = dto.job_id;
  candidate_id = candidate_id;
  cover_letter = dto.cover_letter;
  cv_file_key = dto.cv_file_key;
  cv_file_url = dto.cv_file_url;
}

-- The `data` of a candidate that is made for a user.
abbrev pub candidate_data : User → NewCandidate
candidate_data u = record { email = u.email; full_name = u.full_name }

-- From `d` to `d'`, the candidate was looked up for a user, by the email, or made: it is stored, with
-- the email of the user; and either no candidate was added, or none had that email and the one that
-- was added is new, with the email and the name of the user.
pub record IsCandidateOf (u : User) (d d' : Db) (c : Candidate) : Type 0 where
  pub stored : (id : String) × (lookup id d'.candidates ≡ some c)
  pub email : c.email ≡ u.email
  pub found_or_made :
      (d'.candidates ≡ d.candidates)
      ⊎ (((i : String) (b : Candidate) → lookup i d.candidates ≡ some b → b.email ≢ u.email)
          × (c ≡ candidate_of c.id (candidate_data u))
          × (d'.candidates ≡ insert c.id c d.candidates))

-- Only the candidates of the database after matter.
pub IsCandidateOf-same :
    (u : User) (d d' e : Db) (c : Candidate)
    → IsCandidateOf u d d' c
    → e.candidates ≡ d'.candidates
    → IsCandidateOf u d e c
IsCandidateOf-same u d d' e c k same =
    let (id, there) = k.stored in
    record {
      stored = (id, ap (lookup id) same ∙ there);
      email = k.email;
      found_or_made = rw same k.found_or_made;
    }

module _ (p : PrismaClient) (laws : PrismaLaws p) where
  create_candidate-keeps :
      (n : NewCandidate) (d : Db) → KeepsAllButCandidates d (p.candidate.create n d).1
  create_candidate-keeps n d = elim (Result-cases (p.candidate.create n d).0) [
    | inl (c, e) ↦
        let (now, row, fresh, after) = laws.candidate.create_ok n d c e in
        rw after (record { users = refl; jobs = refl; applications = refl; interviews = refl })
    | inr (x, e) ↦
        let (s, is, after) = laws.candidate.create_err n d x e in
        rw after (record { users = refl; jobs = refl; applications = refl; interviews = refl })
  ]

  pub find_or_create-keeps :
      (user_id : String) (d : Db)
      → KeepsAllButCandidates d (find_or_create_candidate_or_throw p user_id d).1
  unfolding find_or_create_candidate_or_throw find_or_create_candidate
  find_or_create-keeps user_id d = elim (Option-cases (lookup user_id d.users)) [
    | inl e ↦ ground arith
    | inr (u, e) ↦ elim (Option-cases (p.candidate_by_email u.email d)) [
      | inl f ↦
          let k = create_candidate-keeps (record { email = u.email; full_name = u.full_name }) d in
          ground arith
      | inr (c, f) ↦ ground arith
    ]
  ]

  find_or_create-found :
      (u : User) (d : Db) (c : Candidate)
      → p.candidate_by_email u.email d ≡ some c
      → IsCandidateOf u d d c
  find_or_create-found u d c f =
      let (mail, there) = laws.candidate_by_email_sound u.email d c f in
      record { stored = there; email = mail; found_or_made = inl refl }

  find_or_create-made :
      (u : User) (d d' : Db) (c : Candidate)
      → p.candidate_by_email u.email d ≡ none
      → c ≡ candidate_of c.id (candidate_data u)
      → d' ≡ record d { candidates = insert c.id c d.candidates }
      → IsCandidateOf u d d' c
  find_or_create-made u d d' c f row after = record {
    stored = (c.id, rw after (simp (lookup-insert, eq_refl)));
    email = ap (λ k. k.email) row;
    found_or_made = inr (
      λ i b there mail.
          laws.candidate_by_email_complete d i b there
            (ap (λ m. p.candidate_by_email m d) mail ∙ f),
      row,
      ap (λ e. e.candidates) after,
    );
  }

  -- The candidate found or made is one of the user, who exists.
  pub find_or_create-ok :
      (user_id : String) (d : Db) (c : Candidate)
      → (find_or_create_candidate_or_throw p user_id d).0 ≡ ok c
      → (u : User) × (lookup user_id d.users ≡ some u)
        × IsCandidateOf u d (find_or_create_candidate_or_throw p user_id d).1 c
  unfolding find_or_create_candidate_or_throw find_or_create_candidate
  find_or_create-ok user_id d c h = elim (Option-cases (lookup user_id d.users)) [
    | inl e ↦ absurd (ground arith)
    | inr (u, e) ↦ elim (Option-cases (p.candidate_by_email u.email d)) [
      | inl f ↦
          let same : find_or_create_candidate_or_throw p user_id d
              ≡ p.candidate.create (candidate_data u) d =
            ground arith in
          let made = sym (ap (λ r. r.0) same) ∙ h in
          let (now, row, fresh, after) = laws.candidate.create_ok (candidate_data u) d c made in
          (u, e, find_or_create-made u d _ c f row (ap (λ r. r.1) same ∙ after))
      | inr (c', f) ↦
          let same : find_or_create_candidate_or_throw p user_id d ≡ (ok c', d) = ground arith in
          let own : c' ≡ c = ground arith in
          (
            u,
            e,
            IsCandidateOf-same u d d _ c (find_or_create-found u d c (f ∙ ap some own))
                (ap (λ r. r.1.candidates) same),
          )
    ]
  ]

  -- No live application stands for the pair.
  pub ensure_no_duplicate-ok :
      (j c : String) (d : Db)
      → (ensure_no_duplicate_application p j c d).0 ≡ ok tt
      → (id : String) (b : Application) → lookup id d.applications ≡ some b
      → b.deleted_at ≡ none
      → b.job_id ≡ j
      → b.candidate_id ≢ c
  unfolding ensure_no_duplicate_application
  ensure_no_duplicate-ok j c d h id b e live same_job same_candidate =
      laws.first_application_complete (live_pair j c) d id b e
        (record {
          live = live;
          job_created_by = tt;
          candidate = same_candidate;
          job = same_job;
          stage = tt;
          status = tt;
        })
        (ground (arith, h))

  -- What an application that `create` answers with satisfies, from the database `d` before.
  pub record IsAdmitted (user_id : String) (dto : CreateApplicationDto) (d d' : Db)
      (a : Application) : Type 0 where
    pub job : IsOpenJob dto.job_id d
    pub candidate :
        (u : User) × (c : Candidate) × (lookup user_id d.users ≡ some u)
        × IsCandidateOf u d d' c
        × (a.candidate_id ≡ c.id)
    pub row : (now : ℕ) × (a ≡ application_of a.id now (new_application dto a.candidate_id))
    pub only :
        (id : String) (b : Application)
        → lookup id d.applications ≡ some b
        → b.deleted_at ≡ none
        → b.job_id ≡ dto.job_id
        → b.candidate_id ≢ a.candidate_id
    pub fresh : lookup a.id d.applications ≡ none
    pub stored : d'.applications ≡ insert a.id a d.applications
    pub users : d'.users ≡ d.users
    pub jobs : d'.jobs ≡ d.jobs

  IsAdmitted-of_steps :
      (user_id : String) (dto : CreateApplicationDto) (d d1 d' : Db) (u : User) (c : Candidate)
      (a : Application) (now : ℕ)
      → IsOpenJob dto.job_id d
      → lookup user_id d.users ≡ some u
      → IsCandidateOf u d d1 c
      → KeepsAllButCandidates d d1
      → (ensure_no_duplicate_application p dto.job_id c.id d1).0 ≡ ok tt
      → a ≡ application_of a.id now (new_application dto c.id)
      → lookup a.id d1.applications ≡ none
      → d' ≡ record d1 { applications = insert a.id a d1.applications }
      → IsAdmitted user_id dto d d' a
  IsAdmitted-of_steps user_id dto d d1 d' u c a now opened known mail kept unique row fresh after =
      let same : a.candidate_id ≡ c.id = ap (λ b. b.candidate_id) row in
      record {
        job = opened;
        candidate =
            (u, c, known, IsCandidateOf-same u d d1 d' c mail (ap (λ e. e.candidates) after), same);
        row = (now, rw (← same) at row);
        only = λ id b e live job other.
            ensure_no_duplicate-ok dto.job_id c.id d1 unique id b (cc kept.applications) live job
              (other ∙ same);
        fresh = rw (← kept.applications) fresh;
        stored = cc kept.applications;
        users = cc kept.users;
        jobs = cc kept.jobs;
      }

  -- An application that `create` answers with is for an open job that is not deleted, of a candidate
  -- that is stored with the email of the user, who exists, one that was there before or, if none had
  -- that email, a new one with the name of the user; it is new, stored, in stage APPLIED and status SUBMITTED
  -- with the data of the request; no live application of that candidate to that job was there
  -- before; and the users and jobs are as before.
  pub create-IsAdmitted :
      (user_id : String) (dto : CreateApplicationDto) (d : Db) (a : Application)
      → (create p user_id dto d).0 ≡ ok a
      → IsAdmitted user_id dto d (create p user_id dto d).1 a
  unfolding create find_open_job_or_throw ensure_no_duplicate_application
  create-IsAdmitted user_id dto d a h =
      let (j, opened, h1, e1) = bind-ok (find_open_job_or_throw dto.job_id) _ d a h in
      let (c, found, h2, e2) = bind-ok (find_or_create_candidate_or_throw p user_id) _ d a h1 in
      let d1 = (find_or_create_candidate_or_throw p user_id d).1 in
      let (t, unique, h3, e3) =
        bind-ok (ensure_no_duplicate_application p dto.job_id c.id) _ d1 a h2 in
      let (u, known, mail) = find_or_create-ok user_id d c found in
      let (now, row, fresh, after) =
        laws.application.create_ok (new_application dto c.id) d1 a h3 in
      IsAdmitted-of_steps user_id dto d d1 _ u c a now
        (find_open_job_or_throw-ok dto.job_id d j opened) known mail
        (find_or_create-keeps user_id d) unique row fresh (ap (λ r. r.1) (e1 ∙ e2 ∙ e3) ∙ after)
