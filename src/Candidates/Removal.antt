-- ===== src/Candidates/Removal.antt =====
-- `update` and `remove` of a candidate, and what a removal takes along.
use talent_flow_ai_backend.Prelude.{
  String, none, some, ◌≡◌, ◌≢◌, inl, inr, refl, arith, eq_refl, lookup, insert, without,
  lookup-without, ap, ◌∙◌, sym, Option, Option-cases,
}
use talent_flow_ai_backend.Model.{Candidate, Application, Db}
use talent_flow_ai_backend.Async.{ok, err, Result-cases}
use talent_flow_ai_backend.Prisma.{PrismaClient}
use talent_flow_ai_backend.Prisma.Laws.{PrismaLaws, candidates}
use talent_flow_ai_backend.Prisma.Updates.{update-known}
use talent_flow_ai_backend.Applications.Service as Applications
use talent_flow_ai_backend.Applications.Service.{application_not_found}
use talent_flow_ai_backend.Candidates.Service.{
  UpdateCandidateDto, candidate_not_found, find_one, updated, update, remove,
}

find_one-cases :
    (id : String) (d : Db) (c : Candidate)
    → (find_one id d).0 ≡ ok c
    → lookup id d.candidates ≡ some c
unfolding find_one
find_one-cases id d c h = ground arith

find_one-state : (id : String) (d : Db) → (find_one id d).1 ≡ d
unfolding find_one
find_one-state id d = refl

find_one-missing :
    (id : String) (d : Db)
    → lookup id d.candidates ≡ none
    → (find_one id d).0 ≡ err (candidate_not_found id)
unfolding find_one
find_one-missing id d e = rw e refl

-- What the removal of the candidate under `id` did.
pub record IsRemoval (p : PrismaClient) (id : String) (d d' : Db) : Type 0 where
  pub there : lookup id d.candidates ≢ none
  pub candidates : d'.candidates ≡ without id d.candidates
  pub applications :
      (i : String) (a : Application)
      → lookup i d'.applications ≡ some a
      → (lookup i d.applications ≡ some a) × (a.candidate_id ≢ id)
  pub others :
      (i : String) (a : Application)
      → lookup i d.applications ≡ some a
      → a.candidate_id ≢ id
      → lookup i d'.applications ≡ some a
  pub users : d'.users ≡ d.users
  pub jobs : d'.jobs ≡ d.jobs
  -- its applications are gone for everyone
  pub cascade :
      (i user_id user_role : String) (a : Application)
      → lookup i d.applications ≡ some a
      → a.candidate_id ≡ id
      → (Applications.find_one p i user_id user_role d').0 ≡ err (application_not_found i)
  pub gone : (find_one id d').0 ≡ err (candidate_not_found id)

-- The candidate of an application that is there
candidate_in : Option Application → String → String
candidate_in (some a) id = a.candidate_id
candidate_in none id = id

-- An application that is not stored is found by nobody.
application-missing :
    (p : PrismaClient) (i user_id user_role : String) (d : Db)
    → lookup i d.applications ≡ none
    → (Applications.find_one p i user_id user_role d).0 ≡ err (application_not_found i)
unfolding Applications.find_one
application-missing p i user_id user_role d e = rw e refl

module _ (p : PrismaClient) (laws : PrismaLaws p) where
  remove_steps :
      (id : String) (d : Db)
      → (remove p id d).0 ≡ ok tt
      → (old c : Candidate) × (lookup id d.candidates ≡ some old)
        × ((p.delete_candidate id d).0 ≡ ok c)
        × ((remove p id d).1 ≡ (p.delete_candidate id d).1)
  unfolding remove
  remove_steps id d h =
      let s = find_one-state id d in
      elim (Result-cases (find_one id d).0) [
        | inr (x, e) ↦ absurd (ground arith)
        | inl (old, e) ↦ elim (Result-cases (p.delete_candidate id d).0) [
          | inr (x, f) ↦ absurd (ground arith)
          | inl (c, f) ↦ (old, c, find_one-cases id d old e, f, ground arith)
        ]
      ]

  -- A removal that is answered was of a stored candidate: its row is gone, so that `findOne` answers
  -- 404; the applications that are left are those of other candidates, as they were, and all of
  -- these, and `findOne` of an application of the candidate answers 404 to every user, whatever the
  -- role; the users and jobs are as before.
  pub remove-IsRemoval :
      (id : String) (d : Db) → (remove p id d).0 ≡ ok tt → IsRemoval p id d (remove p id d).1
  unfolding candidate_in
  remove-IsRemoval id d h =
      let (old, c, there, done, same) = remove_steps id d h in
      let (kept, is, after, sound, complete) = laws.delete_candidate_ok id d c done in
      let no_longer : (i : String) (a : Application)
          → lookup i d.applications ≡ some a
          → a.candidate_id ≡ id
          → lookup i kept ≡ none =
        λ i a stored of_it. elim (Option-cases (lookup i kept)) [
          | inl e ↦ e
          | inr (b, e) ↦
              let (was, other) = sound i b e in
              absurd (other (ap (λ o. candidate_in o id) (sym was ∙ stored) ∙ of_it))
        ] in
      let missing : lookup id (without id d.candidates) ≡ none = simp (lookup-without, eq_refl) in
      rw (same, after)
        (record {
          there = λ e. ground arith;
          candidates = refl;
          applications = sound;
          others = complete;
          users = refl;
          jobs = refl;
          cascade = λ i user_id user_role a stored of_it.
              application-missing p i user_id user_role _ (no_longer i a stored of_it);
          gone =
              find_one-missing id
                (record d {
                  candidates = without id d.candidates;
                  applications = kept;
                  interviews = is;
                })
                missing;
        })

  -- An update that is answered was of a stored candidate, whose row is now the answer: the fields
  -- that were sent are written, the id and the email stay, and nothing else changes.
  pub update-keeps-email :
      (id : String) (dto : UpdateCandidateDto) (d : Db) (c : Candidate)
      → (update p id dto d).0 ≡ ok c
      → (old : Candidate) × (lookup id d.candidates ≡ some old)
        × (c ≡ updated dto old)
        × (c.email ≡ old.email)
        × ((update p id dto d).1 ≡ record d { candidates = insert id c d.candidates })
  unfolding update
  update-keeps-email id dto d c h =
      let s = find_one-state id d in
      elim (Result-cases (find_one id d).0) [
        | inr (x, e) ↦ absurd (ground arith)
        | inl (old, e) ↦
            let there = find_one-cases id d old e in
            let done : (p.candidate.update id (updated dto) d).0 ≡ ok c = ground arith in
            let (new, after) =
              update-known candidates _ p.candidate laws.candidate id (updated dto) d old c there
                done in
            (old, there, new, ap (λ k. k.email) new, ground arith)
      ]
