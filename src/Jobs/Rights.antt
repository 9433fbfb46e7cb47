-- ===== src/Jobs/Rights.antt =====
-- `findOne`, `update` and `remove`: who may change a job, and what changes.
use talent_flow_ai_backend.Prelude.{
  ℕ, String, none, some, false, ◌≡◌, ◌↔◌, ◌⊎◌, inl, inr, refl, arith, eq_iff, eq_refl, ◌==◌, lookup,
  insert, lookup-insert, Bool-cases, ap, sym, ◌∙◌,
}
use talent_flow_ai_backend.Model.{Job, Db}
use talent_flow_ai_backend.Async.{ok, err, bind-ok, Result-cases}
use talent_flow_ai_backend.Prisma.{PrismaClient}
use talent_flow_ai_backend.Prisma.Laws.{PrismaLaws, jobs}
use talent_flow_ai_backend.Prisma.Updates.{update-known}
use talent_flow_ai_backend.Applications.Service.{job_not_found, find_open_job_or_throw}
use talent_flow_ai_backend.Jobs.Dto.{UpdateJobDto}
use talent_flow_ai_backend.Jobs.Service.{find_one, updated, removed_at, is_denied, update, remove}

abbrev pub IsOwnerOrAdmin : (user_id user_role : String) → Job → Type 0
IsOwnerOrAdmin user_id user_role j = (j.created_by_id ≡ user_id) ⊎ (user_role ≡ "ADMIN")

pub is_denied_iff :
    (user_id user_role : String) (j : Job)
    → (is_denied user_id user_role j ≡ false) ↔ IsOwnerOrAdmin user_id user_role j
unfolding is_denied
is_denied_iff user_id user_role j = (
  λ h. elim (Bool-cases (j.created_by_id == user_id)) [
    | inl y ↦ inl ((eq_iff j.created_by_id user_id).0 y)
    | inr n ↦ inr ((eq_iff user_role "ADMIN").0 (ground arith))
  ],
  λ s. elim s [
    | inl y ↦ rw ((eq_iff j.created_by_id user_id).1 y)
    | inr y ↦ ground (arith, eq_iff user_role "ADMIN")
  ],
)

find_one-ok :
    (id : String) (d : Db) (j : Job)
    → (find_one id d).0 ≡ ok j
    → (lookup id d.jobs ≡ some j) × (j.deleted_at ≡ none)
unfolding find_one
find_one-ok id d j h = ground arith

find_one-state : (id : String) (d : Db) → (find_one id d).1 ≡ d
unfolding find_one
find_one-state id d = refl

-- A deleted job is found by nobody, and no application to it is accepted.
deleted_is_gone :
    (id : String) (d : Db) (j : Job) (t : ℕ)
    → lookup id d.jobs ≡ some j
    → j.deleted_at ≡ some t
    → ((find_one id d).0 ≡ err (job_not_found id))
      × ((find_open_job_or_throw id d).0 ≡ err (job_not_found id))
unfolding find_one find_open_job_or_throw
deleted_is_gone id d j t there gone = (ground arith, ground arith)

-- What a write to the job under `id` did: `old` became `new`, and nothing else changed.
pub record IsJobWrite (id user_id user_role : String) (d d' : Db) (old new : Job) : Type 0 where
  pub there : lookup id d.jobs ≡ some old
  pub live : old.deleted_at ≡ none
  pub rights : IsOwnerOrAdmin user_id user_role old
  pub after : d' ≡ record d { jobs = insert id new d.jobs }

-- What no update changes.
pub record HasSameOwner (old new : Job) : Type 0 where
  pub id : new.id ≡ old.id
  pub created_by_id : new.created_by_id ≡ old.created_by_id
  pub deleted_at : new.deleted_at ≡ old.deleted_at

updated-HasSameOwner : (dto : UpdateJobDto) (j : Job) → HasSameOwner j (updated dto j)
unfolding updated
updated-HasSameOwner dto j = record { id = refl; created_by_id = refl; deleted_at = refl }

module _ (p : PrismaClient) (laws : PrismaLaws p) where
  write-IsJobWrite :
      (id user_id user_role : String) (change : Job → Job) (d : Db) (old j : Job)
      → (find_one id d).0 ≡ ok old
      → is_denied user_id user_role old ≡ false
      → (p.job.update id change d).0 ≡ ok j
      → (j ≡ change old)
        × IsJobWrite id user_id user_role d (p.job.update id change d).1 old (change old)
  write-IsJobWrite id user_id user_role change d old j found may done =
      let (there, live) = find_one-ok id d old found in
      let (new, after) = update-known jobs _ p.job laws.job id change d old j there done in
      (
        new,
        record {
          there = there;
          live = live;
          rights = (is_denied_iff user_id user_role old).0 may;
          after = after;
        },
      )

  update_steps :
      (id user_id user_role : String) (dto : UpdateJobDto) (d : Db) (j : Job)
      → (update p id user_id user_role dto d).0 ≡ ok j
      → (old : Job) × ((find_one id d).0 ≡ ok old)
        × (is_denied user_id user_role old ≡ false)
        × (update p id user_id user_role dto d ≡ p.job.update id (updated dto) d)
  unfolding update
  update_steps id user_id user_role dto d j h =
      let (old, found, h1, e1) = bind-ok (find_one id) _ d j h in
      let same = find_one-state id d in (old, found, ground arith, ground arith)

  -- An update that is answered was asked by the user who made the job or by an administrator, of a
  -- job that is not deleted; the row is the answer, with the same id, owner and time of deletion,
  -- and no other row and no other table changes.
  pub update-IsJobWrite :
      (id user_id user_role : String) (dto : UpdateJobDto) (d : Db) (j : Job)
      → (update p id user_id user_role dto d).0 ≡ ok j
      → (old : Job) × IsJobWrite id user_id user_role d
          (update p id user_id user_role dto d).1
          old
          j
        × HasSameOwner old j
  update-IsJobWrite id user_id user_role dto d j h =
      let (old, found, may, same) = update_steps id user_id user_role dto d j h in
      let done : (p.job.update id (updated dto) d).0 ≡ ok j = sym (ap (λ r. r.0) same) ∙ h in
      let (new, write) =
        write-IsJobWrite id user_id user_role (updated dto) d old j found may done in
      rw (same, new) (old, write, updated-HasSameOwner dto old)

  remove_steps :
      (now : ℕ) (id user_id user_role : String) (d : Db)
      → (remove p now id user_id user_role d).0 ≡ ok tt
      → (old : Job) × ((find_one id d).0 ≡ ok old)
        × (is_denied user_id user_role old ≡ false)
        × ((j : Job) × ((p.job.update id (removed_at now) d).0 ≡ ok j)
            × ((remove p now id user_id user_role d).1 ≡ (p.job.update id (removed_at now) d).1))
  unfolding remove
  remove_steps now id user_id user_role d h =
      let (old, found, h1, e1) = bind-ok (find_one id) _ d tt h in
      let same = find_one-state id d in
      elim (Bool-cases (is_denied user_id user_role old)) [
        | inl y ↦ absurd (ground arith)
        | inr n ↦ elim (Result-cases (p.job.update id (removed_at now) d).0) [
          | inl (j, done) ↦ (old, found, n, (j, done, ground arith))
          | inr (e, failed) ↦ absurd (ground arith)
        ]
      ]

  -- A removal that is answered was asked by the user who made the job or by an administrator; the
  -- row stays, deleted at `now`, and nothing else changes. From then on `findOne` answers 404, and
  -- so does an attempt to apply.
  pub remove-IsJobWrite :
      (now : ℕ) (id user_id user_role : String) (d : Db)
      → (remove p now id user_id user_role d).0 ≡ ok tt
      → ((old : Job) × IsJobWrite id user_id user_role d
            (remove p now id user_id user_role d).1
            old
            (record old { deleted_at = some now }))
        × ((find_one id (remove p now id user_id user_role d).1).0 ≡ err (job_not_found id))
        × ((find_open_job_or_throw id (remove p now id user_id user_role d).1).0
            ≡ err (job_not_found id))
  unfolding removed_at
  remove-IsJobWrite now id user_id user_role d h =
      let (old, found, may, (j, done, same)) = remove_steps now id user_id user_role d h in
      let (new, write) =
        write-IsJobWrite id user_id user_role (removed_at now) d old j found may done in
      let there : lookup id (insert id (record old { deleted_at = some now }) d.jobs)
          ≡ some (record old { deleted_at = some now }) =
        simp (lookup-insert, eq_refl) in
      let gone =
        deleted_is_gone id
          (record d { jobs = insert id (record old { deleted_at = some now }) d.jobs })
          (record old { deleted_at = some now }) now there refl in
      rw same ((old, write), rw write.after gone.0, rw write.after gone.1)
