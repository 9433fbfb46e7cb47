-- ===== src/Users/Profile.antt =====
-- `updateProfile` and `updateRole`: who may change an account, and what changes.
use talent_flow_ai_backend.Prelude.{
  String, Option, none, some, not, ◌&&◌, ◌≡◌, ◌⊎◌, inl, inr, refl, arith, eq_iff, ◌==◌, lookup,
  insert, Bool-cases,
}
use talent_flow_ai_backend.Dto.{replaced}
use talent_flow_ai_backend.Model.{User, Role, Db}
use talent_flow_ai_backend.Async.{Async, ok, bind-ok, pure, ◌>>=◌, Result-cases}
use talent_flow_ai_backend.Prisma.{PrismaClient}
use talent_flow_ai_backend.Prisma.Laws.{PrismaLaws, users}
use talent_flow_ai_backend.Prisma.Updates.{update-known}
use talent_flow_ai_backend.Applications.Service.{is_admin}
use talent_flow_ai_backend.Users.Service.{
  SafeUser, safe, find_live, renamed, with_role, update_profile, update_role,
}

pub find_live-ok :
    (id : String) (d : Db) (u : User)
    → (find_live id d).0 ≡ ok u
    → (lookup id d.users ≡ some u) × (u.deleted_at ≡ none)
unfolding find_live
find_live-ok id d u h = ground arith

pub find_live-state : (id : String) (d : Db) → (find_live id d).1 ≡ d
unfolding find_live
find_live-state id d = refl

-- A live account under `id` was rewritten by `change`, and nothing else changed.
abbrev pub IsRewritten : String → (User → User) → (d d' : Db) → User → Type 0
IsRewritten id change d d' old =
    (lookup id d.users ≡ some old)
    × (old.deleted_at ≡ none)
    × (d' ≡ record d { users = insert id (change old) d.users })

-- `find_live`, then an update, then an answer made of the row.
abbrev pub rewrite : PrismaClient → {A : Type 0} → String → (User → User) → (User → A) → Async Db A
rewrite p id change answer = do
  existing ← find_live id
  user ← p.user.update id change
  pure (answer user)

module _ (p : PrismaClient) (laws : PrismaLaws p) where
  pub rewrite-ok :
      {A : Type 0} (id : String) (change : User → User) (answer : User → A) (d : Db) (a : A)
      → (rewrite p id change answer d).0 ≡ ok a
      → (old : User) × (a ≡ answer (change old))
        × IsRewritten id change d (rewrite p id change answer d).1 old
  rewrite-ok id change answer d a h =
      let (old, found, h1, e1) = bind-ok (find_live id) _ d a h in
      let (there, live) = find_live-ok id d old found in
      let same = find_live-state id d in
      elim (Result-cases (p.user.update id change d).0) [
        | inl (u, done) ↦
            let (new, after) = update-known users _ p.user laws.user id change d old u there done in
            (old, ground arith, (there, live, ground arith))
        | inr (e, failed) ↦ absurd (ground arith)
      ]

  -- A profile update that is answered was asked by the user of that account or by an administrator,
  -- of an account that is not deleted; only the full name changes, to the one sent if one was sent;
  -- the answer is the row without its password.
  pub update_profile-IsRewritten :
      (target_id requester_id requester_role : String) (full_name : Option String) (d : Db)
      (a : SafeUser)
      → (update_profile p target_id requester_id requester_role full_name d).0 ≡ ok a
      → ((target_id ≡ requester_id) ⊎ (requester_role ≡ "ADMIN"))
        × ((old : User) × (a ≡ safe (record old { full_name = replaced full_name old.full_name }))
            × IsRewritten target_id
                (renamed full_name)
                d
                (update_profile p target_id requester_id requester_role full_name d).1
                old)
  unfolding update_profile
  update_profile-IsRewritten target_id requester_id requester_role full_name d a h =
      elim (Bool-cases (not (target_id == requester_id) && not (is_admin requester_role))) [
        | inl y ↦ absurd (ground arith)
        | inr n ↦
            let may : (target_id ≡ requester_id) ⊎ (requester_role ≡ "ADMIN") =
              elim (Bool-cases (target_id == requester_id)) [
                | inl y ↦ inl ((eq_iff target_id requester_id).0 y)
                | inr m ↦ inr ((eq_iff requester_role "ADMIN").0 (ground arith))
              ] in
            rw n (may, rewrite-ok target_id (renamed full_name) safe d a (rw n at h))
      ]

  -- A change of role that is answered was of an account that is not deleted: its role is the new
  -- one, nothing else changes, and the answer is the row without its password.
  pub update_role-IsRewritten :
      (target_id : String) (role : Role) (d : Db) (a : SafeUser)
      → (update_role p target_id role d).0 ≡ ok a
      → (old : User) × (a ≡ safe (record old { role = role }))
        × IsRewritten target_id (with_role role) d (update_role p target_id role d).1 old
  unfolding update_role
  update_role-IsRewritten target_id role d a h = rewrite-ok target_id (with_role role) safe d a h
