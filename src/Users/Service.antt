-- ===== src/Users/Service.antt =====
-- users/users.service.ts. `now` is what `new Date()` returned.
use Prim.Native.String
use talent_flow_ai_backend.Prelude.{
  ℕ, String, Option, none, some, true, not, ◌&&◌, ◌==◌, lookup, is_some, or_else, if◌then◌else◌,
  map,
}
use talent_flow_ai_backend.Model.{User, Role, Db}
use talent_flow_ai_backend.Async.{
  Async, Result, ok, err, Exception, not_found, forbidden, pure, throw, ◌>>=◌, ◌>>◌,
}
use talent_flow_ai_backend.Dto.{replaced, when_truthy}
use talent_flow_ai_backend.Pagination.{PaginatedResult, meta_of, skip_of}
use talent_flow_ai_backend.Prisma.{PrismaClient}
use talent_flow_ai_backend.Prisma.Where.{UserWhere, OrderBy, SortOrder, desc}
use talent_flow_ai_backend.Applications.Service.{is_admin}

pub record QueryUsersDto : Type 0 where
  pub page : Option ℕ
  pub limit : Option ℕ
  pub search : Option String
  pub role : Option Role
  pub sort_by : Option String
  pub sort_order : Option SortOrder

-- `Omit<User, 'password'>`
pub record SafeUser : Type 0 where
  pub id : String
  pub email : String
  pub full_name : String
  pub role : Role
  pub deleted_at : Option ℕ

-- The `select` of the reads and updates.
abbrev pub safe : User → SafeUser
safe u = record {
  id = u.id;
  email = u.email;
  full_name = u.full_name;
  role = u.role;
  deleted_at = u.deleted_at;
}

abbrev pub user_not_found : String → Exception
user_not_found id = not_found (String.◌++◌ "User with ID \"" (String.◌++◌ id "\" not found"))

-- `findUnique({ where: { id, deletedAt: null } })`, and the test on what it gives
unfoldable pub live_user : String → Option User → Result User
live_user id none = err (user_not_found id)
live_user id (some u) = if is_some u.deleted_at then err (user_not_found id) else ok u

unfoldable pub find_live : String → Async Db User
unfolding live_user
find_live id d = (live_user id (lookup id d.users), d)

-- `findById`
abbrev pub find_by_id : String → Db → Option User
find_by_id id d = lookup id d.users

abbrev pub renamed : Option String → User → User
renamed full_name u = record u { full_name = replaced full_name u.full_name }

abbrev pub with_role : Role → User → User
with_role role u = record u { role = role }

abbrev pub deleted_at_time : ℕ → User → User
deleted_at_time now u = record u { deleted_at = some now }

-- `data: Partial<{ fullName: string; role: Role }>`
abbrev pub patched : (full_name : Option String) (role : Option Role) → User → User
patched full_name role u = record u {
  full_name = replaced full_name u.full_name;
  role = replaced role u.role;
}

-- `findOneProfile`
unfoldable pub find_one_profile : String → Async Db SafeUser
find_one_profile id = do user ← find_live id; pure (safe user)

abbrev pub order_of : QueryUsersDto → OrderBy
order_of query = record {
  sort_by = or_else query.sort_by "createdAt";
  sort_order = or_else query.sort_order desc;
}

unfoldable pub where_of : QueryUsersDto → UserWhere
where_of query = record { live = true; search = when_truthy query.search; role = query.role }

module _ (p : PrismaClient) where
  -- `create`
  unfoldable pub create : (email password full_name : String) → Role → Async Db User
  create email password full_name role =
      p.user.create
        (record { email = email; password = password; full_name = full_name; role = role })

  -- `findByEmail`
  abbrev pub find_by_email : String → Db → Option User
  find_by_email email d = p.user_by_email email d

  -- `findAll`
  unfoldable pub find_all : QueryUsersDto → Async Db (PaginatedResult SafeUser)
  find_all query d =
      let page = or_else query.page 1 in
      let limit = or_else query.limit 10 in
      let w = where_of query in
      (
        ok (record {
          rows = map safe (p.user.find_many w (order_of query) (skip_of page limit) limit d);
          meta = meta_of (p.user.count w d) page limit;
        }),
        d,
      )

  -- `update`
  unfoldable pub update : String → (full_name : Option String) (role : Option Role) → Async Db User
  update id full_name role = p.user.update id (patched full_name role)

  -- `updateProfile`
  unfoldable pub update_profile :
      (target_id requester_id requester_role : String) (full_name : Option String)
      → Async Db SafeUser
  update_profile target_id requester_id requester_role full_name =
      if not (target_id == requester_id) && not (is_admin requester_role)
      then throw (forbidden "You can only update your own profile")
      else (do
        existing ← find_live target_id
        user ← p.user.update target_id (renamed full_name)
        pure (safe user))

  -- `updateRole`
  unfoldable pub update_role : String → Role → Async Db SafeUser
  update_role target_id new_role = do
    existing ← find_live target_id
    user ← p.user.update target_id (with_role new_role)
    pure (safe user)

  -- `softDelete`
  unfoldable pub soft_delete : ℕ → String → Async Db User
  soft_delete now id = p.user.update id (deleted_at_time now)

  -- `softDeleteUser`
  unfoldable pub soft_delete_user : ℕ → String → Async Db Unit
  soft_delete_user now target_id = do
    existing ← find_live target_id
    p.user.update target_id (deleted_at_time now)
    pure tt
