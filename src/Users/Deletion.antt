-- ===== src/Users/Deletion.antt =====
-- `softDeleteUser`, `create` and `findAll`: an account that is deleted, and those that are listed.
use talent_flow_ai_backend.Prelude.{
  ℕ, String, none, some, ◌≡◌, ◌≤◌, refl, arith, eq_refl, lookup, insert, lookup-insert, or_else,
  All, All-map, length, map, List, [], ◌∷◌, suc, ap,
}
use talent_flow_ai_backend.Model.{User, Role, Db}
use talent_flow_ai_backend.Async.{ok, err}
use talent_flow_ai_backend.Pagination.{PaginatedResult, skip_of}
use talent_flow_ai_backend.Prisma.{PrismaClient}
use talent_flow_ai_backend.Prisma.Laws.{PrismaLaws, Reads}
use talent_flow_ai_backend.Prisma.Where.{SatisfiesUser, OrderBy}
use talent_flow_ai_backend.Users.Service.{
  SafeUser, QueryUsersDto, safe, user_not_found, find_live, deleted_at_time, soft_delete_user,
  find_one_profile, update_role, find_all, where_of, order_of,
}
use talent_flow_ai_backend.Users.Profile.{IsRewritten, rewrite-ok}

find_live-deleted :
    (id : String) (d : Db) (u : User) (t : ℕ)
    → lookup id d.users ≡ some u
    → u.deleted_at ≡ some t
    → find_live id d ≡ (err (user_not_found id), d)
unfolding find_live
find_live-deleted id d u t there gone = ground arith

module _ (p : PrismaClient) (laws : PrismaLaws p) where
  -- A deletion that is answered was of a live account, whose row stays, deleted at `now`, with
  -- nothing else changed; from then on its profile, a change of its role and one more deletion all
  -- answer 404.
  pub soft_delete_user-IsRewritten :
      (now : ℕ) (id : String) (role : Role) (later : ℕ) (d : Db)
      → (soft_delete_user p now id d).0 ≡ ok tt
      → let d' = (soft_delete_user p now id d).1 in
        ((old : User) × IsRewritten id (deleted_at_time now) d d' old)
        × ((find_one_profile id d').0 ≡ err (user_not_found id))
        × ((update_role p id role d').0 ≡ err (user_not_found id))
        × ((soft_delete_user p later id d').0 ≡ err (user_not_found id))
  unfolding soft_delete_user find_one_profile update_role
  soft_delete_user-IsRewritten now id role later d h =
      let (old, same, (there, live, after)) =
        rewrite-ok p laws id (deleted_at_time now) (λ u. tt) d tt h in
      let d' = record d { users = insert id (deleted_at_time now old) d.users } in
      let at : lookup id d'.users ≡ some (deleted_at_time now old) =
        simp (lookup-insert, eq_refl) in
      let gone = find_live-deleted id d' (deleted_at_time now old) now at refl in
      (
        (old, (there, live, after)),
        rw (after, gone) refl,
        rw (after, gone) refl,
        rw (after, gone) refl,
      )

-- What `findAll` promises of an account that it lists.
pub record IsListedUser (query : QueryUsersDto) (u : SafeUser) : Type 0 where
  pub live : u.deleted_at ≡ none
  pub role : (r : Role) → query.role ≡ some r → u.role ≡ r

All-safe :
    (query : QueryUsersDto) (us : List User)
    → All (λ u. IsListedUser query (safe u)) us
    → All (IsListedUser query) (map safe us)
All-safe query [] h = tt
All-safe query (u ∷ us) (x, h) = (x, All-safe query us h)

length-map : {A B : Type 0} (f : A → B) (xs : List A) → length (map f xs) ≡ length xs
length-map f [] = refl
length-map f (x ∷ xs) = ap suc (length-map f xs)

-- Of the accounts that `findAll` lists none is deleted, and each has the role asked for; there are at
-- most `limit` of them (10 if it is not given).
pub find_all-IsListedUser :
    (p : PrismaClient)
    → Reads SatisfiesUser p.user
    → (query : QueryUsersDto) (d : Db) (r : PaginatedResult SafeUser)
    → find_all p query d ≡ (ok r, d)
    → All (IsListedUser query) r.rows × (length r.rows ≤ or_else query.limit 10)
unfolding find_all where_of
find_all-IsListedUser p reads query d r h =
    let w = where_of query in
    let o : OrderBy = order_of query in
    let limit = or_else query.limit 10 in
    let skip = skip_of (or_else query.page 1) limit in
    let us = p.user.find_many w o skip limit d in
    let same : r.rows ≡ map safe us = ground arith in
    let most = reads.find_many_limit w o skip limit d in
    (
      rw same (
          All-safe query us (
            All-map us (λ u s. record { live = s.live; role = λ t e. rw e at s.role })
              (reads.find_many_holds w o skip limit d))),
      rw (same, length-map safe us) most,
    )
