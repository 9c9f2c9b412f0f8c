-- ===== src/Api/Endpoints/Users.antt =====
-- The endpoints of registerUserRoutes answer signed-in users only.
use uber_clone.Common.{
  ℕ, ◌≡◌, refl, none, Option-cases, Result-cases, inl, inr, ok, >>=-eq-ok, arith,
}
use uber_clone.Store.{Db}
use uber_clone.Users.{
  driver, Capability, ExternalIdentity, User, create_with_default_rider, enable_capability,
}
use uber_clone.Http.{Request, write_json, serve}
use uber_clone.Http.Access.{
  Provider, authenticate, user_response, me, enable_driver_capability, middleware,
}
use uber_clone.Http.Careful.{Frame-refl, answer-IsCareful}
use uber_clone.Http.Allowed.{Guarded, signed_in-Guarded}
use uber_clone.Api.Endpoints.{UserEndpoint, get_me, put_capability, user_handler}

-- One who has enabled a capability has an account.
enable-created :
    (now fresh : ℕ) (p : ExternalIdentity) (k : Capability) (db : Db) {u : User} {db' : Db}
    → enable_capability now fresh p k db ≡ ok (u, db')
    → (v : User) × (d : Db) × (create_with_default_rider now fresh p db ≡ ok (v, d))
unfolding enable_capability
enable-created now fresh p k db h =
    let (a, e, rest) = >>=-eq-ok (create_with_default_rider now fresh p db) _ h in (a.0, a.1, e)

pub user-Guarded :
    (provider : Provider) (e : UserEndpoint) (r : Request) (db : Db)
    → Guarded provider none r db (serve (middleware provider (user_handler e) r) db)
unfolding user_handler me enable_driver_capability middleware
user-Guarded provider get_me r db =
    signed_in-Guarded provider _
      (λ r u. answer-IsCareful (write_json 200 (user_response u)) (omega arith)) r db
user-Guarded provider put_capability r db = elim (Option-cases (authenticate provider r)) [
  | inl e ↦ rw e (inl (omega arith, Frame-refl db))
  | inr (p, e) ↦ elim (Result-cases (enable_capability r.now r.fresh p driver db)) [
    | inr (x, c) ↦ rw (e, c) (inl (omega arith, Frame-refl db))
    | inl (a, c) ↦
        let (v, d, created) = enable-created r.now r.fresh p driver db c in
        rw (e, c) (inr (omega arith, (p, v, d, refl, created, refl)))
  ]
]
