-- ===== src/Http/Allowed.antt =====
-- Who a handler lets through: the middleware, the user of the identity, and the capability.
use uber_clone.Common.{
  ℕ, ◌<◌, ◌≤◌, ◌≡◌, ◌⊎◌, refl, sym, ap, map, subst, inl, inr, true, Bool, Option, none, some,
  Result, ok, err, arith, Option-cases, Bool-cases, Result-cases,
}
use uber_clone.Store.{Db}
use uber_clone.Driver.Presence.Frame.{at_rest}
use uber_clone.Users.{
  Capability, rider, driver, ExternalIdentity, User, holds, create_with_default_rider,
}
use uber_clone.Users.Signed.{create-IsSignedIn}
use uber_clone.Http.{Response, Request, Handler, ◌>>=◌, serve, written}
use uber_clone.Http.Access.{
  Provider, authenticate, with_principal, middleware, current_user, missing, require_capability,
}
use uber_clone.Http.Careful.{SameTables, Frame, Frame-refl, Frame-trans, Finishes, IsCareful}

-- Whether a user has the capability; `none` asks for none.
abbrev pub may : Option Capability → User → Bool
may none u = true
may (some k) u = holds k u

-- The request's token is accepted by the identity provider, and the user of its identity has the
-- capability.
abbrev pub Allowed : Provider → Option Capability → Request → Db → Type 0
Allowed provider k r db =
    (p : ExternalIdentity) × (u : User) × (db' : Db) × (authenticate provider r ≡ some p)
    × (create_with_default_rider r.now r.fresh p db ≡ ok (u, db'))
    × (may k u ≡ true)

-- A refusal that left everything but accounts and presence as it was, or an answer to one who is
-- allowed to ask.
abbrev pub Guarded : Provider → Option Capability → Request → Db → Response × Db → Type 0
Guarded provider k r db x =
    (299 < x.0.status) × Frame db x.1 ⊎ (x.0.status ≤ 299) × Allowed provider k r db

created-Frame :
    (now fresh : ℕ) (p : ExternalIdentity) (db : Db) {u : User} {db' : Db}
    → create_with_default_rider now fresh p db ≡ ok (u, db')
    → Frame db db'
created-Frame now fresh p db {db'} h = framed db db' (create-IsSignedIn now fresh p db h).frame
  where
    tables :
        (db db' : Db)
        → db' ≡ record db { users = db'.users; identities = db'.identities; riders = db'.riders }
        → SameTables db db'
    tables db db' e = ground arith

    framed :
        (db db' : Db)
        → db' ≡ record db { users = db'.users; identities = db'.identities; riders = db'.riders }
        → Frame db db'
    framed db db' e = (tables db db' e, ap (λ d. map at_rest d.profiles) e)

missing_status : (k : Capability) → 299 < (missing k).status
missing_status rider = omega arith
missing_status driver = omega arith

finished :
    (provider : Provider) (k : Option Capability) (r : Request) (db db₁ : Db)
    (x : Result Response Response × Db)
    → Frame db db₁
    → Finishes db₁ x
    → Allowed provider k r db
    → Guarded provider k r db (written x.0, x.1)
finished provider k r db db₁ (ok a, db') f h allowed = inr (h, allowed)
finished provider k r db db₁ (err e, db') f h allowed = inl (h.0, Frame-trans db db₁ db' f h.1)

module _ (provider : Provider) (body : Request → User → Handler Response)
    (careful : (r : Request) (u : User) → IsCareful (body r u)) where
  pub middleware-Guarded :
      (k : Capability) (r : Request) (db : Db)
      → Guarded provider
          (some k)
          r
          db
          (serve (middleware provider (λ r. require_capability k r >>= body r) r) db)
  unfolding middleware require_capability current_user
  middleware-Guarded k r db = elim (Option-cases (authenticate provider r)) [
    | inl e ↦ rw e (inl (omega arith, Frame-refl db))
    | inr (p, e) ↦ elim (Result-cases (create_with_default_rider r.now r.fresh p db)) [
      | inr (x, c) ↦ rw (e, c) (inl (omega arith, Frame-refl db))
      | inl (a, c) ↦ elim (Bool-cases (holds k a.0)) [
        | inr h ↦ rw (e, c, h) (inl (missing_status k, created-Frame r.now r.fresh p db c))
        | inl h ↦
            let y = body (with_principal p r) a.0 a.1 in
            let run : serve (middleware provider (λ r. require_capability k r >>= body r) r) db
                ≡ (written y.0, y.1) =
              rw (e, c, h) refl in
            subst (λ x. Guarded provider (some k) r db x) (sym run)
              (finished provider (some k) r db a.1 y (created-Frame r.now r.fresh p db c)
                ((careful (with_principal p r) a.0).finishes a.1) (p, a.0, a.1, e, c, h))
      ]
    ]
  ]

  -- The same for a handler that asks for no capability.
  pub signed_in-Guarded :
      (r : Request) (db : Db)
      → Guarded provider none r db
          (serve (middleware provider (λ r. current_user r >>= body r) r) db)
  unfolding middleware current_user
  signed_in-Guarded r db = elim (Option-cases (authenticate provider r)) [
    | inl e ↦ rw e (inl (omega arith, Frame-refl db))
    | inr (p, e) ↦ elim (Result-cases (create_with_default_rider r.now r.fresh p db)) [
      | inr (x, c) ↦ rw (e, c) (inl (omega arith, Frame-refl db))
      | inl (a, c) ↦
          let y = body (with_principal p r) a.0 a.1 in
          let run : serve (middleware provider (λ r. current_user r >>= body r) r) db
              ≡ (written y.0, y.1) =
            rw (e, c) refl in
          subst (λ x. Guarded provider none r db x) (sym run)
            (finished provider none r db a.1 y (created-Frame r.now r.fresh p db c)
              ((careful (with_principal p r) a.0).finishes a.1) (p, a.0, a.1, e, c, refl))
    ]
  ]
