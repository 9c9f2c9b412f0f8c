-- ===== src/Pricing/Publication/Current.antt =====
-- A published policy is the current one, and the versions of a service and currency grow.
use uber_clone.Common.{
  ℕ, ◌≡◌, refl, Bool, true, false, ◌&&◌, some, List, [], ◌∷◌, ◌++◌, ==_refl, arith, All, All-map,
  ok, Bool-cases, Option-cases, inl, inr, if◌then◌else◌,
}
use uber_clone.Common.Int.{ℤ, pos, ◌+ℤ◌, ltb_ℤ, ◌≤ℤ◌}
use uber_clone.Common.Text.{Text, Cases, trim_space, is_empty, text_eq, text_eq_refl}
use uber_clone.Common.Table.{
  find, exists, find-append, find-update_self, find-exists_too, exists-find, find_sound,
}
use uber_clone.Store.{Db, Policy, CurrentPolicy}
use uber_clone.Pricing.Calculate.{Draft, draft_of, validate}
use uber_clone.Pricing.Publication.{
  is_service, is_bookable, points, is_policy, current_id, current_policy, current, lock_service,
  lock_current, max_ℤ, max_version, normalize, new_policy, point_to, store_policy, publish_normal,
  publish,
}

pub current_id-point_to :
    (s c : Text) (id : ℕ) (reviewer : Text) (t : List CurrentPolicy)
    → current_id s c (point_to s c id reviewer t) ≡ some id
unfolding current_id point_to
current_id-point_to s c id reviewer t = elim (Bool-cases (exists (points s c) t)) [
  | inl e ↦
      let (x, f) = exists-find (points s c) t e in
      rw
        (
          e,
          current_id,
          find-update_self (points s c)
              (λ c. record c { current_policy_id = some id; updated_by = reviewer }) t (λ x. refl)
              f,
        )
        refl
  | inr e ↦
      let x : CurrentPolicy = record {
        service_code = s;
        currency = c;
        current_policy_id = some id;
        updated_by = reviewer;
      } in
      rw (e, current_id, find-append (points s c) t (x ∷ []) e, text_eq_refl s, text_eq_refl c) refl
]

pub current_policy-store :
    (p : Policy) (db : Db)
    → exists (is_policy p.id) db.policies ≡ false
    → current_policy p.service_code p.currency (store_policy p db) ≡ ok p
unfolding current_policy store_policy
current_policy-store p db new =
    rw
      (
        current_id-point_to p.service_code p.currency p.id p.published_by db.current_policies,
        find-append (is_policy p.id) db.policies (p ∷ []) new,
        ==_refl p.id,
      )
      refl

-- The versions of the service and currency are at most the largest.
abbrev IsBelow : Text → Text → ℤ → Policy → Type 0
IsBelow s c v p = (text_eq p.service_code s && text_eq p.currency c) ≡ true → p.version ≤ℤ v

raise : (s c : Text) (v w : ℤ) → v ≤ℤ w → (p : Policy) → IsBelow s c v p → IsBelow s c w p
raise s c v w h p below e = omega (arith, below e)

max_ge :
    (same : Bool) (x rest : ℤ)
    → (rest ≤ℤ (if same then max_ℤ x rest else rest))
      × (same ≡ true → x ≤ℤ (if same then max_ℤ x rest else rest))
max_ge true x rest = (ground arith, λ e. ground arith)
max_ge false x rest = (ground arith, λ e. cc)

max_version-IsBelow : (s c : Text) (ps : List Policy) → All (IsBelow s c (max_version s c ps)) ps
unfolding max_version
max_version-IsBelow s c [] = tt
max_version-IsBelow s c (p ∷ ps) =
    let same = text_eq p.service_code s && text_eq p.currency c in
    let m = max_ge same p.version (max_version s c ps) in
    (
      m.1,
      All-map (IsBelow s c (max_version s c ps)) (IsBelow s c (max_version s c (p ∷ ps))) ps
          (raise s c (max_version s c ps) (max_version s c (p ∷ ps)) m.0)
          (max_version-IsBelow s c ps),
    )

-- What a publication of the policy `p` does.
pub record IsPublished (d : Draft) (reviewer : Text) (p : Policy) (db db' : Db) : Type 0 where
  pub valid : validate d ≡ ok tt
  pub draft : draft_of p ≡ d
  pub author : (p.published_by ≡ reviewer) × (is_empty reviewer ≡ false)
  pub history : db'.policies ≡ db.policies ++ p ∷ []
  pub newest :
      All
        (λ q.
          (text_eq q.service_code p.service_code && text_eq q.currency p.currency) ≡ true
          → ltb_ℤ q.version p.version ≡ true)
        db.policies
  pub is_current : current p.service_code p.currency db' ≡ ok p
  pub is_locked : lock_current p.service_code p.currency db' ≡ ok p

publish_normal-inv :
    (id at : ℕ) (d : Draft) (reviewer : Text) (db : Db) {p : Policy} {db' : Db}
    → publish_normal id at d reviewer db ≡ ok (p, db')
    → (validate d ≡ ok tt)
      × (is_empty reviewer ≡ false)
      × (lock_service d.service_code true db ≡ ok tt)
      × (p
          ≡ new_policy id
              (max_version d.service_code d.currency db.policies +ℤ pos 1)
              d
              reviewer
              at)
      × (db' ≡ store_policy p db)
unfolding publish_normal
publish_normal-inv id at d reviewer db h =
    (ground arith, ground arith, ground arith, ground arith, ground arith)

-- A service that may be locked is bookable.
lock_service-bookable :
    (s : Text) (db : Db)
    → lock_service s true db ≡ ok tt
    → exists (λ x. is_service s x && is_bookable x) db.catalog ≡ true
unfolding lock_service
lock_service-bookable s db h = elim (Option-cases (find (is_service s) db.catalog)) [
  | inl e ↦ absurd (ground arith)
  | inr (x, e) ↦
      let m = find_sound (is_service s) db.catalog e in
      find-exists_too (is_service s) (λ x. is_service s x && is_bookable x) db.catalog e
        (ground arith)
]

below_next : (v w : ℤ) → v ≤ℤ w → ltb_ℤ v (w +ℤ pos 1) ≡ true
unfolding ◌+ℤ◌
below_next v w h = ground arith

-- With a new identifier, a policy that Publish accepts is the trimmed draft, which is valid, in a new
-- version above all versions of its service and currency; the earlier versions stay as they are; and
-- from then on the policy is the one that Current and LockCurrent answer.
pub publish-IsPublished :
    (u : Cases) (id at : ℕ) (d : Draft) (reviewer : Text) (db : Db) {p : Policy} {db' : Db}
    → exists (is_policy id) db.policies ≡ false
    → publish u id at d reviewer db ≡ ok (p, db')
    → IsPublished (normalize u d) (trim_space reviewer) p db db'
unfolding publish store_policy current lock_current lock_service
publish-IsPublished u id at d reviewer db {p} {db'} new h =
    let d' = normalize u d in
    let (valid, named, bookable, same, after) =
      publish_normal-inv id at d' (trim_space reviewer) db h in
    let top = max_version d'.service_code d'.currency db.policies in
    let q = new_policy id (top +ℤ pos 1) d' (trim_space reviewer) at in
    let now : current_policy d'.service_code d'.currency (store_policy q db) ≡ ok q =
      current_policy-store q db new in
    let there = lock_service-bookable d'.service_code db bookable in
    record {
      valid = valid;
      draft = rw same refl;
      author = (rw same refl, named);
      history = rw after (rw same refl);
      newest = rw same (
          All-map (IsBelow d'.service_code d'.currency top)
            (λ x.
              (text_eq x.service_code d'.service_code && text_eq x.currency d'.currency) ≡ true
              → ltb_ℤ x.version (top +ℤ pos 1) ≡ true)
            db.policies (λ x below e. below_next x.version top (below e))
            (max_version-IsBelow d'.service_code d'.currency db.policies));
      is_current = rw (after, same, there, now) refl;
      is_locked = rw (after, same, bookable, now) refl;
    }
