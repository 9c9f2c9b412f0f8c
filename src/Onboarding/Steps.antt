-- ===== src/Onboarding/Steps.antt =====
-- The review workflow as a step relation: submissions, approvals and rejections, in any order.
use uber_clone.Common.{
  ℕ, ◌≡◌, refl, Bool, true, false, not, Option, none, some, List, [], ◌∷◌, ◌++◌, ◌==◌, arith, All,
  All-append, ◌⊎◌, ok, >>=-eq-ok, fail_if, Bool-cases, inl, inr,
}
use uber_clone.Common.Text.{Text, Cases, trim_space, is_empty}
use uber_clone.Common.Table.{exists, update_where, change, All-update_where, exists-All-false}
use uber_clone.Store.{Db, ApplicationRow, ApplicationStatus}
use uber_clone.Onboarding.{ineligible, ServiceOption, Application, is_application, is_pending}
use uber_clone.Onboarding.Submission.{
  ApplicationInput, normalize, validate_input, precheck, submit, create_application,
  new_application, is_pending_of,
}
use uber_clone.Onboarding.Review.{approve, reject, set_approved, set_rejected}
use uber_clone.Onboarding.Decided.{
  approve-inv, reject-inv, approve_application-inv, reject_application-inv,
  ensure_driver_profile-inv,
}

-- The check driver_onboarding_decision_check of the table.
unfoldable pub is_sound_decision : ApplicationStatus → Option ℕ → Option Text → Bool
is_sound_decision ApplicationStatus.pending none none = true
is_sound_decision ApplicationStatus.approved (some t) none = true
is_sound_decision ApplicationStatus.rejected (some t) (some reason) = not (is_empty reason)
is_sound_decision _ _ _ = false

abbrev pub IsSoundRow : ApplicationRow → Type 0
IsSoundRow a = is_sound_decision a.status a.decided_at a.rejection_reason ≡ true

-- The unique index driver_onboarding_one_pending_per_driver.
abbrev pub IsOnePending : List ApplicationRow → Type 0
IsOnePending [] = Unit
IsOnePending (a ∷ t) =
    (is_pending a.status ≡ true → All (λ b. is_pending_of a.driver_user_id b ≡ false) t)
    × IsOnePending t

-- What an operation does to the applications.
abbrev IsAppended : List ApplicationRow → List ApplicationRow → Type 0
IsAppended t t' =
    (id : ℕ) × (now : ℕ) × (user : ℕ) × (input : ApplicationInput) × (s : ServiceOption) × (exists
        (is_pending_of user) t
      ≡ false)
    × (t' ≡ t ++ new_application id now user input s ∷ [])

abbrev IsDecidedAs : List ApplicationRow → List ApplicationRow → Type 0
IsDecidedAs t t' =
    (id : ℕ) × (f : ApplicationRow → ApplicationRow) × ((r : ApplicationRow)
      → (is_pending (f r).status ≡ false)
        × ((f r).driver_user_id ≡ r.driver_user_id)
        × IsSoundRow (f r))
    × (t' ≡ update_where (is_application id) f t)

abbrev IsChange : List ApplicationRow → List ApplicationRow → Type 0
IsChange t t' = IsAppended t t' ⊎ IsDecidedAs t t'

pub data Step (db db' : Db) : Type 0 where
  submits :
      (u : Cases) (year : ℕ) (seen : Db) (id now user : ℕ) (input : ApplicationInput)
      (a : Application)
      → submit u year seen id now user input db ≡ ok (a, db')
      → Step db db'
  approves :
      (id vehicle now : ℕ) (reviewer : Text) (a : Application)
      → approve id vehicle now reviewer db ≡ ok (a, db')
      → Step db db'
  rejects :
      (id now : ℕ) (reviewer reason : Text) (a : Application)
      → reject id now reviewer reason db ≡ ok (a, db')
      → Step db db'

pub data Reaches (db : Db) : Db → Type 0 where
  start : Reaches db db
  next : (db' db'' : Db) → Reaches db db' → Step db' db'' → Reaches db db''

create_application-IsAppended :
    (id now user : ℕ) (input : ApplicationInput) (s : ServiceOption) (db : Db) {a : Application}
    {db' : Db}
    → create_application id now user input s db ≡ ok (a, db')
    → IsAppended db.applications db'.applications
unfolding create_application
create_application-IsAppended id now user input s db h =
    (id, now, user, input, s, ground arith, ground arith)

Step-IsChange : (db db' : Db) → Step db db' → IsChange db.applications db'.applications
unfolding submit approve reject is_sound_decision
Step-IsChange db db' (submits u year seen id now user input a h) =
    let (_, _, h₁) = >>=-eq-ok (validate_input year (normalize u input)) _ h in
    let (p, _, h₂) = >>=-eq-ok (precheck u year (normalize u input) seen) _ h₁ in
    let (_, _, h₃) = >>=-eq-ok (fail_if (not p.eligible) ineligible) _ h₂ in
    inl (create_application-IsAppended id now user (normalize u input) p.service db h₃)
Step-IsChange db db' (approves id vehicle now reviewer a h) =
    let done = approve-inv id vehicle now reviewer db h in
    let (a₀, _, _, after) = approve_application-inv id vehicle now (trim_space reviewer) db done in
    let (ps, e) = ensure_driver_profile-inv a₀ now db in
    inr (a₀.id, set_approved now (trim_space reviewer), λ r. (refl, refl, refl), rw (after, e) refl)
Step-IsChange db db' (rejects id now reviewer reason a h) =
    let (why, done) = reject-inv id now reviewer reason db h in
    let (a₀, _, _, after) =
      reject_application-inv id now (trim_space reviewer) (trim_space reason) db done in
    inr (
      a₀.id,
      set_rejected now (trim_space reviewer) (trim_space reason),
      λ r. (refl, refl, rw why refl),
      rw after refl,
    )

other_driver :
    (user : ℕ) (a : ApplicationRow)
    → is_pending_of user a ≡ false
    → is_pending a.status ≡ true
    → (user == a.driver_user_id) ≡ false
other_driver user a h e = ground arith

-- A pending application of a Driver who has none does no harm.
IsOnePending-append :
    (user : ℕ) (x : ApplicationRow) (t : List ApplicationRow)
    → x.driver_user_id ≡ user
    → All (λ a. is_pending_of user a ≡ false) t
    → IsOnePending t
    → IsOnePending (t ++ x ∷ [])
IsOnePending-append user x [] same none_ h = ((λ e. tt), tt)
IsOnePending-append user x (a ∷ t) same none_ h = (
  λ e.
      All-append (λ b. is_pending_of a.driver_user_id b ≡ false) t (x ∷ []) (h.0 e)
        (rw (same, other_driver user a none_.0 e) refl, tt),
  IsOnePending-append user x t same none_.1 h.1,
)

module _ (p : ApplicationRow → Bool) (f : ApplicationRow → ApplicationRow)
    (decided : (r : ApplicationRow)
      → (is_pending (f r).status ≡ false)
        × ((f r).driver_user_id ≡ r.driver_user_id)
        × IsSoundRow (f r)) where
  still_not :
      (user : ℕ) (b : ApplicationRow)
      → is_pending_of user b ≡ false
      → is_pending_of user (change p f b) ≡ false
  still_not user b h = elim (Bool-cases (p b)) [
    | inl e ↦ rw (e, (decided b).0) (ground arith)
    | inr e ↦ rw e h
  ]

  IsOnePending-update_where :
      (t : List ApplicationRow) → IsOnePending t → IsOnePending (update_where p f t)
  IsOnePending-update_where [] h = tt
  IsOnePending-update_where (a ∷ t) h = (
    elim (Bool-cases (p a)) [
      | inl e ↦ rw (e, (decided a).0) (λ x. cc)
      | inr e ↦ rw e (λ x.
          All-update_where (λ b. is_pending_of a.driver_user_id b ≡ false)
            (λ b. is_pending_of a.driver_user_id b ≡ false) p f t (still_not a.driver_user_id)
            (h.0 x))
    ],
    IsOnePending-update_where t h.1,
  )

  IsSoundRow-change : (r : ApplicationRow) → IsSoundRow r → IsSoundRow (change p f r)
  IsSoundRow-change r h = elim (Bool-cases (p r)) [ inl e ↦ rw e (decided r).2 | inr e ↦ rw e h ]

-- The invariant of the table.
pub record IsReviewable (t : List ApplicationRow) : Type 0 where
  pub one_pending : IsOnePending t
  pub sound : All IsSoundRow t

IsChange-IsReviewable :
    (t t' : List ApplicationRow) → IsChange t t' → IsReviewable t → IsReviewable t'
unfolding is_sound_decision
IsChange-IsReviewable t t' (inl (id, now, user, input, s, no_other, after)) v =
    let x = new_application id now user input s in
    record {
      one_pending = rw after (
          IsOnePending-append user x t refl (exists-All-false (is_pending_of user) t no_other)
            v.one_pending);
      sound = rw after (All-append IsSoundRow t (x ∷ []) v.sound (refl, tt));
    }
IsChange-IsReviewable t t' (inr (id, f, decided, after)) v = record {
  one_pending = rw after (IsOnePending-update_where (is_application id) f decided t v.one_pending);
  sound = rw after (
      All-update_where IsSoundRow IsSoundRow (is_application id) f t
        (IsSoundRow-change (is_application id) f decided) v.sound);
}

-- In whatever order applications are submitted, approved and rejected: if at first no Driver has two
-- pending applications, and each application has a time of decision just when it is decided, and a
-- reason just when it is rejected, then this stays so.
pub Reaches-IsReviewable :
    (db db' : Db) → Reaches db db' → IsReviewable db.applications → IsReviewable db'.applications
Reaches-IsReviewable db _ start v = v
Reaches-IsReviewable db _ (next db' db'' before step) v =
    IsChange-IsReviewable db'.applications db''.applications (Step-IsChange db' db'' step)
      (Reaches-IsReviewable db db' before v)
