-- ===== src/Onboarding/Queue.antt =====
-- The order in which reviewers and Drivers see applications.
use uber_clone.Common.{
  ◌≡◌, Bool, true, false, List, [], ◌∷◌, arith, All, Option-cases, inl, inr, Perm,
}
use uber_clone.Common.Table.{select, All-select}
use uber_clone.Common.Order.{IsSorted, sort_by-IsSorted, sort_by-Perm, All-sort_by}
use uber_clone.Store.{Db, ApplicationRow}
use uber_clone.Onboarding.{
  Application, is_pending, is_earlier, joined, service_of, scan_application,
  list_pending_applications,
}

earlier_asym : (a b : Application) → is_earlier a b ≡ true → is_earlier b a ≡ false
earlier_asym a b h = ground arith

earlier_step :
    (a b c : Application) → is_earlier b a ≡ false → is_earlier c b ≡ false → is_earlier c a ≡ false
earlier_step a b c h k = ground arith

-- What a query keeps of a row, its answers have.
All-joined :
    (db : Db) (P : ApplicationRow → Type 0) (Q : Application → Type 0)
    → ((a : ApplicationRow) → P a → (s : _) → Q (scan_application db a s))
    → (t : List ApplicationRow) → All P t
    → All Q (joined db t)
unfolding joined
All-joined db P Q keep [] h = tt
All-joined db P Q keep (a ∷ t) h = elim (Option-cases (service_of db a)) [
  | inl e ↦ rw (e, joined) (All-joined db P Q keep t h.1)
  | inr (s, e) ↦ rw (e, joined) (keep a h.0 s, All-joined db P Q keep t h.1)
]

-- The reviewers' queue has just the pending applications (of a service that is in the catalog), each
-- as often as it is stored, and the oldest first.
list_pending_applications-IsSorted :
    (db : Db)
    → IsSorted is_earlier (list_pending_applications db)
      × All (λ a. is_pending a.status ≡ true) (list_pending_applications db)
      × Perm
          (joined db (select (λ a. is_pending a.status) db.applications))
          (list_pending_applications db)
unfolding list_pending_applications
list_pending_applications-IsSorted db =
    let pending : ApplicationRow → Bool = λ a. is_pending a.status in
    let rows = select pending db.applications in
    (
      sort_by-IsSorted is_earlier earlier_asym earlier_step (joined db rows),
      All-sort_by is_earlier (λ a. is_pending a.status ≡ true) (joined db rows)
          (All-joined db (λ a. pending a ≡ true) (λ a. is_pending a.status ≡ true) (λ a h s. h) rows
            (All-select pending db.applications)),
      sort_by-Perm is_earlier (joined db rows),
    )
