-- ===== src/Trip/Lifecycle.antt =====
-- The life of a Trip as a relation on rows, apart from the code: what may happen to one row, and
-- what may happen to the table.
use uber_clone.Common.{
  ℕ, ◌≡◌, ◌⊎◌, inl, inr, Bool, true, none, some, List, [], ◌∷◌, ◌++◌, All, Bool-cases,
}
use uber_clone.Common.Table.{update_where}
use uber_clone.Store.{Trip, TripStatus, SettlementStatus}
use uber_clone.Trip.{set_collected}

-- One change of one Trip at some time `n`.
pub data TripStep (t u : Trip) : Type 0 where
  begin :
      (n : ℕ)
      → t.status ≡ TripStatus.assigned
      → u ≡ record t { status = TripStatus.in_progress; started_at = some n }
      → TripStep t u
  finish :
      (n : ℕ)
      → t.status ≡ TripStatus.in_progress
      → u ≡ record t { status = TripStatus.completed; completed_at = some n }
      → TripStep t u
  collect :
      (n : ℕ)
      → t.status ≡ TripStatus.completed
      → t.settlement.status ≡ SettlementStatus.unsettled
      → u ≡ set_collected (record { started = n; at = λ k. n }) t
      → TripStep t u
  call_off :
      (n : ℕ)
      → (t.status ≡ TripStatus.assigned) ⊎ (t.status ≡ TripStatus.in_progress)
      → u ≡ record t { status = TripStatus.cancelled; cancelled_at = some n }
      → TripStep t u

-- A Trip that has just been assigned.
pub record IsFresh (t : Trip) : Type 0 where
  pub assigned : t.status ≡ TripStatus.assigned
  pub not_started : t.started_at ≡ none
  pub not_completed : t.completed_at ≡ none
  pub not_cancelled : t.cancelled_at ≡ none
  pub unsettled :
      t.settlement
      ≡ record { status = SettlementStatus.unsettled; method = none; cash_collected_at = none }
  pub collected_by_nobody : t.cash_collected_by ≡ none

-- What one call may do to the table: each row stays or takes a step, and a fresh Trip may be added
-- at the end.
pub data Advances : List Trip → List Trip → Type 0 where
  done : Advances [] []
  added : (t : Trip) → IsFresh t → Advances [] (t ∷ [])
  kept : (t : Trip) {ts us : List Trip} → Advances ts us → Advances (t ∷ ts) (t ∷ us)
  stepped :
      {t u : Trip} {ts us : List Trip} → TripStep t u → Advances ts us → Advances (t ∷ ts) (u ∷ us)

pub Advances-refl : (ts : List Trip) → Advances ts ts
Advances-refl [] = done
Advances-refl (t ∷ ts) = kept t (Advances-refl ts)

pub update_where-Advances :
    (p : Trip → Bool) (f : Trip → Trip) (ts : List Trip)
    → All (λ t. p t ≡ true → TripStep t (f t)) ts
    → Advances ts (update_where p f ts)
update_where-Advances p f [] h = done
update_where-Advances p f (t ∷ ts) h = elim (Bool-cases (p t)) [
  | inl e ↦ rw e (stepped (h.0 e) (update_where-Advances p f ts h.1))
  | inr e ↦ rw e (kept t (update_where-Advances p f ts h.1))
]

pub append-Advances : (ts : List Trip) (t : Trip) → IsFresh t → Advances ts (ts ++ t ∷ [])
append-Advances [] t h = added t h
append-Advances (u ∷ ts) t h = kept u (append-Advances ts t h)

-- A sequence of calls.
pub data Lives (ts : List Trip) : List Trip → Type 0 where
  here : Lives ts ts
  next : {us vs : List Trip} → Lives ts us → Advances us vs → Lives ts vs
