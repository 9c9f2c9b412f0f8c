-- ===== src/Limiter.antt =====
-- The request limiter of the place search (backend/internal/httpapi/location_search_limiter.go): so
-- many requests per user and minute. The mutex makes each call one step.
pub mod Window
pub mod Tests
use uber_clone.Common.{
  ℕ, ◌+◌, Bool, true, false, ◌||◌, Option, none, some, List, [], ◌∷◌, ◌==◌, leb, if◌then◌else◌,
}
use uber_clone.Common.Int.{ℤ, pos, pos_part, leb_ℤ}
use uber_clone.Common.Text.{Text, text_eq}

-- Times in nanoseconds; 0 is the zero time.
pub record RateWindow : Type 0 where
  pub start : ℕ
  pub count : ℕ

-- The map from users to windows is a function: a missing key reads as the zero value.
pub record UserWindowLimiter : Type 0 where
  pub limit : ℕ
  pub window : ℕ
  pub entries : Text → RateWindow

abbrev pub minute : ℕ
minute = 60000000000

unfoldable pub new_user_window_limiter : ℤ → UserWindowLimiter
new_user_window_limiter limit = record {
  limit = if leb_ℤ limit (pos 0) then 60 else pos_part limit;
  window = minute;
  entries = λ user. record { start = 0; count = 0 };
}

-- l.entries[user] = w
unfoldable pub store_window : Text → RateWindow → UserWindowLimiter → UserWindowLimiter
store_window user w l = record l { entries = λ u. if text_eq u user then w else l.entries u }

abbrev pub is_over : RateWindow → ℕ → ℕ → Bool
is_over w window now = (w.start == 0) || leb (w.start + window) now

abbrev pub allow_in : RateWindow → Text → ℕ → UserWindowLimiter → Bool × UserWindowLimiter
allow_in w user now l =
    if is_over w l.window now
    then (true, store_window user (record { start = now; count = 1 }) l)
    else if leb l.limit w.count
    then (false, l)
    else (true, store_window user (record { start = w.start; count = w.count + 1 }) l)

unfoldable pub allow : Text → ℕ → UserWindowLimiter → Bool × UserWindowLimiter
allow user now l = allow_in (l.entries user) user now l

-- A nil limiter allows everything.
unfoldable pub allow_nil : Option UserWindowLimiter → Text → ℕ → Bool × Option UserWindowLimiter
allow_nil none user now = (true, none)
allow_nil (some l) user now = let (granted_now, l') = allow user now l in (granted_now, some l')

-- How many of a sequence of calls by any users are allowed for one user.
pub record Call : Type 0 where
  pub user : Text
  pub at : ℕ

abbrev pub one_if : Bool → ℕ
one_if true = 1
one_if false = 0

unfoldable pub granted : Text → List Call → UserWindowLimiter → ℕ
granted user [] l = 0
granted user (x ∷ xs) l =
    let (granted_now, l') = allow x.user x.at l in
    (if text_eq x.user user then one_if granted_now else 0) + granted user xs l'

unfoldable pub asked : Text → List Call → ℕ
asked user [] = 0
asked user (x ∷ xs) = one_if (text_eq x.user user) + asked user xs
