-- ===== src/Limiter/Window.antt =====
-- How many requests of a user are allowed within a window.
use uber_clone.Common.{
  ℕ, suc, ◌+◌, ◌-◌, ◌≤◌, ◌<◌, ◌≡◌, refl, subst, true, false, List, [], ◌∷◌, arith, All, Bool-cases,
  inl, inr, leb, ltb,
}
use Prim.Native.Nat.{min}
use uber_clone.Common.Int.{pos}
use uber_clone.Common.Text.{Text, text_eq, text_eq_refl, text_eq→eq}
use uber_clone.Limiter.{
  RateWindow, UserWindowLimiter, minute, new_user_window_limiter, store_window, is_over, allow,
  Call, granted, asked,
}

-- The user's window is open from `start` on, with `count` requests taken.
pub record IsOpen (user : Text) (start count : ℕ) (l : UserWindowLimiter) : Type 0 where
  pub entry : l.entries user ≡ record { start = start; count = count }
  pub started : 0 < start
  pub taken : count ≤ l.limit

stored :
    (user : Text) (w : RateWindow) (l : UserWindowLimiter)
    → (store_window user w l).entries user ≡ w
unfolding store_window
stored user w l = rw (text_eq_refl user) refl

elsewhere :
    (user other : Text) (w : RateWindow) (l : UserWindowLimiter)
    → text_eq user other ≡ false
    → (store_window other w l).entries user ≡ l.entries user
unfolding store_window
elsewhere user other w l h = rw h refl

-- A call in the user's open window, while there is room.
allow_room :
    (user : Text) (now start count : ℕ) (l : UserWindowLimiter)
    → IsOpen user start count l
    → now < start + l.window
    → count < l.limit
    → allow user now l ≡ (true, store_window user (record { start = start; count = count + 1 }) l)
unfolding allow
allow_room user now start count l o early room = let h = o.started in rw o.entry (ground arith)

allow_full :
    (user : Text) (now start count : ℕ) (l : UserWindowLimiter)
    → IsOpen user start count l
    → now < start + l.window
    → count ≡ l.limit
    → allow user now l ≡ (false, l)
unfolding allow
allow_full user now start count l o early full = let h = o.started in rw o.entry (ground arith)

-- What a call of another user leaves: the user's window, the limit and the length of windows.
record Keeps (user : Text) (l l' : UserWindowLimiter) : Type 0 where
  entry : l'.entries user ≡ l.entries user
  limit : l'.limit ≡ l.limit
  window : l'.window ≡ l.window

store_window-Keeps :
    (user other : Text) (w : RateWindow) (l : UserWindowLimiter)
    → text_eq other user ≡ false
    → Keeps user l (store_window other w l)
unfolding store_window
store_window-Keeps user other w l h = record {
  entry = elsewhere user other w l (elim (Bool-cases (text_eq user other)) [
    | inl e ↦
        absurd
          (cc (h, subst (λ u. text_eq u user ≡ true) (text_eq→eq user other e) (text_eq_refl user)))
    | inr e ↦ e
  ]);
  limit = refl;
  window = refl;
}

allow-Keeps :
    (user other : Text) (now : ℕ) (l : UserWindowLimiter)
    → text_eq other user ≡ false
    → Keeps user l (allow other now l).1
unfolding allow
allow-Keeps user other now l h = elim (Bool-cases (is_over (l.entries other) l.window now)) [
  | inl e ↦ rw e (store_window-Keeps user other (record { start = now; count = 1 }) l h)
  | inr e ↦ elim (Bool-cases (leb l.limit (l.entries other).count)) [
    | inl f ↦ rw (e, f) (record { entry = refl; limit = refl; window = refl })
    | inr f ↦
        rw (e, f)
          (store_window-Keeps user other
            (record { start = (l.entries other).start; count = (l.entries other).count + 1 }) l h)
  ]
]

Keeps-IsOpen :
    (user : Text) (start count : ℕ) (l l' : UserWindowLimiter)
    → Keeps user l l'
    → IsOpen user start count l
    → IsOpen user start count l'
Keeps-IsOpen user start count l l' k o = record {
  entry = rw (k.entry, o.entry) refl;
  started = o.started;
  taken = rw k.limit o.taken;
}

store_window-IsOpen :
    (user : Text) (start count : ℕ) (l : UserWindowLimiter)
    → 0 < start
    → count ≤ l.limit
    → IsOpen user start count (store_window user (record { start = start; count = count }) l)
unfolding store_window
store_window-IsOpen user start count l s t = record {
  entry = rw (text_eq_refl user) refl;
  started = s;
  taken = t;
}

abbrev AreEarly : ℕ → List Call → Type 0
AreEarly deadline = All (λ x. x.at < deadline)

-- The calls that are allowed in an open window are the first ones that the limit has room for.
granted_open :
    (user : Text) (start count n w : ℕ) (calls : List Call) (l : UserWindowLimiter)
    → IsOpen user start count l
    → l.limit ≡ n
    → l.window ≡ w
    → AreEarly (start + w) calls
    → granted user calls l ≡ min (n - count) (asked user calls)
unfolding granted asked store_window
granted_open user start count n w [] l o en ew early = ground arith
granted_open user start count n w (x ∷ xs) l o en ew early =
    elim (Bool-cases (text_eq x.user user)) [
      | inr e ↦
          let k = allow-Keeps user x.user x.at l e in
          rw
            (
              e,
              granted_open user start count n w xs (allow x.user x.at l).1
                  (Keeps-IsOpen user start count l (allow x.user x.at l).1 k o)
                  (rw (k.limit, en) refl) (rw (k.window, ew) refl) early.1,
            )
            (omega arith)
      | inl e ↦
          let same = text_eq→eq x.user user e in
          let in_time : x.at < start + l.window = rw ew early.0 in
          let t = o.taken in
          elim (Bool-cases (ltb count n)) [
            | inl room ↦
                let fits : count < l.limit = ground arith in
                let l' = store_window user (record { start = start; count = count + 1 }) l in
                let step : allow x.user x.at l ≡ (true, l') =
                  rw same (allow_room user x.at start count l o in_time fits) in
                rw
                  (
                    e,
                    step,
                    granted_open user start (count + 1) n w xs l'
                        (store_window-IsOpen user start (count + 1) l o.started (omega arith)) en ew
                        early.1,
                  )
                  (ground arith)
            | inr full ↦
                let is_full : count ≡ l.limit = ground arith in
                let step : allow x.user x.at l ≡ (false, l) =
                  rw same (allow_full user x.at start count l o in_time is_full) in
                rw (e, step, granted_open user start count n w xs l o en ew early.1) (ground arith)
          ]
    ]

-- A user's first request on a new limiter for `n` per minute is allowed, and of that one and the
-- requests of the minute after it, with other users' requests between them in any order, exactly the
-- first `n` are: as many as were asked for, and `n` at most.
pub granted_in_minute :
    (user : Text) (n start : ℕ) (calls : List Call)
    → 0 < n
    → 0 < start
    → All (λ x. x.at < start + minute) calls
    → granted user (record { user = user; at = start } ∷ calls) (new_user_window_limiter (pos n))
      ≡ min n (suc (asked user calls))
unfolding granted new_user_window_limiter allow store_window
granted_in_minute user n start calls some_limit started early =
    let l = new_user_window_limiter (pos n) in
    let l' = store_window user (record { start = start; count = 1 }) l in
    let limit : l.limit ≡ n = ground arith in
    let rest =
      granted_open user start 1 n minute calls l'
        (store_window-IsOpen user start 1 l started (rw limit (omega arith))) limit refl early in
    rw (text_eq_refl user, rest) (ground arith)
