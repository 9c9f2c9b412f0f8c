-- ===== src/Limiter/Tests.antt =====
-- A test of the limiter.
use uber_clone.Common.{suc, ◌≡◌, List, [], ◌∷◌, arith}
use Prim.Native.Nat.{min}
use uber_clone.Common.Int.{pos}
use uber_clone.Common.Text.{codes}
use uber_clone.Limiter.{Call, granted, asked, new_user_window_limiter}
use uber_clone.Limiter.Window.{granted_in_minute}

abbrev calls : List Call
calls =
    record { user = codes "a"; at = 6 }
    ∷ record { user = codes "b"; at = 7 }
    ∷ record { user = codes "a"; at = 8 }
    ∷ []

granted_in_minute_example :
    granted
      (codes "a")
      (record { user = codes "a"; at = 5 } ∷ calls)
      (new_user_window_limiter (pos 2))
    ≡ min 2 (suc (asked (codes "a") calls))
granted_in_minute_example =
    granted_in_minute (codes "a") 2 5 calls (omega arith) (omega arith)
      (omega arith, (omega arith, (omega arith, tt)))
