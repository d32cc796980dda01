-- ===== src/Imap/Sync/Bounds.antt =====
-- The ends of the windows, and the backoff.
use mail_keep.Base.{ℕ, suc, ◌≤◌, ◌<◌, ◌≡◌, refl, Bool, true, false, Option, none, some, arith}
use mail_keep.Imap.Sync.{window_end, is_last, nothing_new}
use mail_keep.Imap.Io.{u32_max}

pub from_le_end :
    (upper : Option ℕ) (from : ℕ)
    → from ≤ u32_max
    → ((u : ℕ) → upper ≡ some u → from ≤ u)
    → from ≤ window_end upper from
unfolding window_end
from_le_end none from h k = omega (arith, h)
from_le_end (some u) from h k = omega (arith, h, k u refl)

pub end_le_max : (upper : Option ℕ) (from : ℕ) → window_end upper from ≤ u32_max
unfolding window_end
end_le_max none from = omega arith
end_le_max (some u) from = omega arith

pub last_le :
    (upper : Option ℕ) (to : ℕ) (any : Bool)
    → is_last upper to any ≡ true
    → (u : ℕ) → upper ≡ some u
    → u ≤ to
unfolding is_last
last_le none to any h u e = ground arith
last_le (some v) to any h u e = ground arith

pub next_le :
    (upper : Option ℕ) (to : ℕ) (any : Bool)
    → is_last upper to any ≡ false
    → (u : ℕ) → upper ≡ some u
    → suc to ≤ u
unfolding is_last
next_le none to any h u e = ground arith
next_le (some v) to any h u e = ground arith

pub nothing_lt :
    (upper : Option ℕ) (from : ℕ)
    → nothing_new upper from ≡ true
    → (u : ℕ) → upper ≡ some u
    → u < from
unfolding nothing_new
nothing_lt none from h u e = ground arith
nothing_lt (some v) from h u e = ground arith

pub something_le :
    (upper : Option ℕ) (from : ℕ)
    → nothing_new upper from ≡ false
    → (u : ℕ) → upper ≡ some u
    → from ≤ u
unfolding nothing_new
something_le none from h u e = ground arith
something_le (some v) from h u e = ground arith
