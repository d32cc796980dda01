-- ===== src/Imap/Sync/Halts.antt =====
-- Actions of crates/imap/src/sync.rs whose loops have ended.
use mail_keep.Base.{
  ◌⊎◌, ℕ, ◌-◌, ◌≤◌, ◌<◌, ◌≡◌, refl, Bool, false, Option, none, some, option_map, List, [], ◌∷◌,
  arith, inl, inr,
}
use mail_keep.Error.{Error}
use mail_keep.Imap.Sync.{is_last}
use mail_keep.Imap.Io.{
  Event, World, IoResult, done, failed, unfinished, Io, continue, call, call_with, Stream, stream,
  failed_fetch, Fetched, u32_max,
}
use mail_keep.Imap.Sync.Bounds.{next_le}

abbrev pub Halts : {A : Type 0} → IoResult A × World → Type 0
Halts (done a, w) = Unit
Halts (failed e, w) = Unit
Halts (unfinished, w) = ⊥

pub Stream-cases :
    (x : Stream) → (x ≡ failed_fetch) ⊎ ((items : List (Option Fetched)) × (x ≡ stream items))
Stream-cases failed_fetch = inl refl
Stream-cases (stream items) = inr (items, refl)

module _ {A B : Type 0} where
  pub Halts-bind :
      (x : IoResult A × World) (f : A → Io B)
      → Halts x
      → ((a : A) (w : World) → Halts (f a w))
      → Halts (continue x f)
  unfolding continue
  Halts-bind (done a, w) f h k = k a w
  Halts-bind (failed e, w) f h k = tt
  Halts-bind (unfinished, w) f h k = h

call_with-Halts : (l : List (Option Error)) (e : Event) (w : World) → Halts (call_with l e w)
unfolding call_with
call_with-Halts [] e w = tt
call_with-Halts (none ∷ l) e w = tt
call_with-Halts (some x ∷ l) e w = tt

pub call-Halts : (e : Event) (w : World) → Halts (call e w)
unfolding call
call-Halts e w = call_with-Halts w.faults e w

pub before_max :
    (upper : Option ℕ) (to : ℕ) (any : Bool)
    → to ≤ u32_max
    → is_last upper to any ≡ false
    → ((u : ℕ) → upper ≡ some u → u ≤ u32_max)
    → to < u32_max
unfolding is_last
before_max none to any le e b = ground arith
before_max (some u) to any le e b = omega (arith, b u refl, next_le (some u) to any e u refl)

pub upper_max :
    (uid_next : Option ℕ)
    → ((n : ℕ) → uid_next ≡ some n → n ≤ u32_max)
    → (u : ℕ) → option_map (λ n. n - 1) uid_next ≡ some u
    → u ≤ u32_max
upper_max none b u e = ground arith
upper_max (some n) b u e = ground (arith, b n refl)
