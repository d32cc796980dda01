-- ===== src/Imap/Holders.antt =====
-- What holds a task of crates/imap/src/adapter.rs, and what a step leaves of it.
use mail_keep.Base.{
  ℕ, zero, suc, ◌≡◌, ◌≢◌, refl, sym, ap, ◌∙◌, false, not, Bool-cases, Option, none, some,
  Option-cases, List, [], ◌∷◌, ◌==◌, ◌⊎◌, inl, inr, In, arith, option_map,
}
use mail_keep.Sql.Table.{select, find_first-matches, In-select}
use mail_keep.Imap.Io.{SyncStatus}
use mail_keep.Imap.Adapter.{AccountHandle, Running, handle_of, remove_handle, end_tasks, cancel}
use mail_keep.Imap.Handles.{owner, number_of, IsTracked, handle_of-other}
use mail_keep.Imap.Interleaved.{taken, without, is_handle, reported, drop_nth, IsOf, Holds}

-- what holds a task goes on to
module _ (r : Running) where
  pub Holds-taken :
      (o : Option AccountHandle) (hs : List AccountHandle) → Holds hs r → Holds (taken o hs) r
  Holds-taken none hs h = h
  Holds-taken (some g) hs (h, i, e) = (h, inr i, e)

  -- a task's handle is in the map no more only where it was taken from it
  pub tracked_or_taken :
      (id : ℕ) (hs old : List AccountHandle)
      → IsTracked hs r
      → IsTracked (remove_handle id hs) r ⊎ Holds (taken (handle_of id hs) old) r
  tracked_or_taken id hs old k = elim (Bool-cases (owner r.task == id)) [
    | inl e ↦
        let same : owner r.task ≡ id = ground (arith, e) in
        elim (Option-cases (handle_of (owner r.task) hs)) [
          | inl q ↦ ground (arith, k, q)
          | inr (h, q) ↦
              let own = find_first-matches (λ h. h.account_id == owner r.task) hs h q in
              inr (rw (sym same, q) (h, inl refl, (ground (arith, own), ground (arith, k, q))))
        ]
    | inr e ↦
        inl
          (ap (option_map number_of) (handle_of-other id (owner r.task) hs (ground (arith, e))) ∙ k)
  ]

  pub Holds-without :
      (n : ℕ) (hs : List AccountHandle) → r.serial ≢ n → Holds hs r → Holds (without n hs) r
  Holds-without n [] ne (h, i, e) = absurd i
  Holds-without n (x ∷ hs) ne (h, inl q, (a, s)) =
      let k : (x.serial == n) ≡ false = ground (arith, ne, s, ap (λ h. h.serial) q) in
      rw k (h, inl q, (a, s))
  Holds-without n (x ∷ hs) ne (h, inr i, e) =
      let (g, j, q) = Holds-without n hs ne (h, i, e) in
      elim (Bool-cases (x.serial == n)) [ inl k ↦ rw k (g, j, q) | inr k ↦ rw k (g, inr j, q) ]

  -- the handles but for one of an account and a serial number
  pub Holds-other :
      (id n : ℕ) (hs : List AccountHandle)
      → Holds hs r
      → ((owner r.task ≡ id) × (r.serial ≡ n)) ⊎ Holds (select (λ g. not (is_handle id n g)) hs) r
  Holds-other id n [] (h, i, e) = absurd i
  Holds-other id n (x ∷ hs) (h, inl q, (a, s)) = elim (Bool-cases (is_handle id n x)) [
    | inl k ↦
        inl (
          ground (arith, k, a, ap (λ h. h.account_id) q),
          ground (arith, k, s, ap (λ h. h.serial) q),
        )
    | inr k ↦ inr (rw k (h, inl q, (a, s)))
  ]
  Holds-other id n (x ∷ hs) (h, inr i, e) = elim (Holds-other id n hs (h, i, e)) [
    | inl w ↦ inl w
    | inr (g, j, q) ↦ elim (Bool-cases (is_handle id n x)) [
      | inl k ↦ inr (rw k (g, j, q))
      | inr k ↦ inr (rw k (g, inr j, q))
    ]
  ]

  pub Holds-reported :
      (n : ℕ) (s : SyncStatus) (hs : List AccountHandle) → Holds hs r → Holds (reported n s hs) r
  Holds-reported n s [] (h, i, e) = absurd i
  Holds-reported n s (x ∷ hs) (h, inl q, e) =
      let own : IsOf r x = rw (sym q) e in
      elim (Bool-cases (x.serial == n)) [
        | inl k ↦ rw k (record x { status = s }, inl refl, own)
        | inr k ↦ rw k (x, inl refl, own)
      ]
  Holds-reported n s (x ∷ hs) (h, inr i, e) =
      let (g, j, q) = Holds-reported n s hs (h, i, e) in (g, inr j, q)

  pub IsTracked-reported :
      (n : ℕ) (s : SyncStatus) (hs : List AccountHandle)
      → IsTracked hs r
      → IsTracked (reported n s hs) r
  IsTracked-reported n s hs k = same_number hs ∙ k
    where
      same_number :
          (hs : List AccountHandle)
          → option_map number_of (handle_of (owner r.task) (reported n s hs))
            ≡ option_map number_of (handle_of (owner r.task) hs)
      same_number [] = refl
      same_number (h ∷ hs) = ground (arith, same_number hs)

  -- the tasks that a cancellation leaves are others
  pub cancel_leaves :
      (o : Option AccountHandle) (rs : List Running)
      → In r (cancel o rs)
      → In r rs × (option_map number_of o ≢ some r.serial)
  unfolding cancel
  cancel_leaves none rs i = (i, λ e. ground (arith, e))
  cancel_leaves (some h) rs i =
      let other = not_ended h.serial rs i in
      (In-select (λ r. not (r.serial == h.serial)) r rs i, λ e. ground (arith, e, other))
    where
      not_ended : (n : ℕ) (rs : List Running) → In r (end_tasks n rs) → (r.serial == n) ≡ false
      not_ended n [] i = absurd i
      not_ended n (x ∷ rs) i = elim (Bool-cases (x.serial == n)) [
        | inl e ↦ not_ended n rs (rw e at i)
        | inr e ↦
            let k : In r (x ∷ end_tasks n rs) = rw e at i in
            elim k [ inl q ↦ rw q e | inr j ↦ not_ended n rs j ]
      ]

  pub not_dropped : (k : ℕ) (rs : List Running) → In r (drop_nth k rs) → In r rs
  not_dropped k [] i = absurd i
  not_dropped zero (x ∷ rs) i = inr i
  not_dropped (suc k) (x ∷ rs) (inl e) = inl e
  not_dropped (suc k) (x ∷ rs) (inr i) = inr (not_dropped k rs i)
