-- ===== src/Imap/Held.antt =====
-- Laws of overlapping calls of crates/imap/src/adapter.rs: no task runs that nothing holds.
use mail_keep.Base.{
  In-All, ℕ, ◌≡◌, ◌≢◌, refl, sym, ap, ◌∙◌, Bool-cases, Option, none, some, List, [], ◌∷◌, ◌==◌, ◌⊎◌,
  inl, inr, map, ==_refl, In, In-append_cases, In-map, All, All-In, arith, option_map,
}
use mail_keep.Sql.Table.{find_first}
use mail_keep.Imap.Port.{ConnectionParams}
use mail_keep.Imap.Adapter.{
  AccountHandle, Running, handle_of, remove_handle, cancel, spawned, numbered, new_handle,
  remove_account, join_tasks, spawn_tasks, track, stop_account,
}
use mail_keep.Imap.Handles.{owner, number_of, IsTracked, handle_of-removed, spawned-owner}
use mail_keep.Imap.Interleaved.{
  Overlap, Step, remove, join, spawn, insert_handle, report, end_task, is_handle, joined, inserted,
  step, run_steps, no_calls, IsUnderWay, IsHeld,
}
use mail_keep.Imap.Holders.{
  Holds-taken, tracked_or_taken, Holds-without, Holds-other, Holds-reported, IsTracked-reported,
  cancel_leaves, not_dropped,
}

abbrev AllHeld : Overlap → Type 0
AllHeld c = (r : Running) → In r c.adapter.running → IsHeld c r

remove-AllHeld : (id : ℕ) (c : Overlap) → AllHeld c → AllHeld (step (remove id) c)
unfolding step remove_account
remove-AllHeld id c h r i = elim (h r i) [
  | inl k ↦ elim (tracked_or_taken r id c.adapter.tracked c.stopping k) [
    | inl q ↦ inl q
    | inr q ↦ inr (inr (inl q))
  ]
  | inr (inl k) ↦ inr (inl k)
  | inr (inr (inl k)) ↦
      inr (inr (inl (Holds-taken r (handle_of id c.adapter.tracked) c.stopping k)))
  | inr (inr (inr k)) ↦ inr (inr (inr k))
]

joined-AllHeld : (o : Option AccountHandle) (c : Overlap) → AllHeld c → AllHeld (joined o c)
unfolding joined join_tasks
joined-AllHeld none c h r i = h r i
joined-AllHeld (some g) c h r i =
    let (j, ne) = cancel_leaves r (some g) c.adapter.running i in
    elim (h r j) [
      | inl k ↦ inl k
      | inr (inl k) ↦ inr (inl k)
      | inr (inr (inl k)) ↦
          inr
            (inr (inl (Holds-without r g.serial c.stopping (λ e. ne (ap (λ n. some n) (sym e))) k)))
      | inr (inr (inr k)) ↦ inr (inr (inr k))
    ]

spawn-AllHeld :
    (id : ℕ) (params : ConnectionParams) (c : Overlap)
    → AllHeld c
    → AllHeld (step (spawn id params) c)
unfolding step spawn_tasks
spawn-AllHeld id params c h r i =
    let ts = spawned id params.folders in
    let new = new_handle id c.adapter.next in
    elim (In-append_cases r (map (numbered c.adapter.next) ts) c.adapter.running i) [
      | inl j ↦
          let (t, k, e) = In-map (numbered c.adapter.next) r ts j in
          let own = In-All (λ t. owner t ≡ id) ts (spawned-owner id params.folders) t k in
          inr (
            inl (
              new,
              inl refl,
              (sym own ∙ ap (λ r. owner r.task) (sym e), ap (λ r. r.serial) (sym e)),
            ))
      | inr j ↦ elim (h r j) [
        | inl k ↦ inl k
        | inr (inl (g, k, e)) ↦ inr (inl (g, inr k, e))
        | inr (inr k) ↦ inr (inr k)
      ]
    ]

tracked_behind :
    (g : AccountHandle) (hs : List AccountHandle) (r : Running)
    → IsTracked (remove_handle g.account_id hs) r
    → IsTracked (g ∷ remove_handle g.account_id hs) r
tracked_behind g hs r k = elim (Bool-cases (g.account_id == owner r.task)) [
  | inl e ↦
      let same : g.account_id ≡ owner r.task = ground (arith, e) in
      let gone = handle_of-removed g.account_id hs in
      let q : option_map number_of (handle_of (owner r.task) (remove_handle g.account_id hs))
          ≡ none =
        rw (sym same, gone) refl in
      ground (arith, k, q)
  | inr e ↦ rw e k
]

inserted-AllHeld : (o : Option AccountHandle) (c : Overlap) → AllHeld c → AllHeld (inserted o c)
unfolding inserted track
inserted-AllHeld none c h r i = h r i
inserted-AllHeld (some g) c h r i =
    let old = c.adapter.tracked in
    elim (h r i) [
      | inl k ↦ elim (tracked_or_taken r g.account_id old c.replaced k) [
        | inl q ↦ inl (tracked_behind g old r q)
        | inr q ↦ inr (inr (inr q))
      ]
      | inr (inl k) ↦ elim (Holds-other r g.account_id g.serial c.starting k) [
        | inl (a, s) ↦ inl (rw (a, ==_refl g.account_id, s) refl)
        | inr q ↦ inr (inl q)
      ]
      | inr (inr (inl k)) ↦ inr (inr (inl k))
      | inr (inr (inr k)) ↦
          inr (inr (inr (Holds-taken r (handle_of g.account_id old) c.replaced k)))
    ]

step-AllHeld : (s : Step) (c : Overlap) → AllHeld c → AllHeld (step s c)
unfolding step
step-AllHeld (remove id) c h r i = remove-AllHeld id c h r i
step-AllHeld (join n) c h r i = joined-AllHeld (find_first (λ g. g.serial == n) c.stopping) c h r i
step-AllHeld (spawn id params) c h r i = spawn-AllHeld id params c h r i
step-AllHeld (insert_handle id n) c h r i =
    inserted-AllHeld (find_first (is_handle id n) c.starting) c h r i
step-AllHeld (report n s) c h r i = elim (h r i) [
  | inl k ↦ inl (IsTracked-reported r n s c.adapter.tracked k)
  | inr (inl k) ↦ inr (inl (Holds-reported r n s c.starting k))
  | inr (inr (inl k)) ↦ inr (inr (inl (Holds-reported r n s c.stopping k)))
  | inr (inr (inr k)) ↦ inr (inr (inr (Holds-reported r n s c.replaced k)))
]
step-AllHeld (end_task k) c h r i = h r (not_dropped r k c.adapter.running i)

run_AllHeld : (ss : List Step) (c : Overlap) → AllHeld c → AllHeld (run_steps ss c)
unfolding run_steps
run_AllHeld [] c h = h
run_AllHeld (s ∷ ss) c h = run_AllHeld ss (step s c) (step-AllHeld s c h)

-- Whatever steps of starts and stops an adapter has seen, in any order, each running task is one of the
-- handle that its account is tracked with, of a handle that a start has not inserted yet, of one that
-- a stop has not joined yet, or of one that another start of the account has replaced. Only tasks of
-- the last three kinds may still run for an account after one more stop of it.
pub run_steps-IsHeld :
    (ss : List Step) (id : ℕ)
    → let c = run_steps ss no_calls in
      All (IsHeld c) c.adapter.running
      × All (λ r. (owner r.task ≢ id) ⊎ IsUnderWay c r) (stop_account id c.adapter).1.running
unfolding stop_account join_tasks remove_account
run_steps-IsHeld ss id =
    let c = run_steps ss no_calls in
    let held : AllHeld c = run_AllHeld ss no_calls (λ r i. absurd i) in
    (
      All-In (IsHeld c) c.adapter.running held,
      All-In _ (cancel (handle_of id c.adapter.tracked) c.adapter.running) (λ r i.
          let (j, ne) = cancel_leaves r (handle_of id c.adapter.tracked) c.adapter.running i in
          elim (held r j) [ inl k ↦ inl (λ same. ne (rw same at k)) | inr k ↦ inr k ]),
    )
