-- ===== src/Imap/Shutdown.antt =====
-- Laws of `stop_all` in crates/core/src/imap/service.rs: what is left running.
use mail_keep.Base.{
  Text, ℕ, ◌≡◌, refl, inl, inr, not, List, [], ◌∷◌, ◌++◌, ◌==◌, In, In-append_right, arith,
}
use mail_keep.Error.{Error}
use mail_keep.Sql.{Result, ok}
use mail_keep.Sql.Table.{In-select}
use mail_keep.Sql.Order.{select-matches}
use mail_keep.Imap.Port.{ImapPort, PortLaws, others_than}
use mail_keep.Imap.Adapter.{ImapAdapter, imap_port, tracked_accounts}
use mail_keep.Imap.Leaks.{NoLeak, stop-NoLeak, untracked_idle, imap_port-PortLaws}
use mail_keep.Imap.Service.{Syncing, enabled_accounts, port_stop, stop_each, ids_or_none, stop_all}

none_left : (ids : List ℕ) → ((i : ℕ) → In i ids → ⊥) → ids ≡ []
none_left [] h = refl
none_left (i ∷ ids) h = absurd (h i (inl refl))

module _ {S : Type 0} (port : ImapPort S) (laws : PortLaws port) (decrypt : ℕ → Text → Result Text)
    (describe : Error → Text) (now : ℕ) where
  abbrev pub Tracks : ℕ → Syncing S → Type 0
  Tracks i s = In i (port.tracked_accounts s.port)

  pub still_tracked :
      (id i : ℕ) (s : Syncing S)
      → Tracks i (port_stop port decrypt describe now id s).1
      → Tracks i s × ((i ≡ id) → ⊥)
  unfolding port_stop
  still_tracked id i s h =
      let k : In i (others_than id (port.tracked_accounts s.port)) =
        rw (laws.stops id s.port) at h in
      (
        In-select (λ j. not (j == id)) i (port.tracked_accounts s.port) k,
        λ e.
            ground
              (arith, select-matches (λ j. not (j == id)) i (port.tracked_accounts s.port) k, e),
      )

  left_tracked :
      (ids : List ℕ) (i : ℕ) (s : Syncing S)
      → Tracks i (stop_each port decrypt describe now ids s)
      → Tracks i s × (In i ids → ⊥)
  unfolding stop_each
  left_tracked [] i s h = (h, λ e. e)
  left_tracked (id ∷ ids) i s h =
      let (k, others) = left_tracked ids i (port_stop port decrypt describe now id s).1 h in
      let (before, ne) = still_tracked id i s k in
      (before, λ e. elim e [ inl q ↦ ne q | inr q ↦ others q ])

  all_stopped :
      (ids : List ℕ) (s : Syncing S)
      → port.tracked_accounts
          (stop_each port decrypt describe now (ids ++ port.tracked_accounts s.port) s).port
        ≡ []
  all_stopped ids s = none_left _ (λ i h.
      let (before, gone) = left_tracked (ids ++ port.tracked_accounts s.port) i s h in
      gone (In-append_right i ids (port.tracked_accounts s.port) before))

module _ (decrypt : ℕ → Text → Result Text) (describe : Error → Text) (now : ℕ) where
  stop_each-NoLeak :
      (ids : List ℕ) (s : Syncing ImapAdapter)
      → NoLeak s.port
      → NoLeak (stop_each imap_port decrypt describe now ids s).port
  unfolding stop_each port_stop imap_port
  stop_each-NoLeak [] s h = h
  stop_each-NoLeak (id ∷ ids) s h =
      stop_each-NoLeak ids (port_stop imap_port decrypt describe now id s).1
        (stop-NoLeak id s.port h)

  -- Shutting down succeeds whatever fails in the database, and afterwards no account is tracked and
  -- no task runs. No task runs without its handle at the start.
  pub stop_all-Stops :
      (s : Syncing ImapAdapter)
      → NoLeak s.port
      → let (r, after) = stop_all imap_port decrypt describe now s in
        (r ≡ ok tt) × (tracked_accounts after.port ≡ []) × (after.port.running ≡ [])
  unfolding stop_all enabled_accounts tracked_accounts imap_port
  stop_all-Stops s h =
      let (r, s') = enabled_accounts imap_port decrypt describe now s in
      let ids = ids_or_none imap_port decrypt describe now r in
      let empty : tracked_accounts (stop_all imap_port decrypt describe now s).1.port ≡ [] =
        all_stopped imap_port imap_port-PortLaws decrypt describe now ids s' in
      (
        refl,
        empty,
        untracked_idle (stop_all imap_port decrypt describe now s).1.port
            (stop_each-NoLeak (ids ++ tracked_accounts s'.port) s' h) empty,
      )
