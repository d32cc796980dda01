-- ===== src/Imap/Converge.antt =====
-- What one call of `reconcile_statuses` in crates/core/src/imap/service.rs reaches.
use mail_keep.Base.{
  Text, ℕ, ◌≡◌, ◌≢◌, refl, ap, ◌∙◌, inl, inr, ◌⊎◌, true, List, [], ◌∷◌, ◌==◌, ==_iff, any,
  any_found, In, All, All-In, arith, Bool-cases,
}
use mail_keep.Error.{Error}
use mail_keep.Sql.{Result, ok, err, read_only_transaction, statement, query}
use mail_keep.Sql.Table.{select, Unique}
use mail_keep.Accounts.{Account}
use mail_keep.Accounts.Store.{Accounts, account_id, list_enabled}
use mail_keep.Accounts.Service.{service_list_enabled}
use mail_keep.Folders.Store.{FolderTable}
use mail_keep.Imap.Port.{ImapPort, PortLaws}
use mail_keep.Imap.Service.{
  Syncing, account_ids, reconcile_each, port_stop, reclaim, reconcile_statuses, enabled_accounts,
}
use mail_keep.Imap.Shutdown.{still_tracked}
use mail_keep.Imap.Start.{steady}
use mail_keep.Imap.Reconcile.{Stored}
use mail_keep.Imap.Driven.{
  select-All, select-Distinct, Unique-Distinct, Found, each_first, reconcile_each-AllDriven,
}

module _ {S : Type 0} (port : ImapPort S) (laws : PortLaws port) (decrypt : ℕ → Text → Result Text)
    (describe : Error → Text) (now : ℕ) where
  reclaim_accounting :
      (enabled ids : List ℕ) (s : Syncing S)
      → (reclaim port decrypt describe now enabled ids s).accounting ≡ s.accounting
  unfolding reclaim port_stop
  reclaim_accounting enabled [] s = refl
  reclaim_accounting enabled (id ∷ ids) s = elim (Bool-cases (any (λ i. i == id) enabled)) [
    | inl e ↦ rw (reclaim, e) (reclaim_accounting enabled ids s)
    | inr e ↦
        rw (reclaim, e)
          (reclaim_accounting enabled ids (port_stop port decrypt describe now id s).1)
  ]

  reclaimed :
      (enabled ids : List ℕ) (i : ℕ) (s : Syncing S)
      → In i (port.tracked_accounts (reclaim port decrypt describe now enabled ids s).port)
      → In i (port.tracked_accounts s.port) × ((any (λ j. j == i) enabled ≡ true) ⊎ (In i ids → ⊥))
  unfolding reclaim
  reclaimed enabled [] i s h = (h, inr (λ e. e))
  reclaimed enabled (id ∷ ids) i s h = elim (Bool-cases (any (λ j. j == id) enabled)) [
    | inl e ↦
        let (k, why) = reclaimed enabled ids i s (rw (reclaim, e) at h) in
        (
          k,
          elim why [
            | inl q ↦ inl q
            | inr gone ↦ elim (Bool-cases (any (λ j. j == i) enabled)) [
              | inl q ↦ inl q
              | inr q ↦ inr (λ m. elim m [
                | inl same ↦ ground (arith, e, q, ap (λ z. any (λ j. j == z) enabled) same)
                | inr m' ↦ gone m'
              ])
            ]
          ],
        )
    | inr e ↦
        let s' = (port_stop port decrypt describe now id s).1 in
        let (k, why) = reclaimed enabled ids i s' (rw (reclaim, e) at h) in
        let (before, ne) = still_tracked port laws decrypt describe now id i s k in
        (
          before,
          elim why [
            | inl q ↦ inl q
            | inr gone ↦ inr (λ m. elim m [ inl same ↦ ne same | inr m' ↦ gone m' ])
          ],
        )
  ]

  any-In : (i : ℕ) (ids : List ℕ) → any (λ j. j == i) ids ≡ true → In i ids
  any-In i ids h =
      let (j, m, e) = any_found (λ j. j == i) ids h in let q : j ≡ i = (==_iff j i).0 e in rw q at m

  -- what `reconcile_statuses` makes of the accounts that are enabled
  abbrev pub after_list : Result (List Account) × Syncing S → Result (Unit {0}) × Syncing S
  after_list x = elim x.0 [
    | err e ↦ (err e, x.1)
    | ok enabled ↦
        let s = reconcile_each port decrypt describe now enabled x.1 in
        (
          ok tt,
          reclaim port decrypt describe now (account_ids enabled) (port.tracked_accounts s.port) s,
        )
  ]

  abbrev pub enabled_in : Accounts → List Account
  enabled_in rows = select (λ a. a.enabled) rows

  listed :
      (rows : Accounts) (n : ℕ) (t : FolderTable) (p : S)
      → reconcile_statuses port decrypt describe now (steady rows n t p)
        ≡ after_list (ok (enabled_in rows), steady rows n t p)
  unfolding reconcile_statuses enabled_accounts service_list_enabled list_enabled
      read_only_transaction statement query
  listed rows n t p = refl

  unfoldable pub Reconciled : Accounts → S → Result (Unit {0}) × Syncing S → Type 0
  Reconciled rows p x =
      (x.0 ≡ ok tt)
      × All (λ a. Stored x.1.accounting.tx.tables a (port.status a.id p)) (enabled_in rows)
      × All (λ i. In i (account_ids (enabled_in rows))) (port.tracked_accounts x.1.port)

  after_each :
      (rows rows' : Accounts) (m : ℕ) (t : FolderTable) (p : S) (s : Syncing S)
      → s ≡ steady rows' m t p
      → All (λ a. Stored rows' a (port.status a.id p)) (enabled_in rows)
      → let ids = account_ids (enabled_in rows) in
        Reconciled rows p
          (ok tt, reclaim port decrypt describe now ids (port.tracked_accounts s.port) s)
  unfolding Reconciled
  after_each rows rows' m t p s e stored =
      let ids = account_ids (enabled_in rows) in
      let after = reclaim port decrypt describe now ids (port.tracked_accounts s.port) s in
      let kept : after.accounting.tx.tables ≡ rows' =
        ap (λ z. z.tx.tables) (reclaim_accounting ids (port.tracked_accounts s.port) s)
        ∙ ap (λ z. z.accounting.tx.tables) e in
      (
        refl,
        rw kept stored,
        All-In (λ i. In i ids) (port.tracked_accounts after.port)
            (λ i h.
              let (before, why) = reclaimed ids (port.tracked_accounts s.port) i s h in
              elim why [ inl q ↦ any-In i ids q | inr gone ↦ absurd (gone before) ]),
      )

  -- One call of `reconcile_statuses` succeeds, and afterwards the stored status of every enabled
  -- account is the one that its live status asks for, if it asks for any, and every account that is
  -- tracked is enabled. The ids are unique and not 0, and the database does not fail.
  pub reconcile_statuses_lem :
      (rows : Accounts) (n : ℕ) (t : FolderTable) (p : S)
      → Unique account_id rows
      → All (λ (a : Account). a.id ≢ 0) rows
      → Reconciled rows p (reconcile_statuses port decrypt describe now (steady rows n t p))
  reconcile_statuses_lem rows n t p u nz =
      let (rows', m, e, stored, _) =
        reconcile_each-AllDriven port decrypt describe now (enabled_in rows) rows n t p
          (select-Distinct (λ a. a.enabled) rows (Unique-Distinct rows u))
          (select-All (λ (a : Account). a.id ≢ 0) (λ a. a.enabled) rows nz)
          (select-All (Found rows) (λ a. a.enabled) rows (each_first rows u)) in
      rw (listed rows n t p) (
        after_each rows rows' m t p
          (reconcile_each port decrypt describe now (enabled_in rows) (steady rows n t p)) e stored)
