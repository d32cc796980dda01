-- ===== src/Imap/Driven.antt =====
-- The loop of `reconcile_statuses` in crates/core/src/imap/service.rs over the enabled accounts.
use mail_keep.Base.{
  Text, ℕ, ◌≡◌, ◌≢◌, refl, sym, ap, ◌∙◌, inl, inr, Bool, none, some, List, [], ◌∷◌, ==_refl, All,
  arith, Bool-cases,
}
use mail_keep.Error.{Error}
use mail_keep.Sql.{Result}
use mail_keep.Sql.Table.{select, find_by_id, Unique}
use mail_keep.Accounts.{Account}
use mail_keep.Accounts.Store.{Accounts, account_id}
use mail_keep.Folders.Store.{FolderTable}
use mail_keep.Imap.Port.{ImapPort}
use mail_keep.Imap.Service.{Syncing, reconcile_each}
use mail_keep.Imap.Start.{steady}
use mail_keep.Imap.Reconcile.{Stored, answered-Driven}

-- no two accounts of a list have one id
abbrev pub Distinct : List Account → Type 0
Distinct [] = Unit {0}
Distinct (a ∷ accounts) = All (λ (b : Account). b.id ≢ a.id) accounts × Distinct accounts

pub select-All :
    (P : Account → Type 0) (p : Account → Bool) (l : List Account) → All P l → All P (select p l)
select-All P p [] h = tt
select-All P p (a ∷ l) (h, k) = elim (Bool-cases (p a)) [
  | inl e ↦ rw e (h, select-All P p l k)
  | inr e ↦ rw e (select-All P p l k)
]

pub select-Distinct : (p : Account → Bool) (l : List Account) → Distinct l → Distinct (select p l)
select-Distinct p [] h = tt
select-Distinct p (a ∷ l) (h, k) = elim (Bool-cases (p a)) [
  | inl e ↦ rw e (select-All (λ b. b.id ≢ a.id) p l h, select-Distinct p l k)
  | inr e ↦ rw e (select-Distinct p l k)
]

absent_apart :
    (i : ℕ) (l : List Account)
    → find_by_id account_id i l ≡ none
    → All (λ (b : Account). b.id ≢ i) l
absent_apart i [] h = tt
absent_apart i (a ∷ l) h = ((λ e. ground (arith, h, e)), absent_apart i l (ground (arith, h)))

pub Unique-Distinct : (l : List Account) → Unique account_id l → Distinct l
Unique-Distinct [] u = tt
Unique-Distinct (a ∷ l) (fresh, u) = (absent_apart a.id l fresh, Unique-Distinct l u)

-- each row is the one that its id finds
pub Found : Accounts → Account → Type 0
Found rows a = find_by_id account_id a.id rows ≡ some a

still_first :
    (x : Account) (rows l : List Account)
    → All (λ (b : Account). b.id ≢ x.id) l
    → All (Found rows) l
    → All (Found (x ∷ rows)) l
unfolding Found
still_first x rows [] ne h = tt
still_first x rows (a ∷ l) (d, ne) (h, k) =
    (ground (arith, h, λ (e : a.id ≡ x.id). d e), still_first x rows l ne k)

pub each_first : (rows : Accounts) → Unique account_id rows → All (Found rows) rows
unfolding Found
each_first [] u = tt
each_first (x ∷ rows) (fresh, u) = (
  rw (==_refl x.id) refl,
  still_first x rows rows (absent_apart x.id rows fresh) (each_first rows u),
)

module _ {S : Type 0} (port : ImapPort S) (decrypt : ℕ → Text → Result Text)
    (describe : Error → Text) (now : ℕ) where
  -- what the loop leaves of the accounts in a list
  abbrev pub AllDriven : List Account → Accounts → FolderTable → S → Syncing S → Type 0
  AllDriven accounts rows t p s =
      (rows' : Accounts) × (n : ℕ) × (s ≡ steady rows' n t p)
      × All (λ a. Stored rows' a (port.status a.id p)) accounts
      × ((j : ℕ)
          → All (λ (b : Account). b.id ≢ j) accounts
          → find_by_id account_id j rows' ≡ find_by_id account_id j rows)

  still_Found :
      (x : Account) (rows rows' l : List Account)
      → ((j : ℕ) → j ≢ x.id → find_by_id account_id j rows' ≡ find_by_id account_id j rows)
      → All (λ (b : Account). b.id ≢ x.id) l
      → All (Found rows) l
      → All (Found rows') l
  unfolding Found
  still_Found x rows rows' [] same ne h = tt
  still_Found x rows rows' (a ∷ l) same (d, ne) (h, k) =
      (same a.id d ∙ h, still_Found x rows rows' l same ne k)

  pub reconcile_each-AllDriven :
      (accounts : List Account) (rows : Accounts) (n : ℕ) (t : FolderTable) (p : S)
      → Distinct accounts
      → All (λ (a : Account). a.id ≢ 0) accounts
      → All (Found rows) accounts
      → AllDriven accounts rows t p
          (reconcile_each port decrypt describe now accounts (steady rows n t p))
  unfolding reconcile_each Found
  reconcile_each-AllDriven [] rows n t p d nz found = (rows, n, refl, tt, λ j ne. refl)
  reconcile_each-AllDriven (a ∷ accounts) rows n t p (apart, d) (z, nz) (f, found) =
      let (rows', m, e, (row, here, follows), others) =
        answered-Driven port decrypt describe now a (port.status a.id p) rows n t p refl z f in
      let (rows'', k, e', stored, rest) =
        reconcile_each-AllDriven accounts rows' m t p d nz
          (still_Found a rows rows' accounts others apart found) in
      (
        rows'',
        k,
        ap (reconcile_each port decrypt describe now accounts) e ∙ e',
        ((row, rest a.id apart ∙ here, follows), stored),
        λ j (ne, nes). rest j nes ∙ others j (λ q. ne (sym q)),
      )
