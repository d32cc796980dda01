-- ===== src/Folders/Cursor.antt =====
-- The cursor of a folder in crates/database/src/adapters/folder.rs.
use mail_keep.Base.{ℕ, ◌+◌, ◌≡◌, ◌≢◌, refl, sym, ap, ◌∙◌, ◌&&◌, some, [], ◌∷◌, ◌==◌, ==_ne, arith}
use mail_keep.Sql.{ok, quiet, statement, query, ok_or, raise}
use mail_keep.Sql.Table.{find_first, find_by_id, update_many}
use mail_keep.Folders.{Folder}
use mail_keep.Folders.Store.{
  FolderTable, folder_key, folder_before_save, change_folder, set_cursor, update_sync_state,
  find_by_id_for_account,
}

find_changed :
    (id account : ℕ) (t : FolderTable) (f g : Folder)
    → find_by_id folder_key id t ≡ some f
    → g.id ≡ id
    → g.account_id ≡ account
    → find_first
        (λ x. x.id == id && x.account_id == account)
        (update_many (λ x. x.id == id) (λ _. g) t)
      ≡ some g
find_changed id account [] f g h ei ea = ground arith
find_changed id account (x ∷ t) f g h ei ea = ground (arith, find_changed id account t f g)

find_other :
    (id other account : ℕ) (t : FolderTable) (g : Folder)
    → other ≢ id
    → g.id ≡ id
    → find_first
        (λ x. x.id == other && x.account_id == account)
        (update_many (λ x. x.id == id) (λ _. g) t)
      ≡ find_first (λ x. x.id == other && x.account_id == account) t
find_other id other account [] g ne ei = refl
find_other id other account (x ∷ t) g ne ei = ground (arith, find_other id other account t g)

id_found : (id : ℕ) (t : FolderTable) (f : Folder) → find_by_id folder_key id t ≡ some f → f.id ≡ id
id_found id [] f h = ground arith
id_found id (x ∷ t) f h = ground (arith, id_found id t f)

change_quiet :
    (now id : ℕ) (change : Folder → Folder) (t : FolderTable) (f : Folder)
    → id ≢ 0
    → find_by_id folder_key id t ≡ some f
    → change_folder now id change (quiet t)
      ≡ (ok tt, quiet (update_many (λ x. x.id == id) (λ _. folder_before_save now (change f)) t))
unfolding change_folder query ok_or statement raise
change_quiet now id change t f nz found = rw (change_folder, ==_ne id 0 nz, found) refl

find_quiet :
    (account id : ℕ) (t : FolderTable)
    → account ≢ 0
    → id ≢ 0
    → (find_by_id_for_account account id (quiet t)).0
      ≡ ok (find_first (λ x. x.id == id && x.account_id == account) t)
unfolding find_by_id_for_account query statement raise
find_quiet account id t na nz = rw (==_ne account 0 na, ==_ne id 0 nz) refl

-- After a cursor is recorded for a folder, its account finds the folder with this UIDVALIDITY and
-- UID and with the next version, and every other folder as it was. The folder is in the table, the
-- ids are not 0 and the database does not fail.
pub update_sync_state-find_by_id_for_account :
    (now id uidvalidity last_uid at other : ℕ) (t : FolderTable) (f : Folder)
    → id ≢ 0
    → f.account_id ≢ 0
    → find_by_id folder_key id t ≡ some f
    → other ≢ 0
    → other ≢ id
    → let after = (update_sync_state now id uidvalidity last_uid at (quiet t)).1 in
      ((find_by_id_for_account f.account_id id after).0
        ≡ ok (
            some (record f {
              uidvalidity = some uidvalidity;
              last_uid = last_uid;
              last_synced_at = some at;
              version = f.version + 1;
              updated_at = now;
            })))
      × ((find_by_id_for_account f.account_id other after).0
          ≡ (find_by_id_for_account f.account_id other (quiet t)).0)
unfolding update_sync_state set_cursor folder_before_save
update_sync_state-find_by_id_for_account now id uidvalidity last_uid at other t f nz na found
      positive ne =
    let g = folder_before_save now (set_cursor uidvalidity last_uid at f) in
    let same = id_found id t f found in
    rw (change_quiet now id (set_cursor uidvalidity last_uid at) t f nz found) (
      find_quiet f.account_id id (update_many (λ x. x.id == id) (λ _. g) t) na nz
          ∙ ap ok (find_changed id f.account_id t f g found same refl),
      find_quiet f.account_id other (update_many (λ x. x.id == id) (λ _. g) t) na positive
          ∙ ap ok (find_other id other f.account_id t g ne same)
          ∙ sym (find_quiet f.account_id other t na positive),
    )
