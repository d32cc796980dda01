-- ===== src/Messages/Upsert.antt =====
-- Laws of crates/database/src/adapters/message_location.rs.
use mail_keep.Base.{
  ℕ, ◌≡◌, ◌≢◌, refl, Option, none, some, [], ◌∷◌, ◌++◌, ◌==◌, ==_ne, Option-cases, inl, inr, arith,
}
use mail_keep.Sql.{ok, quiet, statement, query, raise}
use mail_keep.Sql.Table.{find_first, update_many, delete_many, matching}
use mail_keep.Messages.Locations.{
  MessageLocation, NewMessageLocationRow, Locations, lies_at, moved_row, first_row, upsert_write,
  upsert, find_by_message_and_folder, delete_by_folder_id,
}

abbrev pub location_id : MessageLocation → ℕ
location_id l = l.id

find_inserted :
    (rows : Locations) (m f : ℕ) (r : MessageLocation)
    → find_first (lies_at m f) rows ≡ none
    → r.message_id ≡ m
    → r.folder_id ≡ f
    → find_first (lies_at m f) (rows ++ r ∷ []) ≡ some r
find_inserted [] m f r h em ef = ground arith
find_inserted (x ∷ rows) m f r h em ef = ground (arith, find_inserted rows m f r)

-- the row that is written over is the one with its id
find_moved :
    (rows : Locations) (m f : ℕ) (old new : MessageLocation)
    → find_first (lies_at m f) rows ≡ some old
    → new.message_id ≡ m
    → new.folder_id ≡ f
    → find_first (lies_at m f) (update_many (λ l. l.id == old.id) (λ _. new) rows) ≡ some new
find_moved [] m f old new h em ef = ground arith
find_moved (x ∷ rows) m f old new h em ef = ground (arith, find_moved rows m f old new)

cleared :
    (rows : Locations) (m f : ℕ)
    → find_first (lies_at m f) (delete_many (λ l. l.folder_id == f) rows) ≡ none
cleared [] m f = refl
cleared (x ∷ rows) m f = ground (arith, cleared rows m f)

kept :
    (rows : Locations) (m f g : ℕ)
    → g ≢ f
    → find_first (lies_at m g) (delete_many (λ l. l.folder_id == f) rows)
      ≡ find_first (lies_at m g) rows
kept [] m f g ne = refl
kept (x ∷ rows) m f g ne = ground (arith, kept rows m f g ne)

find_quiet :
    (m f : ℕ) (rows : Locations)
    → m ≢ 0
    → f ≢ 0
    → find_by_message_and_folder m f (quiet rows) ≡ (ok (find_first (lies_at m f) rows), quiet rows)
unfolding find_by_message_and_folder query statement raise
find_quiet m f rows nm nf = rw (==_ne m 0 nm, ==_ne f 0 nf) refl

-- the row that `upsert` leaves, by what it found
abbrev pub upserted : ℕ → NewMessageLocationRow → Option MessageLocation → MessageLocation
upserted now new none = first_row now new
upserted now new (some found) = moved_row now new found

abbrev pub after_upsert : ℕ → NewMessageLocationRow → Option MessageLocation → Locations → Locations
after_upsert now new none rows = rows ++ first_row now new ∷ []
after_upsert now new (some found) rows =
    update_many (λ l. l.id == found.id) (λ _. moved_row now new found) rows

write_quiet :
    (now : ℕ) (new : NewMessageLocationRow) (o : Option MessageLocation) (rows : Locations)
    → upsert_write now new o (quiet rows)
      ≡ (ok (upserted now new o), quiet (after_upsert now new o rows))
unfolding upsert_write statement
write_quiet now new none rows = refl
write_quiet now new (some found) rows = refl

pub upsert-quiet :
    (now : ℕ) (new : NewMessageLocationRow) (rows : Locations)
    → new.message_id ≢ 0
    → new.folder_id ≢ 0
    → let o = find_first (lies_at new.message_id new.folder_id) rows in
      upsert now new (quiet rows) ≡ (ok (upserted now new o), quiet (after_upsert now new o rows))
unfolding upsert query statement raise
upsert-quiet now new rows nm nf =
    rw (==_ne new.message_id 0 nm, ==_ne new.folder_id 0 nf)
      (write_quiet now new (find_first (lies_at new.message_id new.folder_id) rows) rows)

moved_place :
    (rows : Locations) (m f : ℕ) (old : MessageLocation)
    → find_first (lies_at m f) rows ≡ some old
    → (old.message_id ≡ m) × (old.folder_id ≡ f)
moved_place [] m f old h = ground arith
moved_place (x ∷ rows) m f old h = ground (arith, moved_place rows m f old)

find_upserted :
    (now : ℕ) (new : NewMessageLocationRow) (rows : Locations)
    → let o = find_first (lies_at new.message_id new.folder_id) rows in
      find_first (lies_at new.message_id new.folder_id) (after_upsert now new o rows)
      ≡ some (upserted now new o)
unfolding first_row moved_row
find_upserted now new rows =
    elim (Option-cases (find_first (lies_at new.message_id new.folder_id) rows)) [
      | inl e ↦
          rw e (find_inserted rows new.message_id new.folder_id (first_row now new) e refl refl)
      | inr (old, e) ↦
          let (em, ef) = moved_place rows new.message_id new.folder_id old e in
          rw e (find_moved rows new.message_id new.folder_id old (moved_row now new old) e em ef)
    ]

-- What `upsert` returns is what the message and its folder are found with afterwards, with the new
-- UID, UIDVALIDITY and flags, whether there was a row before or not. The ids are not 0 and the
-- database does not fail.
pub upsert-find_by_message_and_folder :
    (now : ℕ) (new : NewMessageLocationRow) (rows : Locations)
    → new.message_id ≢ 0
    → new.folder_id ≢ 0
    → (r : MessageLocation) × ((upsert now new (quiet rows)).0 ≡ ok r)
      × ((find_by_message_and_folder new.message_id new.folder_id (upsert now new (quiet rows)).1).0
          ≡ ok (some r))
      × (r.uid ≡ new.uid)
      × (r.uidvalidity ≡ new.uidvalidity)
      × (r.flags ≡ new.flags)
unfolding first_row moved_row
upsert-find_by_message_and_folder now new rows nm nf =
    let o = find_first (lies_at new.message_id new.folder_id) rows in
    (
      upserted now new o,
      rw (upsert-quiet now new rows nm nf) refl,
      rw (upsert-quiet now new rows nm nf) (
          rw
            (
              find_quiet new.message_id new.folder_id (after_upsert now new o rows) nm nf,
              find_upserted now new rows,
            )
            refl),
      (fields o).0,
      (fields o).1,
      (fields o).2,
    )
  where
    fields :
        (o : Option MessageLocation)
        → ((upserted now new o).uid ≡ new.uid)
          × ((upserted now new o).uidvalidity ≡ new.uidvalidity)
          × ((upserted now new o).flags ≡ new.flags)
    fields none = (refl, refl, refl)
    fields (some found) = (refl, refl, refl)

delete_quiet :
    (f : ℕ) (rows : Locations)
    → f ≢ 0
    → delete_by_folder_id f (quiet rows) ≡ (
      ok (matching (λ l. l.folder_id == f) rows),
      quiet (delete_many (λ l. l.folder_id == f) rows),
    )
unfolding delete_by_folder_id statement raise
delete_quiet f rows nf = rw (==_ne f 0 nf) refl

-- After the locations of a folder are deleted no message is found in it, and in every other folder
-- each message is found as before. The ids are not 0 and the database does not fail.
pub delete_by_folder_id-find_by_message_and_folder :
    (f : ℕ) (rows : Locations) (m g : ℕ)
    → f ≢ 0
    → m ≢ 0
    → g ≢ 0
    → g ≢ f
    → ((find_by_message_and_folder m f (delete_by_folder_id f (quiet rows)).1).0 ≡ ok none)
      × ((find_by_message_and_folder m g (delete_by_folder_id f (quiet rows)).1).0
          ≡ (find_by_message_and_folder m g (quiet rows)).0)
delete_by_folder_id-find_by_message_and_folder f rows m g nf nm ng ne =
    rw (delete_quiet f rows nf) (
      rw (find_quiet m f (delete_many (λ l. l.folder_id == f) rows) nm nf, cleared rows m f) refl,
      rw
          (
            find_quiet m g (delete_many (λ l. l.folder_id == f) rows) nm ng,
            find_quiet m g rows nm ng,
            kept rows m f g ne,
          )
          refl,
    )
