-- ===== src/Parser/Stored.antt =====
-- Laws of crates/parser/src/handler.rs: what a parse job that succeeds has archived.
use mail_keep.Base.{
  ℕ, ◌≡◌, ◌≢◌, refl, sym, ap, ◌∙◌, true, ◌&&◌, ◌||◌, Option, none, some, List, [], ◌∷◌, ◌==◌,
  ==_refl, All, String, Text, text_eq, text_eq_refl, arith,
}
use mail_keep.Sql.{Result, ok, err, Tx, quiet}
use mail_keep.Sql.Table.{find_first}
use mail_keep.Messages.Model.{ContentHash, ParsedAttachment, RecordedMessage}
use mail_keep.Messages.Store.{Mail, MessageRow, has_content}
use mail_keep.Messages.Record.{Drawn, record_parsed_message}
use mail_keep.Messages.Again.{record_parsed_message-has_content}
use mail_keep.Storage.HashLaws.{IsHash}
use mail_keep.Storage.Disk.{Disk, FilePath, File, call, call_with, next, content_at}
use mail_keep.Storage.Blobs.{get}
use mail_keep.Storage.Integrity.{Outside, blob, IsSound, put, put_if_absent-IsSound}
use mail_keep.Storage.Keys.{keys, keys-put}
use mail_keep.Parser.{
  ExtractedAttachment, ParsedEml, ParseMessageJob, Shelf, parsed_message, push_attachment,
  store_next, store_attachments, nothing_of, record_stored, handle_parsed, handle_raw, handle_job,
}

module _ (o : Outside) (raw_root root : FilePath) (account : ℕ) where
  abbrev Kept : Disk → ExtractedAttachment → Type 0
  Kept d a = keys o root d account (o.sha256 a.bytes) ≡ true

  -- the keys of a disk are on another one
  abbrev Grows : Disk → Disk → Type 0
  Grows d e =
      (h : Text) → IsHash h → keys o root d account h ≡ true → keys o root e account h ≡ true

  push_disk :
      (a : ExtractedAttachment) (hash : ContentHash) (y : Result (List ParsedAttachment) × Disk)
      → (push_attachment o raw_root root a hash y).1 ≡ y.1
  push_disk a hash (ok more, d) = refl
  push_disk a hash (err e, d) = refl

  push_ok :
      (a : ExtractedAttachment) (hash : ContentHash) (y : Result (List ParsedAttachment) × Disk)
      (ps : List ParsedAttachment)
      → (push_attachment o raw_root root a hash y).0 ≡ ok ps
      → (qs : List ParsedAttachment) × (y.0 ≡ ok qs)
  push_ok a hash (ok more, d) ps h = (more, refl)
  push_ok a hash (err e, d) ps h = ground (arith, h)

  abbrev AllKept : List ExtractedAttachment → Disk → Result (List ParsedAttachment) × Disk → Type 0
  AllKept attachments d x = Grows d x.1 × All (Kept x.1) attachments

  along_disk :
      (attachments : List ExtractedAttachment) (d e f : Disk)
      → f ≡ e
      → (Grows d e × All (Kept e) attachments)
      → Grows d f × All (Kept f) attachments
  along_disk attachments d e f same h = rw same h

  -- one turn of the loop
  next_kept :
      (a : ExtractedAttachment) (rest : List ExtractedAttachment) (d : Disk)
      (x : Result Text × Disk) (ps : List ParsedAttachment)
      → ((g : Text)
          → x.0 ≡ ok g
          → (h : Text) → IsHash h
          → keys o root x.1 account h
            ≡ (keys o root d account h || (account == account && text_eq h (o.sha256 a.bytes))))
      → ((qs : List ParsedAttachment)
          → (store_attachments o raw_root root account rest x.1).0 ≡ ok qs
          → AllKept rest x.1 (store_attachments o raw_root root account rest x.1))
      → (store_next o raw_root root a x (store_attachments o raw_root root account rest)).0 ≡ ok ps
      → AllKept
          (a ∷ rest)
          d
          (store_next o raw_root root a x (store_attachments o raw_root root account rest))
  next_kept a rest d (err e, d1) ps put_law later h = ground (arith, h)
  next_kept a rest d (ok g, d1) ps put_law later h =
      let y = store_attachments o raw_root root account rest d1 in
      let (qs, q) = push_ok a g y ps h in
      let (grows, all_kept) = later qs q in
      let hash = o.sha256 a.bytes in
      let size = o.sha256_size a.bytes in
      let here : keys o root d1 account hash ≡ true =
        ground (arith, put_law g refl hash size, ==_refl account, text_eq_refl hash) in
      along_disk (a ∷ rest) d y.1 (push_attachment o raw_root root a g y).1 (push_disk a g y) (
        λ k i there. grows k i (ground (arith, put_law g refl k i, there)),
        (grows hash size here, all_kept),
      )

  stored_kept :
      (attachments : List ExtractedAttachment) (d : Disk) (ps : List ParsedAttachment)
      → IsSound o root d.files
      → (store_attachments o raw_root root account attachments d).0 ≡ ok ps
      → AllKept attachments d (store_attachments o raw_root root account attachments d)
  unfolding store_attachments
  stored_kept [] d ps s h = (λ k i there. there, _)
  stored_kept (a ∷ rest) d ps s h =
      let x = put o root account a.bytes d in
      next_kept a rest d x ps (λ g e k i. keys-put o root account a.bytes d g s e account k i)
        (λ qs e. stored_kept rest x.1 qs (put_if_absent-IsSound o root account a.bytes d s) e) h

module _ (o : Outside) (raw_root root : FilePath) where
  -- the attachments have blobs, and the message is in the tables
  abbrev pub IsArchived : ParseMessageJob → ParsedEml → Shelf → Type 0
  IsArchived job p s =
      All (λ a. keys o root s.disk job.account_id (o.sha256 a.bytes) ≡ true) p.attachments
      × (w : MessageRow) × (find_first (has_content job.account_id job.content_hash)
            s.mail.tables.messages
          ≡ some w)

  nothing_ok :
      (y : Result RecordedMessage × Tx Mail) (d : Disk)
      → (nothing_of o raw_root root y d).0 ≡ ok tt
      → (r : RecordedMessage) × (y.0 ≡ ok r)
  nothing_ok (ok r, m) d h = (r, refl)
  nothing_ok (err e, m) d h = ground (arith, h)

  nothing_shelf :
      (y : Result RecordedMessage × Tx Mail) (d : Disk)
      → (nothing_of o raw_root root y d).1 ≡ record { disk = d; mail = y.1 }
  nothing_shelf (ok r, m) d = refl
  nothing_shelf (err e, m) d = refl

  along_shelf :
      (job : ParseMessageJob) (p : ParsedEml) (s u : Shelf)
      → s ≡ u
      → IsArchived job p u
      → IsArchived job p s
  along_shelf job p s u e h = rw e h

  record_end :
      (drawn : Drawn) (job : ParseMessageJob) (p : ParsedEml) (d : Disk) (t : Mail)
      (x : Result (List ParsedAttachment) × Disk)
      → job.account_id ≢ 0
      → ((ps : List ParsedAttachment)
          → x.0 ≡ ok ps
          → AllKept o raw_root root job.account_id p.attachments d x)
      → (record_stored o raw_root root drawn job p x (quiet t)).0 ≡ ok tt
      → IsArchived job p (record_stored o raw_root root drawn job p x (quiet t)).1
  unfolding record_stored parsed_message
  record_end drawn job p d t (err e, d1) na kept h = ground (arith, h)
  record_end drawn job p d t (ok ps, d1) na kept h =
      let parsed = parsed_message job.content_hash p ps in
      let y = record_parsed_message drawn job.account_id job.place parsed (quiet t) in
      let (r, q) = nothing_ok y d1 h in
      let (w, found, same) =
        record_parsed_message-has_content drawn job.account_id job.place parsed t r na q in
      along_shelf job p (nothing_of o raw_root root y d1).1 (record { disk = d1; mail = y.1 })
        (nothing_shelf y d1) ((kept ps refl).1, w, found)

  raw_end :
      (parse_eml : ContentHash → Text → Result ParsedEml) (drawn : Drawn) (job : ParseMessageJob)
      (p : ParsedEml) (t : Mail) (raw : Text) (x : Result Text × Disk)
      → IsSound o root x.1.files
      → job.account_id ≢ 0
      → x.0 ≡ ok raw
      → parse_eml job.content_hash raw ≡ ok p
      → (handle_raw o raw_root root parse_eml drawn job x (quiet t)).0 ≡ ok tt
      → IsArchived job p (handle_raw o raw_root root parse_eml drawn job x (quiet t)).1
  unfolding handle_parsed
  raw_end parse_eml drawn job p t raw (err e, d) s na r k h = ground (arith, r)
  raw_end parse_eml drawn job p t raw (ok bytes, d) s na r k h =
      let same : bytes ≡ raw = ground (arith, r) in
      let answer : parse_eml job.content_hash bytes ≡ ok p = rw same k in
      let x = store_attachments o raw_root root job.account_id p.attachments d in
      let done : (record_stored o raw_root root drawn job p x (quiet t)).0 ≡ ok tt =
        rw answer at h in
      rw answer (
        record_end drawn job p d t x na
          (λ ps e. stored_kept o raw_root root job.account_id p.attachments d ps s e) done)

  IsSound-files : (fs gs : List File) → fs ≡ gs → IsSound o root fs → IsSound o root gs
  IsSound-files fs gs e s a h x i c = s a h x i (ap (content_at (blob o root a h)) e ∙ c)

  read_files :
      (account : ℕ) (l : List (Option String)) (r : Result Text) (d : Disk)
      → let x = call_with l (r, d.files) d in
        (next x.0 (λ bytes e. (o.decrypt account bytes, e)) x.1).1.files ≡ d.files
  read_files account [] (ok b) d = refl
  read_files account [] (err e) d = refl
  read_files account (none ∷ l) (ok b) d = refl
  read_files account (none ∷ l) (err e) d = refl
  read_files account (some e ∷ l) r d = refl

  get_files :
      (account : ℕ) (h : Text) (d : Disk)
      → (get o.decimal raw_root o.decrypt account h d).1.files ≡ d.files
  unfolding get call
  get_files account h d = read_files account d.faults _ d

  -- A parse job that succeeds has archived its message under the hash of the job, and has stored a
  -- blob for each attachment that the parser found. The blob of the raw message was read and parsed,
  -- every blob of an attachment decrypted to a plaintext of its hash before, the account's id is not
  -- 0, and the database does not fail, while the file system may.
  pub handle_job-IsArchived :
      (parse_eml : ContentHash → Text → Result ParsedEml) (drawn : Drawn) (job : ParseMessageJob)
      (p : ParsedEml) (d : Disk) (t : Mail) (raw : Text)
      → IsSound o root d.files
      → job.account_id ≢ 0
      → (get o.decimal raw_root o.decrypt job.account_id job.content_hash d).0 ≡ ok raw
      → parse_eml job.content_hash raw ≡ ok p
      → (handle_job o raw_root root parse_eml drawn job (record { disk = d; mail = quiet t })).0
        ≡ ok tt
      → IsArchived job p
          (handle_job o raw_root root parse_eml drawn job (record { disk = d; mail = quiet t })).1
  unfolding handle_job
  handle_job-IsArchived parse_eml drawn job p d t raw s na r k h =
      let x = get o.decimal raw_root o.decrypt job.account_id job.content_hash d in
      let same = get_files job.account_id job.content_hash d in
      raw_end parse_eml drawn job p t raw x (IsSound-files d.files x.1.files (sym same) s) na r k h
