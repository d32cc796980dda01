-- ===== src/Search/Tests.antt =====
-- Searches at concrete inputs, over two accounts of a user and one of another.
use mail_keep.Base.{
  ℕ, ℤ, pos, ◌+◌, ◌≤◌, ◌≡◌, ◌↔◌, refl, sym, true, false, none, some, Option, List, [], ◌∷◌, In, All,
  length, Text, codes, arith, Bool,
}
use mail_keep.Sql.{Result, ok, Tx, quiet}
use mail_keep.Sql.Table.{select}
use mail_keep.Sql.Order.{limit, In-limit, select-matches}
use mail_keep.Accounts.{Account, pending_first_sync, tls}
use mail_keep.Messages.Store.{MessageRow}
use mail_keep.Search.Query.{scan_char, is_whitespace}
use mail_keep.Search.Scope.{resolve_scope, ids_of}
use mail_keep.Search.ScopeLaws.{Obeys, resolve_scope_iff}
use mail_keep.Search.Compile.{Ask, Document, is_match}
use mail_keep.Search.Service.{Archive, SearchHit, SearchResults, search}
use mail_keep.Search.Answers.{IsUsers}
use mail_keep.Search.Safety.{search_scope}

abbrev account_of : ℕ → ℕ → Text → Account
account_of id user name = record {
  id = id;
  version = 1;
  user_id = user;
  display_name = name;
  email_address = [];
  server = record { host = []; port = 993; mode = tls };
  username = [];
  credentials = [];
  enabled = true;
  status = pending_first_sync;
  last_error = none;
  last_synced_at = none;
  created_at = 10;
  updated_at = 10;
}

abbrev message_row_of : ℕ → ℕ → MessageRow
message_row_of id account = record {
  message = record {
    id = id;
    version = 1;
    account_id = account;
    rfc822_message_id = "x@y";
    content_hash = id ∷ [];
    subject = none;
    from_address = "a@b";
    from_name = none;
    to_addresses = [];
    cc_addresses = [];
    bcc_addresses = [];
    reply_to_addresses = [];
    sent_date = none;
    in_reply_to = none;
    references = [];
    snippet = "hi";
    size_bytes = 100;
    has_attachments = false;
    attachment_count = 0;
    created_at = 30;
    updated_at = 30;
  };
  indexed = true;
}

abbrev an_archive : Archive
an_archive = record {
  mail = record {
    accounts =
        account_of 1 7 (codes "work")
        ∷ account_of 2 7 (codes "home")
        ∷ account_of 3 8 (codes "work")
        ∷ [];
    messages = message_row_of 31 1 ∷ message_row_of 32 2 ∷ message_row_of 33 3 ∷ [];
    attachments = [];
    locations = [];
  };
  folders = [];
}

abbrev no_dates : Text → Option ℕ
no_dates _ = none

abbrev same_text : Text → Text
same_text s = s

abbrev one_token : Text → List Text
one_token s = s ∷ []

abbrev start_of : ℕ → ℤ
start_of d = pos d

abbrev next_of : ℕ → Option ℕ
next_of d = some (d + 1)

abbrev every_leaf : Ask → Document → Bool
every_leaf q d = true

abbrev document_of : ℕ → ℕ → Document
document_of id account = record { message_id = some id; account_id = some account; snippet = none }

abbrev documents : List Document
documents = document_of 31 1 ∷ document_of 32 2 ∷ document_of 33 3 ∷ []

-- an index that goes through its documents
abbrev small_index : Ask → ℕ → Result (ℕ × List Document)
small_index q n = ok (
  length (select (λ d. is_match every_leaf d q) documents),
  limit n (select (λ d. is_match every_leaf d q) documents),
)

small_index-matches :
    (q : Ask) (n total : ℕ) (docs : List Document)
    → small_index q n ≡ ok (total, docs)
    → (d : Document) → In d docs
    → is_match every_leaf d q ≡ true
small_index-matches q n total docs e d i =
    let found = select (λ d. is_match every_leaf d q) documents in
    let same : limit n found ≡ docs = ground (arith, e) in
    let j : In d (limit n found) = rw (sym same) at i in
    select-matches (λ d. is_match every_leaf d q) d documents (In-limit n d found j)

abbrev run : Text → Result SearchResults × Tx Archive
run text =
    search no_dates same_text one_token start_of next_of small_index 7 text 10 0 (quiet an_archive)

abbrev hit : ℕ → ℕ → SearchHit
hit id account = record { message_id = id; account_id = account; snippet = [] }

found_hello : (run (codes "hello")).0 ≡ ok (record { total = 2; hits = hit 31 1 ∷ hit 32 2 ∷ [] })
unfolding search scan_char is_whitespace is_match
found_hello = refl

search_scope_example : (2 ≤ 10) × All (IsUsers an_archive 7) (hit 31 1 ∷ hit 32 2 ∷ [])
search_scope_example =
    search_scope no_dates same_text one_token start_of next_of small_index every_leaf
      small_index-matches an_archive 7 (codes "hello") 10 0 []
      (record { total = 2; hits = hit 31 1 ∷ hit 32 2 ∷ [] }) found_hello

resolve_scope_iff_example :
    let accounts = account_of 1 7 (codes "work") ∷ account_of 2 7 (codes "home") ∷ [] in
    In 1 (resolve_scope same_text accounts ((false, codes "work") ∷ []))
    ↔ (In 1 (ids_of accounts) × All (Obeys same_text accounts 1) ((false, codes "work") ∷ []))
resolve_scope_iff_example =
    resolve_scope_iff same_text (account_of 1 7 (codes "work") ∷ account_of 2 7 (codes "home") ∷ [])
      ((false, codes "work") ∷ []) 1

-- a hint on an account is not heeded by a listing that only excludes folders
listed_elsewhere :
    (run (codes "account:work !folder:junk")).0
    ≡ ok (record {
      total = 2;
      hits =
          record { message_id = 32; account_id = 2; snippet = codes "hi" }
          ∷ record { message_id = 31; account_id = 1; snippet = codes "hi" }
          ∷ [];
    })
unfolding search scan_char is_whitespace is_match
listed_elsewhere = refl
