-- ===== src/Users/Sessions.antt =====
-- crates/database/src/adapters/session.rs: the web sessions over their table. `is_anonymous` is the
-- database's test that the text of a session contains `"data":{}`.
use mail_keep.Base.{
  Text, text_eq, ℕ, ◌+◌, ◌*◌, Bool, ◌&&◌, ◌||◌, Option, none, some, List, [], ◌∷◌, ◌++◌, ltb, any,
  if◌then◌else◌, length, map,
}
use mail_keep.Error.{RepositoryError, repository_error}
use mail_keep.Jobs.{seconds}
use mail_keep.Sql.{Sql, pure, statement, query, ok_or, ◌>>=◌}
use mail_keep.Sql.Table.{select, update_many, delete_many, find_first, matching}

-- `Session`
pub record Session : Type 0 where
  pub id : Text
  pub session : Text
  pub expires_at : ℕ
  pub created_at : ℕ

-- `NewSession`
pub record NewSession : Type 0 where
  pub id : Text
  pub session : Text
  pub expires_at : ℕ

abbrev pub SessionTable : Type 0
SessionTable = List Session

abbrev pub has_id : Text → Session → Bool
has_id id s = text_eq s.id id

-- `find_by_id(id).one()`
abbrev pub find_session : Text → SessionTable → Option Session
find_session id t = find_first (has_id id) t

-- `count`
unfoldable pub count : Sql SessionTable ℕ
unfolding query
count = query length

abbrev pub first_session : ℕ → NewSession → Session
first_session now new = record {
  id = new.id;
  session = new.session;
  expires_at = new.expires_at;
  created_at = now;
}

abbrev pub renew : NewSession → Session → Session
renew new s = record s { session = new.session; expires_at = new.expires_at }

-- the INSERT of `store`, with its ON CONFLICT clause
unfoldable pub insert_or_update : ℕ → NewSession → SessionTable → SessionTable
insert_or_update now new t =
    if any (has_id new.id) t
    then update_many (has_id new.id) (renew new) t
    else t ++ first_session now new ∷ []

-- `store`
unfoldable pub store : ℕ → NewSession → Sql SessionTable Session
unfolding insert_or_update statement query ok_or
store now new = do
  _ ← statement (λ t. (tt, insert_or_update now new t))
  stored ← query (find_session new.id)
  ok_or stored (repository_error RepositoryError.not_found)

-- `load`
unfoldable pub load : Text → Sql SessionTable (Option Session)
unfolding query
load id = query (find_session id)

-- the deletion of a row that was found
abbrev pub delete_found : Text → Option Session → Sql SessionTable (Unit {0})
delete_found id none = pure tt
delete_found id (some s) = statement (λ t. (tt, delete_many (has_id id) t))

-- `delete_by_id`
unfoldable pub delete_session : Text → Sql SessionTable (Unit {0})
unfolding query statement pure
delete_session id = do existing ← query (find_session id); delete_found id existing

-- `exists`
unfoldable pub session_exists : Text → Sql SessionTable Bool
unfolding query
session_exists id = query (λ t. ltb 0 (matching (has_id id) t))

module _ (is_anonymous : Text → Bool) where
  -- the condition of `delete_by_expiry`: expired, or anonymous and older than 48 hours
  unfoldable pub is_stale : ℕ → Session → Bool
  is_stale now s =
      ltb s.expires_at now
      || (is_anonymous s.session && ltb (s.created_at + seconds (48 * 3600)) now)

  -- `delete_by_expiry`
  unfoldable pub delete_by_expiry : ℕ → Sql SessionTable (List Text)
  unfolding is_stale query statement pure
  delete_by_expiry now = do
    ids ← query (λ t. map (λ (s : Session). s.id) (select (is_stale now) t))
    _ ← statement (λ t. (tt, delete_many (is_stale now) t))
    pure ids

-- `delete_all`
unfoldable pub delete_all : Sql SessionTable (Unit {0})
unfolding statement
delete_all = statement (λ t. (tt, []))

-- `get_ids`
unfoldable pub get_ids : Sql SessionTable (List Text)
unfolding query
get_ids = query (λ t. map (λ (s : Session). s.id) t)
