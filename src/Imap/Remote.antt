-- ===== src/Imap/Remote.antt =====
-- The folders that a server lists: `special_use_from_attributes` of crates/core/src/imap/model.rs,
-- and `normalize_attribute` and `remote_folder_from_name` of crates/imap/src/adapter.rs. Paths and
-- attributes are texts.
use mail_keep.Base.{
  Text, codes, text_eq, ascii_lower, eq_ignore_ascii_case, Bool, Option, none, some, List, [], ◌∷◌,
  ◌==◌, if◌then◌else◌, map, any,
}
use mail_keep.Folders.{SpecialUse, inbox}

-- `async_imap::types::NameAttribute`; `other` holds the debug text of a flag that is yet to come
pub data NameAttribute : Type 0 where
  no_inferiors no_select marked unmarked all archive drafts flagged junk sent trash : NameAttribute
  extension other : Text → NameAttribute

-- `trim_start_matches('\\')`
unfoldable pub trim_backslashes : Text → Text
trim_backslashes [] = []
trim_backslashes (c ∷ t) = let rest = trim_backslashes t in if c == b'\\' then rest else c ∷ t

-- `normalize_attribute`
unfoldable pub normalize_attribute : NameAttribute → Text
unfolding trim_backslashes
normalize_attribute no_inferiors = codes "noinferiors"
normalize_attribute no_select = codes "noselect"
normalize_attribute marked = codes "marked"
normalize_attribute unmarked = codes "unmarked"
normalize_attribute NameAttribute.all = codes "all"
normalize_attribute NameAttribute.archive = codes "archive"
normalize_attribute NameAttribute.drafts = codes "drafts"
normalize_attribute flagged = codes "flagged"
normalize_attribute NameAttribute.junk = codes "junk"
normalize_attribute NameAttribute.sent = codes "sent"
normalize_attribute NameAttribute.trash = codes "trash"
normalize_attribute (extension name) = map ascii_lower (trim_backslashes name)
normalize_attribute (other name) = map ascii_lower (trim_backslashes name)

-- the arms of the match on one attribute
unfoldable pub attribute_use : Text → Option SpecialUse
unfolding text_eq
attribute_use a =
    if text_eq a (codes "sent")
    then some SpecialUse.sent
    else if text_eq a (codes "drafts")
    then some SpecialUse.drafts
    else if text_eq a (codes "trash")
    then some SpecialUse.trash
    else if text_eq a (codes "archive")
    then some SpecialUse.archive
    else if text_eq a (codes "junk")
    then some SpecialUse.junk
    else if text_eq a (codes "all")
    then some SpecialUse.all
    else none

abbrev pub or_else : Option SpecialUse → Option SpecialUse → Option SpecialUse
or_else none u = u
or_else (some u) _ = some u

-- the loop over the attributes
unfoldable pub first_use : List Text → Option SpecialUse
unfolding attribute_use
first_use [] = none
first_use (a ∷ attributes) = or_else (attribute_use a) (first_use attributes)

-- `special_use_from_attributes`
unfoldable pub special_use_from_attributes : Text → List Text → Option SpecialUse
unfolding eq_ignore_ascii_case first_use
special_use_from_attributes path attributes =
    if eq_ignore_ascii_case path (codes "inbox") then some inbox else first_use attributes

-- `RemoteFolder`
pub record RemoteFolder : Type 0 where
  pub path : Text
  pub special_use : Option SpecialUse
  pub has_children : Bool
  pub no_select : Bool
  pub delimiter : Option Text

-- `remote_folder_from_name`, on the parts of a `Name`
unfoldable pub remote_folder_from_name : Text → Option Text → List NameAttribute → RemoteFolder
unfolding normalize_attribute special_use_from_attributes text_eq
remote_folder_from_name path delimiter attributes =
    let attrs = map normalize_attribute attributes in
    record {
      path = path;
      special_use = special_use_from_attributes path attrs;
      has_children = any (text_eq (codes "haschildren")) attrs;
      no_select = any (text_eq (codes "noselect")) attrs;
      delimiter = delimiter;
    }
