-- ===== src/Folders/Tests.antt =====
-- Folders at concrete inputs.
use mail_keep.Base.{◌≡◌, refl, none, some, true, false}
use mail_keep.Folders.{
  Folder, SpecialUse, inbox, sent, drafts, trash, archive, junk, special_use_str, parse_special_use,
}

abbrev a_folder : Folder
a_folder = record {
  id = 3;
  version = 1;
  account_id = 12;
  path = "INBOX";
  display_name = none;
  special_use = some inbox;
  enabled = true;
  idle_enabled = false;
  uidvalidity = none;
  last_uid = 0;
  last_synced_at = none;
  last_error = none;
  created_at = 5;
  updated_at = 5;
}

special_use_kept : (u : SpecialUse) → parse_special_use (special_use_str u) ≡ some u
unfolding parse_special_use special_use_str
special_use_kept inbox = refl
special_use_kept sent = refl
special_use_kept drafts = refl
special_use_kept trash = refl
special_use_kept archive = refl
special_use_kept junk = refl
special_use_kept SpecialUse.all = refl
