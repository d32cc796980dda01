-- ===== src/Storage/Tests.antt =====
-- The storage at concrete inputs: a decimal form, a hash and a cipher that compute.
use mail_keep.Base.{
  ◌≡◌, ◌==◌, ◌||◌, ◌&&◌, not, refl, none, some, [], ◌∷◌, Text, List, text_eq, arith,
}
use mail_keep.Sql.{ok}
use mail_keep.Storage.Hash.{as_hex, from_hex}
use mail_keep.Storage.HashLaws.{from_hex-as_hex}
use mail_keep.Storage.Disk.{Disk, path_eq, atomic_write_all, return}
use mail_keep.Storage.Blobs.{get, exists, delete_blobs, put_if_absent, blob_path}
use mail_keep.Storage.Integrity.{IsSound, put, settled, put_if_absent-IsSound, put_if_absent-get}
use mail_keep.Storage.Keys.{keys, storage_refines_keys}
use mail_keep.Storage.Toy.{toy, toy_hash, toy_hash-IsHash}

abbrev empty_disk : Disk
empty_disk = record { files = []; faults = [] }

abbrev root : List Text
root = (9 ∷ []) ∷ []

empty-IsSound : IsSound toy root []
empty-IsSound a h x i e = ground (arith, e)

-- a disk where one blob is written
abbrev one_blob : Disk
one_blob = (put toy root 1 (5 ∷ 6 ∷ []) empty_disk).1

from_hex-as_hex_example : from_hex (as_hex (toy_hash (200 ∷ []))) ≡ ok (toy_hash (200 ∷ []))
from_hex-as_hex_example = from_hex-as_hex (toy_hash (200 ∷ [])) (toy_hash-IsHash (200 ∷ []))

put_if_absent-IsSound_example :
    IsSound toy root
      (put toy root 1
        (5 ∷ 6 ∷ [])
        (record { files = []; faults = none ∷ none ∷ none ∷ some "disk full" ∷ [] })).1.files
put_if_absent-IsSound_example =
    put_if_absent-IsSound toy root 1 (5 ∷ 6 ∷ [])
      (record { files = []; faults = none ∷ none ∷ none ∷ some "disk full" ∷ [] }) empty-IsSound

put_succeeds : (put toy root 1 (5 ∷ 6 ∷ []) empty_disk).0 ≡ ok (toy_hash (5 ∷ []))
unfolding put_if_absent atomic_write_all blob_path path_eq text_eq return
put_succeeds = refl

put_if_absent-get_example :
    (p : Text) × ((get toy.decimal root toy.decrypt 1
        (toy_hash (5 ∷ 6 ∷ []))
        (settled toy root one_blob)).0
      ≡ ok p)
    × (toy_hash p ≡ toy_hash (5 ∷ 6 ∷ []))
put_if_absent-get_example =
    put_if_absent-get toy root 1 (5 ∷ 6 ∷ []) empty_disk (toy_hash (5 ∷ [])) empty-IsSound
      put_succeeds

storage_refines_keys_example :
    (keys toy root one_blob 2 (toy_hash []) ≡ (
      keys toy root empty_disk 2 (toy_hash [])
      || (2 == 1 && text_eq (toy_hash []) (toy_hash (5 ∷ [])))))
    × (keys toy root
          (delete_blobs toy.decimal root 1 (settled toy root empty_disk)).1
          2
          (toy_hash [])
        ≡ (keys toy root empty_disk 2 (toy_hash []) && not (2 == 1)))
    × ((exists toy.decimal root 2 (toy_hash []) (settled toy root empty_disk)).0
        ≡ ok (keys toy root empty_disk 2 (toy_hash [])))
storage_refines_keys_example =
    storage_refines_keys toy root 1 (5 ∷ 6 ∷ []) empty_disk (toy_hash (5 ∷ [])) 2 (toy_hash [])
      empty-IsSound put_succeeds (toy_hash-IsHash [])
