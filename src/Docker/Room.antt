-- ===== src/Docker/Room.antt =====
-- The room that the stores of images have: `GetDefStorageSpaceFunc` and
-- `checkAvailableStorageInStores` of src/docker/restorableappengine.cc.
use aktualizr_lite.Docker.Sizes.{add_checked}
use aktualizr_lite.Results.Usage.{UsageInfo, with_required}
use aktualizr_lite.Prelude.{
  Bool, Option, String, false, if◌then◌else◌, ltb, negsuc, none, not, pos, some, true, ℕ, ℤ, ◌-◌,
  ◌||◌,
}

-- What the checks take from the device: the usage of a path, `removeTmpFiles` of the apps' directory,
-- and the paths of the stores.
pub record ImageStores (S : Type 0) : Type 0 where
  pub storage_space : String → S → UsageInfo
  pub remove_tmp_files : S → S
  pub store_root : String
  pub docker_root : String
  pub docker_and_skopeo_same_volume : Bool

-- How a check ends: `lacks` is an `InsufficientSpaceError`, `overflows` an `overflow_error`.
pub data RoomCheck : Type 0 where
  fits : RoomCheck
  lacks : String → UsageInfo → RoomCheck
  overflows : RoomCheck

-- `GetDefStorageSpaceFunc`: the percentage to reserve for a watermark, none if it is out of range.
unfoldable pub reserved_for : ℤ → Option ℕ
reserved_for (negsuc n) = none
reserved_for (pos n) = if ltb n 20 || ltb 95 n then none else some (100 - n)

abbrev pub is_fits : RoomCheck → Bool
is_fits RoomCheck.fits = true
is_fits _ = false

module _ {S : Type 0} (D : ImageStores S) where
  -- `checkRoomInStore`
  unfoldable pub check_room : String → ℕ → String → S → RoomCheck
  check_room name required path s =
      let u = D.storage_space path s in
      if ltb u.available required
      then RoomCheck.lacks name (with_required required u)
      else RoomCheck.fits

  abbrev is_lack : RoomCheck → Bool
  is_lack (RoomCheck.lacks name u) = true
  is_lack _ = false

  -- A check that is made again after the temporary files are removed, if it fails.
  unfoldable pub check_room_twice : String → ℕ → String → S → RoomCheck × S
  unfolding check_room
  check_room_twice name required path s =
      let first = check_room name required path s in
      let s' = D.remove_tmp_files s in
      if is_lack first then (check_room name required path s', s') else (first, s)

  -- The check of the sum, where both stores are on the same volume.
  unfoldable pub check_combined : ℕ → ℕ → S → RoomCheck × S
  unfolding check_room_twice add_checked
  check_combined skopeo docker s = elim (add_checked skopeo docker) [
    | none ↦ (RoomCheck.overflows, s)
    | some sum ↦ check_room_twice "skopeo & docker" sum D.store_root s
  ]

  -- `checkAvailableStorageInStores`
  unfoldable pub check_available_storage : ℕ → ℕ → S → RoomCheck × S
  unfolding check_room_twice check_room check_combined
  check_available_storage skopeo docker s =
      let (c1, s1) = check_room_twice "skopeo" skopeo D.store_root s in
      let c2 = check_room "docker" docker D.docker_root s1 in
      if not (is_fits c1)
      then (c1, s1)
      else if not (is_fits c2)
      then (c2, s1)
      else if D.docker_and_skopeo_same_volume
      then check_combined skopeo docker s1
      else (RoomCheck.fits, s1)
