-- ===== src/Api/CheckInLaws.antt =====
-- When an online check-in (`CheckIn` of src/api.cc) succeeds.
use aktualizr_lite.Api.Select.{filter_targets}
use aktualizr_lite.Results.{CheckInStatus, check_in_good}
use aktualizr_lite.Prelude.{arith, false, is_nil, none, true, ◌↔◌, ◌≡◌, ◌≢◌, ◌⊎◌}
use aktualizr_lite.Api.CheckIn.{
  CheckInEnv, allows_fallback, check_in, check_in_failure, update_status, update_meta, updated,
}

module _ {S : Type 0} (E : CheckInEnv S) where
  -- An online check-in is good exactly if the metadata was updated, or the stored metadata is still
  -- valid, and some target suits the device. It never has the status for cached metadata: that a
  -- check-in went on with the stored metadata is not told to the caller.
  pub check_in_good_iff :
      (s : S)
      → let (u, s1) = E.update_meta none (E.report (E.notify_started s)) in
        ((check_in_good (check_in E s).0.status ≡ true)
          ↔ ((u ≡ updated) ⊎ (E.is_meta_valid s1 ≡ true))
            × (is_nil (filter_targets E.sort (E.tuf_targets s1) E.hw_id E.tags E.secondary_hwids)
                ≡ false))
        × ((check_in E s).0.status ≢ CheckInStatus.ok_cached)
  unfolding check_in check_in_failure update_meta update_status allows_fallback check_in_good
  check_in_good_iff s = ground arith
