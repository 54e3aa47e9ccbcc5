-- ===== src/Tests/ApiExamples.antt =====
-- The theorems on the selection from a check-in, applied to three targets.

use aktualizr_lite.Results.Usage.{StatResult, stat_ok}
use aktualizr_lite.Api.Select.{filter_targets, is_admissible, select_target}
use aktualizr_lite.Api.SelectLaws.{NotOlder, checked_in, select_target-newest}
use aktualizr_lite.Results.{CheckInStatus}
use aktualizr_lite.Target.{TufTarget, hardware_id}
use aktualizr_lite.Prelude.{List, Memᴰ, [], no_version, pos, refl, true, ◌∷◌, ◌≡◌}
use aktualizr_lite.Tests.Devices.{target_of}
use aktualizr_lite.Tests.Sorting.{sort, sort-Sorts}

abbrev targets : List TufTarget
targets = target_of "9" (pos 9) ∷ target_of "12" (pos 12) ∷ target_of "11" (pos 11) ∷ []

picks :
    (select_target
      (checked_in CheckInStatus.ok "board" (filter_targets sort targets "board" [] []))
      no_version
      ""
      "").name
    ≡ "12"
unfolding select_target filter_targets sort hardware_id
picks = refl

select_target-newest_example :
    let y =
      select_target
        (checked_in CheckInStatus.ok "board" (filter_targets sort targets "board" [] []))
        no_version
        ""
        "" in
    Memᴰ y targets
    × (is_admissible "board" [] [] y ≡ true)
    × (hardware_id y ≡ "board")
    × NotOlder y (target_of "11" (pos 11))
unfolding is_admissible hardware_id
select_target-newest_example =
    select_target-newest sort sort-Sorts CheckInStatus.ok targets "board" [] []
      (target_of "11" (pos 11)) (Memᴰ.tail (Memᴰ.tail (Memᴰ.head refl))) refl refl

-- A volume of 1000 blocks of 4096 bytes, of which 300 are free, and a reserve of 200 blocks.
abbrev volume : StatResult
volume = stat_ok (record { block_size = 4096; free_block_number = 300; block_number = 1000 })
