-- ===== src/Rootfs/DeltaLaws.antt =====
-- The stat of a delta is taken from a document that the target vouches for.
use aktualizr_lite.Rootfs.Deltas.{
  DeltaStat, DeltaStatsRef, checked_stats, download_delta_stats, find_delta_stat, get_delta_stat,
  get_delta_stats_ref, max_stats_size,
}
use aktualizr_lite.Rootfs.Host.{DeltaStatsDoc, Host, HttpResponse, Remote, is_file_url}
use aktualizr_lite.Target.{TufTarget}
use aktualizr_lite.Prelude.{
  String, arith, eq_iff, false, int_eq, len, ltb, nat_eq, none, none_not_some, not, some,
  some_of_bind, some_unless, string_eq, ◌==◌, ◌≡◌, ◌≤◌,
}

module _ {State : Type 0} (H : Host State) where
  -- A document that was downloaded for a reference is not larger than the maximum, and its body has
  -- the size and the hash of the reference.
  abbrev pub Vouched : DeltaStatsRef → DeltaStatsDoc → Type 0
  Vouched ref doc =
      (body : String) × (ref.size ≤ max_stats_size)
      × (len body ≡ ref.size)
      × (H.sha256_hex body ≡ ref.sha256)
      × (H.parse_stats body ≡ some doc)

  checked_stats-Vouched :
      (ref : DeltaStatsRef) (response : HttpResponse) (doc : DeltaStatsDoc)
      → ref.size ≤ max_stats_size
      → checked_stats H ref response ≡ some doc
      → Vouched ref doc
  unfolding checked_stats
  checked_stats-Vouched ref none doc small h = none_not_some h
  checked_stats-Vouched ref (some body) doc small h =
      let (l, h1) = some_unless (not (len body == ref.size)) _ _ h in
      let (e, h2) = some_unless (not (H.sha256_hex body == ref.sha256)) _ _ h1 in
      (
        body,
        small,
        ground (arith, l),
        (eq_iff (H.sha256_hex body) ref.sha256).0 (ground (arith, e)),
        h2,
      )

  download_delta_stats-Vouched :
      (ref : DeltaStatsRef) (remote : Remote) (s : State) (doc : DeltaStatsDoc)
      → download_delta_stats H ref remote s ≡ some doc
      → Vouched ref doc
  unfolding download_delta_stats
  download_delta_stats-Vouched ref remote s doc h =
      let (l, h1) = some_unless (ltb max_stats_size ref.size) _ _ h in
      checked_stats-Vouched ref _ doc (ground (arith, l)) h1

  -- The stat of a delta that the download of a target from a remote uses is one of a document that
  -- the target refers to, for the delta from the deployed hash to that of the target. The body of the
  -- document is not larger than 1 MiB and has the size and the hash of the reference. The URL of the
  -- remote begins with none of the characters of `file://`.
  pub get_delta_stat-Vouched :
      (t : TufTarget) (remote : Remote) (s : State) (d : DeltaStat)
      → get_delta_stat H t remote s ≡ some d
      → (ref : DeltaStatsRef) × (doc : DeltaStatsDoc) × (is_file_url remote.base_url ≡ false)
        × (get_delta_stats_ref t.custom ≡ some ref)
        × Vouched ref doc
        × (find_delta_stat doc (H.current_hash s) t.sha256 ≡ some d)
  unfolding get_delta_stat
  get_delta_stat-Vouched t remote s d h =
      let (f, h1) = some_unless (is_file_url remote.base_url) _ _ h in
      let (ref, r, h2) = some_of_bind (get_delta_stats_ref t.custom) _ d h1 in
      let (doc, p, h3) = some_of_bind (download_delta_stats H ref remote s) _ d h2 in
      (ref, doc, f, r, download_delta_stats-Vouched ref remote s doc p, h3)
