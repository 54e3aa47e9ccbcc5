-- ===== src/Rootfs/Deltas.antt =====
-- The stats of static deltas: `getDeltaStatIfAvailable` and what it calls (src/rootfstreemanager.cc).
use aktualizr_lite.Rootfs.Host.{DeltaStatsDoc, Headers, Host, HttpResponse, Remote, is_file_url}
use aktualizr_lite.Target.{Custom, TufTarget}
use aktualizr_lite.Prelude.{
  List, Option, String, [], if◌then◌else◌, int_eq, len, ltb, map, nat_eq, none, not, some,
  string_eq, ℕ, ◌*◌, ◌<>◌, ◌==◌, ◌>>=◌, ◌∷◌,
}

pub record DeltaStatsRef : Type 0 where
  pub sha256 : String
  pub size : ℕ

pub record DeltaStat : Type 0 where
  pub size : ℕ
  pub uncompressed_size : ℕ

abbrev pub max_stats_size : ℕ
max_stats_size = 1024 * 1024

-- `getDeltaStatsRef`
unfoldable pub get_delta_stats_ref : Custom → Option DeltaStatsRef
get_delta_stats_ref c = c.delta_stats >>= λ m.
    m.sha256 >>= λ sha256. m.size >>= λ size. some (record { sha256 = sha256; size = size })

-- The first entry of a key.
unfoldable pub lookup {ℓ} : {A : Type ℓ} → String → List (String × A) → Option A
lookup key [] = none
lookup key ((k, a) ∷ xs) = let rest = lookup key xs in if k == key then some a else rest

-- `findDeltaStatForUpdate`
unfoldable pub find_delta_stat : DeltaStatsDoc → String → String → Option DeltaStat
unfolding lookup
find_delta_stat doc hash_from hash_to = lookup hash_to doc >>= λ to_json.
    lookup hash_from to_json >>= λ found. found >>= λ delta. delta.size >>= λ size.
    delta.u_size >>= λ u_size. some (record { size = size; uncompressed_size = u_size })

abbrev header_lines : Headers → List String
header_lines = map (λ h. h.0 <> ": " <> h.1)

module _ {State : Type 0} (H : Host State) where
  -- What is made of the response to a request of delta stats.
  unfoldable pub checked_stats : DeltaStatsRef → HttpResponse → Option DeltaStatsDoc
  checked_stats ref none = none
  checked_stats ref (some body) =
      if not (len body == ref.size)
      then none
      else if not (H.sha256_hex body == ref.sha256)
      then none
      else H.parse_stats body

  -- `downloadDeltaStats`, none where it gives null.
  unfoldable pub download_delta_stats : DeltaStatsRef → Remote → State → Option DeltaStatsDoc
  unfolding checked_stats
  download_delta_stats ref remote s =
      if ltb max_stats_size ref.size
      then none
      else checked_stats ref (
          H.http_get (header_lines remote.headers)
            (remote.base_url <> "/delta-stats/" <> ref.sha256) ref.size s)

  -- `getDeltaStatIfAvailable`
  unfoldable pub get_delta_stat : TufTarget → Remote → State → Option DeltaStat
  unfolding get_delta_stats_ref download_delta_stats find_delta_stat is_file_url
  get_delta_stat t remote s =
      if is_file_url remote.base_url
      then none
      else get_delta_stats_ref t.custom >>= λ ref. download_delta_stats ref remote s >>= λ doc.
          find_delta_stat doc (H.current_hash s) t.sha256
