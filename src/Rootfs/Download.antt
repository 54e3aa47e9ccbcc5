-- ===== src/Rootfs/Download.antt =====
-- `Download` of src/rootfstreemanager.cc: the commit is pulled from the first remote that has it.
use aktualizr_lite.Results.{DownloadResult, DownloadStatus, InstallationResult}
use aktualizr_lite.Results.Usage.{UsageInfo, failed_usage, get_usage_info, is_ok, with_required}
use aktualizr_lite.Rootfs.Deltas.{DeltaStat, get_delta_stat}
use aktualizr_lite.Rootfs.Host.{Headers, Host, Remote}
use aktualizr_lite.Target.{TufTarget, from_tuf_target}
use aktualizr_lite.Prelude.{
  Bool, List, Option, String, [], false, if◌then◌else◌, int_eq, is_empty, ltb, nat_eq, none, not,
  some, string_eq, true, ℕ, ◌%◌, ◌&&◌, ◌*◌, ◌+◌, ◌<>◌, ◌==◌, ◌^◌, ◌||◌, ◌∷◌,
}
use text.Mathlib.Text.{find?, starts_with}

abbrev contains_text : String → String → Bool
contains_text text part = elim (find? text part) [ none ↦ false | some at ↦ true ]

-- The texts by which a failure of a pull for lack of space is told.
unfoldable pub tells_no_space : String → Bool
tells_no_space text =
    contains_text text "would be exceeded, at least"
      && (contains_text text "min-free-space-size" || contains_text text "min-free-space-percent")
    || contains_text text "Delta requires" && contains_text text "free space, but only"

-- Ten blocks.
abbrev pub some_more : ℕ
some_more = 4096 * 10

abbrev pub tried : DownloadStatus → String → String → UsageInfo → DownloadResult
tried status description path stat = record {
  status = status;
  description = description;
  destination_path = path;
  stat = stat;
}

module _ {State : Type 0} (H : Host State) where
  -- `getUsageInfo`
  unfoldable pub usage_info : State → UsageInfo
  usage_info s =
      get_usage_info (H.get_stat s) H.reserved_blocks H.repo_path H.reserved_percentage
        "sysroot_ostree_reserved_space_percentage"

  -- `setRemote`, unless the remote is set.
  abbrev pub with_remote : Remote → State → State
  with_remote r s = if not r.is_remote_set then H.add_remote r.name r.base_url r.has_keys s else s

  -- The headers of the remotes.
  abbrev base_headers : String → Headers
  base_headers name = ("X-Correlation-ID", name) ∷ []

  abbrev pub base_remote : String → Remote
  base_remote name = record {
    name = H.remote_name;
    base_url = H.ostree_server;
    headers = base_headers name;
    has_keys = true;
    is_remote_set = false;
  }

  abbrev pub additional_remote : String → String × String → Remote
  additional_remote name (url, token) = record {
    name = "gcs";
    base_url = url;
    headers = ("X-Correlation-ID", name) ∷ ("Authorization", "Bearer " <> token) ∷ [];
    has_keys = false;
    is_remote_set = false;
  }

  -- The loop of `getAdditionalRemotes`, which puts each remote before the others.
  unfoldable pub add_front : String → List (String × String) → List Remote → List Remote
  add_front name [] remotes = remotes
  add_front name (u ∷ urls) remotes = add_front name urls (additional_remote name u ∷ remotes)

  -- `getAdditionalRemotes`
  unfoldable pub get_additional_remotes : List Remote → String → State → List Remote
  unfolding add_front
  get_additional_remotes remotes name s = elim (H.download_urls s) [
    | none ↦ remotes
    | some urls ↦ add_front name urls remotes
  ]

  -- The remotes that `Download` tries.
  unfoldable pub remotes_of : TufTarget → State → List Remote
  unfolding get_additional_remotes
  remotes_of t s =
      let base = base_remote t.name ∷ [] in
      if not (is_empty H.ostree_server) && starts_with H.ostree_server "http"
      then get_additional_remotes base t.name s
      else base

  abbrev lacking : String → UsageInfo → DownloadResult
  lacking text u =
      tried DownloadStatus.download_failed_no_space (text <> H.usage_text u) H.repo_path u

  -- The checks before a pull: the result with which they end the download, if they do.
  unfoldable pub refused : Option DeltaStat → UsageInfo → Option DownloadResult
  refused (some delta) pre =
      if is_ok pre && ltb pre.available delta.uncompressed_size
      then some
          (lacking "Insufficient storage available; " (with_required delta.uncompressed_size pre))
      else none
  refused none pre =
      if is_ok pre && pre.available == 0
      then some (lacking "No available storage left; " (with_required some_more pre))
      else none

  -- The usage before the pull as the messages after it have it: what is logged has set `required`.
  unfoldable pub logged_usage : Option DeltaStat → UsageInfo → UsageInfo
  logged_usage none pre = pre
  logged_usage (some delta) pre =
      if H.logs_info then with_required delta.uncompressed_size pre else pre

  abbrev both_usages : UsageInfo → UsageInfo → String
  both_usages pre post =
      "before ostree pull; " <> H.usage_text pre <> "\nafter ostree pull; " <> H.usage_text post

  abbrev required_after : Option DeltaStat → UsageInfo → UsageInfo
  required_after none post = with_required ((post.available + some_more) % 2 ^ 64) post
  required_after (some delta) post = with_required delta.uncompressed_size post

  -- The pull from a remote.
  abbrev pub pull_from : TufTarget → Remote → State → InstallationResult × State
  pull_from t r s =
      H.pull r.base_url (from_tuf_target t) (if r.is_remote_set then none else some r.name)
        r.headers s

  -- The usage before and after the pull from a remote, the texts of the failures with that of this
  -- pull, and the results of a pull that succeeds and of one that lacks space.
  abbrev pub usages_of : TufTarget → Remote → State → String
  usages_of t r s =
      both_usages (logged_usage (get_delta_stat H t r s) (usage_info s))
        (usage_info (pull_from t r s).1)

  abbrev pub errors_of : TufTarget → Remote → String → State → String
  errors_of t r errors s = errors <> (pull_from t r s).0.description <> "\n" <> usages_of t r s

  abbrev pub pulled_of : TufTarget → Remote → State → DownloadResult
  pulled_of t r s = tried DownloadStatus.ok (usages_of t r s) H.repo_path (failed_usage "")

  abbrev pub full_of : TufTarget → Remote → State → DownloadResult
  full_of t r s =
      tried DownloadStatus.download_failed_no_space
        ("Insufficient storage available; "
          <> (pull_from t r s).0.description
          <> "\n"
          <> usages_of t r s)
        H.repo_path (required_after (get_delta_stat H t r s) (usage_info (pull_from t r s).1))

  abbrev pub failed_with : String → DownloadResult
  failed_with errors = tried DownloadStatus.download_failed errors H.repo_path (failed_usage "")

  -- The loop over the remotes, with the text of the failures and the result so far.
  unfoldable pub try_remotes :
      TufTarget → List Remote → String → DownloadResult → State → DownloadResult × State
  unfolding get_delta_stat usage_info refused logged_usage tells_no_space from_tuf_target
  try_remotes t [] errors res s = (res, s)
  try_remotes t (r ∷ remotes) errors res s0 =
      let s1 = with_remote r s0 in
      let (err, s2) = pull_from t r s1 in
      let errors' = errors_of t r errors s1 in
      let rest = try_remotes t remotes errors' (failed_with errors') s2 in
      elim (refused (get_delta_stat H t r s1) (usage_info s1)) [
        | some stop ↦ (stop, s1)
        | none ↦
            if H.is_success err.code
            then (pulled_of t r s1, s2)
            else if tells_no_space err.description
            then (full_of t r s1, s2)
            else rest
      ]

  -- `Download`
  unfoldable pub download_commit : TufTarget → State → DownloadResult × State
  unfolding remotes_of try_remotes
  download_commit t s =
      try_remotes t (remotes_of t s) "" (tried DownloadStatus.ok "" "" (failed_usage "")) s
