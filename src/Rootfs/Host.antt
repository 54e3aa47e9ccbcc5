-- ===== src/Rootfs/Host.antt =====
-- What `RootfsTreeManager` uses: the boot firmware's status (src/bootloader/bootloaderlite.h), the
-- OSTree package manager, the sysroot, the volume and the servers.
use aktualizr_lite.Bootloader.Status.{BootFwUpdateStatus}
use aktualizr_lite.Results.{InstallationResult, ResultCode}
use aktualizr_lite.Results.Usage.{StatResult, UsageInfo}
use aktualizr_lite.Target.{UptaneTarget}
use aktualizr_lite.Prelude.{
  Bool, List, Option, String, [], contains, false, if◌then◌else◌, int_eq, nat_eq, none, not, some,
  string_eq, suc, true, ℕ, ◌&&◌, ◌==◌, ◌∷◌,
}
use Prim.Native.Char.{code}

abbrev pub Headers : Type 0
Headers = List (String × String)

-- `Remote`, with whether it has keys.
pub record Remote : Type 0 where
  pub name : String
  pub base_url : String
  pub headers : Headers
  pub has_keys : Bool
  pub is_remote_set : Bool

-- The stat of a delta, with its members where they are of the type `uint64`.
pub record DeltaEntry : Type 0 where
  pub size : Option ℕ
  pub u_size : Option ℕ

-- The document of delta stats: for each hash, from which hashes there are deltas; none is null.
abbrev pub DeltaStatsDoc : Type 0
DeltaStatsDoc = List (String × List (String × Option DeltaEntry))

-- An HTTP response: the body, if its status is good.
abbrev pub HttpResponse : Type 0
HttpResponse = Option String

pub record Host (State : Type 0) : Type 0 where
  pub boot_fw : BootFwUpdateStatus State
  -- The configuration.
  pub update_block : Bool
  pub remote_name : String
  pub ostree_server : String
  pub repo_path : String
  pub reserved_percentage : ℕ
  -- `getStat`, `ceil(b * (p / 100.0))` and `UsageInfo::str`.
  pub get_stat : State → String → StatResult
  pub reserved_blocks : ℕ → ℕ → ℕ
  pub usage_text : UsageInfo → String
  -- Whether messages of the level info are logged, which evaluates what they contain.
  pub logs_info : Bool
  -- `POST <gateway>/download-urls`: the urls with their tokens, none if it failed.
  pub download_urls : State → Option (List (String × String))
  -- `HttpClient::get` with headers and the maximal size.
  pub http_get : List String → String → ℕ → State → HttpResponse
  -- The lower-case hexadecimal digits of `Crypto::sha256digest`.
  pub sha256_hex : String → String
  -- `getJson` of a body, none if it is null.
  pub parse_stats : String → Option DeltaStatsDoc
  -- `Repo::addRemote`, with the keys or without.
  pub add_remote : String → String → Bool → State → State
  -- `OstreeManager::pull` from a url by headers, with the name of a remote or none.
  pub pull : String → UptaneTarget → Option String → Headers → State → InstallationResult × State
  pub is_success : ResultCode → Bool
  -- The hashes of the deployments, empty where there is none.
  pub current_hash : State → String
  pub pending_hash : State → String
  pub current : State → UptaneTarget
  -- `OstreeManager::install`, `updateNotify` and `installNotify`, and `Sysroot::reload`.
  pub ostree_install : UptaneTarget → State → InstallationResult × State
  pub update_notify : State → State
  pub ostree_install_notify : UptaneTarget → State → State
  pub reload : State → State
  -- `boost::lexical_cast<uint64_t>`, and the text of its exception.
  pub lexical_cast : String → Option ℕ
  pub cast_error : String

-- `Config`: `UpdateBlock` from the parameter `ostree_update_block`, if there is one.
unfoldable pub update_block_of : Option String → Bool
update_block_of none = true
update_block_of (some val) = not (val == "0") && not (val == "false")

-- `std::string::find_first_of`: the first position of one of the characters.
find_first_of : List ℕ → String → Option ℕ
find_first_of chars String.[] = none
find_first_of chars (String.◌∷◌ c s) =
    let rest = find_first_of chars s in
    if contains chars (code c) then some 0 else elim rest [ none ↦ none | some n ↦ some (suc n) ]

abbrev is_zero_at : Option ℕ → Bool
is_zero_at none = false
is_zero_at (some n) = n == 0

-- `0 == find_first_of("file://")`
unfoldable pub is_file_url : String → Bool
unfolding find_first_of
is_file_url url =
    is_zero_at (find_first_of (b'f' ∷ b'i' ∷ b'l' ∷ b'e' ∷ b':' ∷ b'/' ∷ b'/' ∷ []) url)
