-- ===== src/Tests/DockerExamples.antt =====
-- The theorems on the stores of apps, applied to concrete images and devices.
use aktualizr_lite.Docker.RunningLaws.{AllUp, HasComposeOf, is_running-AllUp}
use aktualizr_lite.Docker.Containers.{
  Containers, check_app_containers, check_services, get_container_state, is_app_installed,
  is_running,
}
use aktualizr_lite.Docker.Fetched.{
  AppFiles, LayerEntry, are_app_images_fetched, are_images_fetched, check_archive, check_image,
  check_layers, check_manifest, is_app_fetched, with_hash,
}
use aktualizr_lite.Docker.FetchedLaws.{is_app_fetched-AppStored}
use aktualizr_lite.Docker.Stored.{AppStored}
use aktualizr_lite.Prelude.{
  inl, Bool, List, Option, String, [], arith, false, if◌then◌else◌, none, pos, refl, some, true,
  ◌<>◌, ◌<◌, ◌^◌, ◌∷◌, ◌≡◌,
}
use aktualizr_lite.Docker.Sizes.{Layer, add_checked, get_app_update_size, layer_size, update_size}
use aktualizr_lite.Docker.SizeLaws.{get_app_update_size-exact, missing_sizes}
use aktualizr_lite.Docker.Room.{
  ImageStores, check_available_storage, check_combined, check_room, check_room_twice, is_fits,
}
use aktualizr_lite.Docker.RoomLaws.{HasAllRoom, check_available_storage-HasAllRoom}
use aktualizr_lite.Docker.Uri.{
  Uri, hashed_digest, parse_uri, rfind_slash, split_name, uri_of_parts, uri_text,
}
use aktualizr_lite.Docker.UriLaws.{IsUri, parse_uri-uri_text}
use aktualizr_lite.Results.Usage.{failed_usage, with_required}

abbrev hash_as_is : String → Option String
hash_as_is s = some s

abbrev layers : List Layer
layers =
    record { digest = "aa"; size = some (pos 100) }
    ∷ record { digest = "bb"; size = some (pos 7) }
    ∷ record { digest = "cc"; size = some (pos 30) }
    ∷ []

layers_sum : get_app_update_size hash_as_is ("bb" ∷ []) layers ≡ some 130
unfolding get_app_update_size update_size add_checked layer_size
layers_sum = refl

get_app_update_size-exact_example :
    (130 ≡ missing_sizes hash_as_is ("bb" ∷ []) layers) × (130 < 2 ^ 64)
get_app_update_size-exact_example =
    get_app_update_size-exact hash_as_is ("bb" ∷ []) layers 130 layers_sum

-- A volume with 100 bytes, and 50 more once the temporary files are removed.
abbrev stores : ImageStores Bool
stores = record {
  storage_space =
      λ path cleaned. record (failed_usage "") { available = if cleaned then 150 else 100 };
  remove_tmp_files = λ cleaned. true;
  store_root = "/var/sota/reset-apps";
  docker_root = "/var/lib/docker";
  docker_and_skopeo_same_volume = true;
}

room_after_cleaning : is_fits (check_available_storage stores 60 80 false).0 ≡ true
unfolding check_available_storage check_combined check_room_twice check_room add_checked
    with_required
room_after_cleaning = refl

check_available_storage-HasAllRoom_example :
    HasAllRoom stores 60 80 false (check_available_storage stores 60 80 false).1
check_available_storage-HasAllRoom_example =
    check_available_storage-HasAllRoom stores 60 80 false (omega arith) (omega arith)
      room_after_cleaning

abbrev same_text : String → String
same_text s = s

abbrev pub digest_text : String
digest_text = "0123456789abcdef0123456789abcdef0123456789abcdef0123456789abcdef"

abbrev pub image : Uri
image = record {
  digest = record { digest = "sha256:" <> digest_text; hash = digest_text; short_hash = "0123456" };
  app = "app";
  factory = "factory";
  repo = "factory/app";
  registry_hostname = "hub.foundries.io";
}

image-IsUri : IsUri same_text true image
unfolding hashed_digest split_name rfind_slash
image-IsUri = (refl, refl, refl, omega arith, (refl, inl refl), refl, (refl, refl, refl, refl))

parse_uri-uri_text_example : parse_uri same_text true (uri_text image) ≡ some image
parse_uri-uri_text_example = parse_uri-uri_text same_text true image image-IsUri

-- Files that all have the same content, where the compose file is written before it is read.
abbrev files : AppFiles Bool
files = record {
  to_lower = same_text;
  apps_root = "/apps";
  blobs_root = "/blobs";
  exists = λ path written. true;
  is_symlink = λ path written. false;
  content_hash = λ path written. some digest_text;
  file_size = λ path written. some 5;
  archive_digest = λ path written. some ("sha256:" <> digest_text);
  extract_compose = λ path written. some "services:";
  write_file = λ path text written. some true;
  read_compose =
      λ path written. if written then some (("web", some (uri_text image)) ∷ []) else none;
  read_index = λ path written. some (some ("sha256:" <> digest_text));
  read_manifest = λ path written. some (record {
    config_digest = some ("sha256:" <> digest_text);
    layers = LayerEntry.described (some ("sha256:" <> digest_text)) (some (pos 5)) ∷ [];
  });
  remove = λ path written. written;
  remove_all = λ path written. written;
}

files_fetched : is_app_fetched files (uri_text image) false ≡ (some true, true)
unfolding is_app_fetched check_archive are_app_images_fetched are_images_fetched check_image
    check_manifest with_hash check_layers parse_uri uri_of_parts split_name hashed_digest
    rfind_slash uri_text
files_fetched = refl

is_app_fetched-AppStored_example : AppStored files (uri_text image) false true
is_app_fetched-AppStored_example =
    is_app_fetched-AppStored files (uri_text image) false true files_fetched

abbrev containers : Containers Bool
containers = record {
  files = files;
  install_root = "/compose-apps";
  read_file = λ path written. some "services:";
  sha256_hex = same_text;
  read_services = λ path written. some (("web", some "h1") ∷ []);
  get_containers = λ written. some (
      record { project = "other"; service = "web"; config_hash = "h1"; state = "created" }
      ∷ record { project = "app"; service = "web"; config_hash = "h1"; state = "running" }
      ∷ []);
}

app_runs : is_running containers ("app", uri_text image) true ≡ true
unfolding is_running is_app_installed check_app_containers check_services get_container_state
    parse_uri uri_of_parts split_name hashed_digest rfind_slash uri_text
app_runs = refl

is_running-AllUp_example :
    HasComposeOf containers ("app", uri_text image) true × AllUp containers "app" true
is_running-AllUp_example = is_running-AllUp containers "app" (uri_text image) true app_runs
