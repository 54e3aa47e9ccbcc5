-- ===== src/Results/Usage.antt =====
-- What include/aktualizr-lite/storage/stat.h and src/storage/stat.cc report of a volume. The
-- percentages of the volume, which are floats, serve for messages only; the one that the code reads
-- again, that of the reserve, is the integer that it was set from.
use aktualizr_lite.Prelude.{Bool, String, if◌then◌else◌, is_empty, ltb, ℕ, ◌%◌, ◌*◌, ◌-◌, ◌^◌}

pub record UsageInfo : Type 0 where
  pub path : String
  pub size : ℕ
  pub free : ℕ
  pub reserved : ℕ
  pub reserved_percentage : ℕ
  pub reserved_by : String
  pub available : ℕ
  pub required : ℕ
  pub err : String

-- `UsageInfo{.err = err}`
abbrev pub failed_usage : String → UsageInfo
failed_usage err = record {
  path = "";
  size = 0;
  free = 0;
  reserved = 0;
  reserved_percentage = 0;
  reserved_by = "";
  available = 0;
  required = 0;
  err = err;
}

abbrev pub is_ok : UsageInfo → Bool
is_ok u = is_empty u.err

unfoldable pub with_required : ℕ → UsageInfo → UsageInfo
with_required val u = record u { required = val }

-- What `getStat` reads of a volume.
pub record Stat : Type 0 where
  pub block_size : ℕ
  pub free_block_number : ℕ
  pub block_number : ℕ

-- A product of two `uint64_t`.
abbrev pub mul64 : ℕ → ℕ → ℕ
mul64 a b = (a * b) % 2 ^ 64

-- The result of `getStat`, an error or the numbers.
pub data StatResult : Type 0 where
  stat_err : String → StatResult
  stat_ok : Stat → StatResult

-- `reserved_blocks b p` is the floating-point expression `ceil(b * (p / 100.0))`.
module _ (get_stat : String → StatResult) (reserved_blocks : ℕ → ℕ → ℕ) where
  abbrev pub usage_of : String → ℕ → String → StatResult → UsageInfo
  usage_of path percentage by (stat_err err) = failed_usage err
  usage_of path percentage by (stat_ok stat) =
      let free = mul64 stat.block_size stat.free_block_number in
      let reserved = mul64 stat.block_size (reserved_blocks stat.block_number percentage) in
      record {
        path = path;
        size = mul64 stat.block_size stat.block_number;
        free = free;
        reserved = reserved;
        reserved_percentage = percentage;
        reserved_by = by;
        available = if ltb reserved free then free - reserved else 0;
        required = 0;
        err = "";
      }

  unfoldable pub get_usage_info : String → ℕ → String → UsageInfo
  get_usage_info path percentage by = usage_of path percentage by (get_stat path)
