-- ===== src/Utils.antt =====
-- src/slam_utils.c: hashing, error texts, the clock, the file system and the limits of the process. What
-- the C library answers is an argument.
pub mod Hash
pub mod Errors
mod Tests
use Prim.Native.Nat.{bit_and, bit_xor}
use slam.Base.{
  ℕ, zero, suc, ◌+◌, ◌-◌, ◌*◌, ◌/◌, ◌%◌, ◌^◌, ℤ, pos, negsuc, Bool, true, false, ◌&&◌, Option, none,
  some, List, [], ◌∷◌, ltb, ◌==◌, if◌then◌else◌, u32, u64, get_or,
}
use slam.Lua.Api.{Text, text}

-- a `char`, which is signed on the build's machine, as a summand of a `uint32_t`
abbrev pub extended : ℕ → ℕ
extended c = if ltb c 128 then c else 2 ^ 32 - 256 + c

-- a round of the loop of `slam_hash_string`
unfoldable pub hash_round : ℕ → ℕ → ℕ
hash_round h c =
    let shifted = u32 (h * 2 ^ 4 + extended c) in
    let g = bit_and shifted 0xF0000000 in
    if g == 0 then shifted else bit_xor (bit_xor shifted (g / 2 ^ 24)) g

-- `slam_hash_string` from a hash of what stands before, over the bytes of a C string
unfoldable pub hash_from : ℕ → Text → ℕ
hash_from h [] = h
hash_from h (c ∷ s) = hash_from (hash_round h c) s

-- `slam_hash_string`
unfoldable pub hash_string : Text → ℕ
unfolding hash_from
hash_string s = hash_from 0 s

-- SYS_ERRNO
abbrev pub sys_errno : ℕ
sys_errno = 256

-- the loop of `__strerror_init`, over `n` errors from `err` on
unfoldable pub strerror_init : (ℕ → Text) → ℕ → ℕ → List Text
strerror_init strerror zero err = []
strerror_init strerror (suc n) err = strerror err ∷ strerror_init strerror n (err + 1)

-- `errstring`, with `strerror` of the C library and `__errlist`
unfoldable pub errstring : (ℤ → Text) → List Text → ℤ → Text
errstring strerror errlist (negsuc n) = strerror (negsuc n)
errstring strerror errlist (pos n) =
    if ltb n sys_errno then get_or errlist n [] else strerror (pos n)

-- `slam_cpus`, for what `sysconf` answers
unfoldable pub cpus : ℤ → ℕ
cpus (negsuc n) = 1
cpus (pos n) = if ltb 0 n then u32 n else 1

-- `struct timeval`
pub record Timeval : Type 0 where
  pub tv_sec : ℕ
  pub tv_usec : ℕ

-- `slam_milliseconds`
unfoldable pub milliseconds : Timeval → ℕ
milliseconds tv = u64 (tv.tv_sec * 1000 + tv.tv_usec / 1000)

-- the seconds that `slam_timestamp` prints: now, if none are given, in China's time
abbrev pub shown_seconds : Timeval → ℕ → ℕ
shown_seconds now seconds = (if seconds == 0 then now.tv_sec else seconds) + 8 * 3600

-- `slam_timestamp`; `print` is `gmtime_r` and `strftime` with the size of the buffer.
unfoldable pub timestamp : (ℕ → Text → ℕ → Text) → Timeval → ℕ → ℕ → Option Text → Text
timestamp print now bufsize seconds none =
    print bufsize (text "%y/%02m/%02d %02H:%02M:%02S") (shown_seconds now seconds)
timestamp print now bufsize seconds (some format) = print bufsize format (shown_seconds now seconds)

-- `slam_timestamp_gmt`
unfoldable pub timestamp_gmt : (ℕ → Text → ℕ → Text) → Timeval → ℕ → ℕ → Text
timestamp_gmt print now bufsize seconds =
    print bufsize (text "%a, %d %b %Y %H:%M:%S GMT") (shown_seconds now seconds)

-- what `stat` says of a file, and the modes of `access`
pub record Stat : Type 0 where
  pub is_directory : Bool
  pub st_size : ℕ

pub data Mode : Type 0 where
  f_ok r_ok w_ok x_ok : Mode

module _ (stat : Text → Option Stat) where
  -- `slam_is_dir`
  unfoldable pub is_dir : Text → Bool
  is_dir file = elim (stat file) [ none ↦ false | some buf ↦ buf.is_directory ]

  -- `slam_file_size`
  unfoldable pub file_size : Text → ℕ
  file_size file = elim (stat file) [ none ↦ 0 | some buf ↦ buf.st_size ]

module _ (access : Text → Mode → Bool) where
  -- `slam_file_exist`, `slam_file_readable`, `slam_file_writable` and `slam_file_accessable`
  unfoldable pub file_exist : Text → Bool
  file_exist file = access file Mode.f_ok

  unfoldable pub file_readable : Text → Bool
  file_readable file = access file Mode.r_ok

  unfoldable pub file_writable : Text → Bool
  file_writable file = access file Mode.w_ok

  unfoldable pub file_accessable : Text → Bool
  file_accessable file = access file Mode.x_ok

-- `struct rlimit`, and the two resources that are limited
pub record Limit : Type 0 where
  pub rlim_cur : ℕ
  pub rlim_max : ℕ

pub data Resource : Type 0 where
  stack nofile : Resource

-- `none` is an error of `getrlimit`, false one of `setrlimit`.
module _ {W : Type 0} (getrlimit : W → Resource → Option Limit)
    (setrlimit : W → Resource → Limit → Bool × W) where
  -- `slam_set_limit_stack_size`
  unfoldable pub set_limit_stack_size : W → ℕ → Bool × W
  set_limit_stack_size w value = elim (getrlimit w Resource.stack) [
    | none ↦ (false, w)
    | some limit ↦ setrlimit w Resource.stack (record limit { rlim_cur = value })
  ]

  -- `slam_set_limit_open_files`
  unfoldable pub set_limit_open_files : W → ℕ → Bool × W
  set_limit_open_files w value = elim (getrlimit w Resource.nofile) [
    | none ↦ (false, w)
    | some limit ↦ setrlimit w Resource.nofile (record limit { rlim_cur = value })
  ]

module _ {W : Type 0} (getrlimit : W → Resource → Option Limit) where
  -- `slam_get_limit_stack_size`
  unfoldable pub get_limit_stack_size : W → ℕ
  get_limit_stack_size w = elim (getrlimit w Resource.stack) [
    | none ↦ 0
    | some limit ↦ u32 limit.rlim_cur
  ]

  -- `slam_get_limit_open_files`
  unfoldable pub get_limit_open_files : W → ℕ
  get_limit_open_files w = elim (getrlimit w Resource.nofile) [
    | none ↦ 0
    | some limit ↦ u32 limit.rlim_cur
  ]
