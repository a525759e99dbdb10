-- ===== src/Sd.antt =====
-- The file operations of `SdManager` (main/sd_manager.cpp): which paths may be deleted, and the
-- deletion of trees. The file system of ESP-IDF is an interface.
pub mod Walk
pub mod Keeps
pub mod Preview
pub mod Job
pub mod Spares
pub mod Reference
mod Tests
use gps_base_station.Prelude.{
  ℕ, zero, suc, ◌+◌, ◌%◌, ◌^◌, ◌<◌, ◌≡◌, List, [], ◌∷◌, ◌++◌, Option, none, some, Bool, true, false,
  not, ◌&&◌, ◌||◌, ltb, ◌==◌, if◌then◌else◌, length, get_elem?, take, codes, starts_with,
}
use gps_base_station.Nvs.{same}

abbrev pub PathText : Type 0
PathText = List ℕ

abbrev pub mount_point : PathText
mount_point = codes "/sdcard"

-- `strstr(path, "..")`.
unfoldable pub has_dots : PathText → Bool
has_dots [] = false
has_dots (c ∷ path) = starts_with (c ∷ path) (codes "..") || has_dots path

abbrev pub ends_or_slash : Option ℕ → Bool
ends_or_slash none = true
ends_or_slash (some c) = c == 47

-- A path is a C string, `none` the null pointer.
unfoldable pub safe_path : PathText → Bool
unfolding has_dots
safe_path path =
    starts_with path mount_point
    && ends_or_slash (get_elem? path (length mount_point))
    && not (has_dots path)

pub data DeleteGuard : Type 0 where
  allowed bad_path mount_root managed_dir : DeleteGuard

-- A slash at the end is dropped.
unfoldable pub without_slash : PathText → PathText
without_slash [] = []
without_slash (c ∷ []) = if c == 47 then [] else c ∷ []
without_slash (c ∷ d ∷ path) = c ∷ without_slash (d ∷ path)

-- `norm` holds 259 characters.
unfoldable pub normalized : PathText → PathText
unfolding without_slash
normalized path =
    let norm = take 259 path in
    if ltb (length mount_point) (length norm) then without_slash norm else norm

unfoldable pub guard_path : PathText → DeleteGuard
unfolding safe_path normalized
guard_path path =
    if not (safe_path path)
    then bad_path
    else if same (normalized path) mount_point
    then mount_root
    else if same (normalized path) (codes "/sdcard/logs")
    then managed_dir
    else if same (normalized path) (codes "/sdcard/rawdata")
    then managed_dir
    else allowed

unfoldable pub check_deletable : Option PathText → DeleteGuard
unfolding guard_path
check_deletable none = bad_path
check_deletable (some path) = guard_path path

-- What `stat` says of an entry.
pub data Entry : Type 0 where
  directory : Entry
  file : ℕ → Entry

-- FATFS behind the VFS: no path above its limit is found.
pub record FsApi : Type 1 where
  pub Fs : Type 0
  pub max_path : ℕ
  pub stat : Fs → PathText → Option Entry
  pub read_dir : Fs → PathText → Option (List PathText)
  pub unlink : Fs → PathText → Fs × Bool
  pub rmdir : Fs → PathText → Fs × Bool
  pub stat_long : (fs : Fs) (path : PathText) → max_path < length path → stat fs path ≡ none

-- What `first_error` says.
pub data Fault : Type 0 where
  not_mounted : Fault
  refused failed_at : PathText → Fault

pub record DeleteResult : Type 0 where
  pub requested : ℕ
  pub deleted : ℕ
  pub failed : ℕ
  pub skipped : ℕ
  pub first_error : Option Fault

abbrev pub no_result : ℕ → DeleteResult
no_result n = record { requested = n; deleted = 0; failed = 0; skipped = 0; first_error = none }

abbrev pub u32 : ℕ → ℕ
u32 n = n % 2 ^ 32

abbrev pub or_first : Option Fault → Fault → Option Fault
or_first none fault = some fault
or_first (some first) fault = some first

unfoldable pub note_fail : DeleteResult → PathText → DeleteResult
note_fail res path = record res {
  failed = u32 (res.failed + 1);
  first_error = or_first res.first_error (failed_at path);
}

-- `names` less the directory itself and its parent.
unfoldable pub real_names : List PathText → List PathText
real_names [] = []
real_names (name ∷ names) =
    let rest = real_names names in
    if same name (codes ".") || same name (codes "..") then rest else name ∷ rest

abbrev pub child : PathText → PathText → PathText
child path name = path ++ 47 ∷ name
