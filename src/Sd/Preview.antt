-- ===== src/Sd/Preview.antt =====
-- `preview_walk`, `preview_delete` and `preview_delete_many` of main/sd_manager.cpp: the count of what a
-- deletion would remove.
use gps_base_station.Prelude.{
  ℕ, zero, suc, ◌+◌, ◌-◌, ◌%◌, ◌^◌, ◌<◌, ◌≡◌, refl, List, [], ◌∷◌, Option, none, some, Bool, true,
  false, ◌&&◌, ◌||◌, ◌>>=◌, ltb, leb, if◌then◌else◌, length, length-append, arith, inl, inr,
  Bool-cases, Option-cases, dec_lt,
}
use gps_base_station.Sd.{
  PathText, check_deletable, Entry, directory, file, FsApi, u32, real_names, child,
}
use gps_base_station.Sd.Walk.{is_managed}

pub record DeletePreview : Type 0 where
  pub ok : Bool
  pub files : ℕ
  pub dirs : ℕ
  pub bytes : ℕ
  pub truncated : Bool

abbrev pub no_preview : DeletePreview
no_preview = record { ok = false; files = 0; dirs = 0; bytes = 0; truncated = false }

abbrev pub k_preview_walk_cap : ℕ
k_preview_walk_cap = 4096

abbrev pub at_cap : DeletePreview → Bool
at_cap pv = leb k_preview_walk_cap (u32 (pv.files + pv.dirs))

abbrev pub truncate : DeletePreview → DeletePreview
truncate pv = record pv { truncated = true }

abbrev pub count_file : DeletePreview → ℕ → DeletePreview
count_file pv size = record pv { files = u32 (pv.files + 1); bytes = (pv.bytes + size) % 2 ^ 64 }

abbrev pub count_dir : DeletePreview → DeletePreview
count_dir pv = record pv { dirs = u32 (pv.dirs + 1) }

abbrev pub is_directory : Entry → Bool
is_directory directory = true
is_directory (file size) = false

-- A managed directory keeps its shell, which is not counted.
unfoldable pub without_shell : PathText → Entry → DeletePreview → DeletePreview
without_shell path entry pv =
    if is_directory entry && is_managed (check_deletable (some path)) && ltb 0 pv.dirs
    then record pv { dirs = pv.dirs - 1; ok = true }
    else record pv { ok = true }

unfoldable pub add_preview : DeletePreview → DeletePreview → DeletePreview
add_preview total one =
    if one.ok
    then record total {
      files = u32 (total.files + one.files);
      dirs = u32 (total.dirs + one.dirs);
      bytes = (total.bytes + one.bytes) % 2 ^ 64;
      truncated = one.truncated || total.truncated;
    }
    else total

module _ (api : FsApi) where
  open api use {Fs, max_path, stat, read_dir}

  unfoldable pub preview_children :
      (DeletePreview → PathText → Option DeletePreview)
      → DeletePreview
      → PathText
      → List PathText
      → Option DeletePreview
  preview_children walk pv path [] = some pv
  preview_children walk pv path (name ∷ names) =
      let more = walk pv (child path name) >>= λ pv'. preview_children walk pv' path names in
      if at_cap pv then some (truncate pv) else more

  unfoldable pub preview_listed :
      (DeletePreview → PathText → Option DeletePreview)
      → DeletePreview
      → PathText
      → Option (List PathText)
      → Option DeletePreview
  unfolding preview_children real_names
  preview_listed walk pv path none = some pv
  preview_listed walk pv path (some names) =
      preview_children walk pv path (real_names names) >>= λ pv'. some (count_dir pv')

  unfoldable pub preview_entry :
      Fs
      → (DeletePreview → PathText → Option DeletePreview)
      → DeletePreview
      → PathText
      → Option Entry
      → Option DeletePreview
  unfolding preview_listed
  preview_entry fs walk pv path none = some pv
  preview_entry fs walk pv path (some (file size)) = some (count_file pv size)
  preview_entry fs walk pv path (some directory) = preview_listed walk pv path (read_dir fs path)

  -- `none` says that the fuel was spent.
  unfoldable pub preview_walk : Fs → ℕ → DeletePreview → PathText → Option DeletePreview
  unfolding preview_entry
  preview_walk fs zero pv path = none
  preview_walk fs (suc fuel) pv path =
      let looked = preview_entry fs (preview_walk fs fuel) pv path (stat fs path) in
      if at_cap pv then some (truncate pv) else looked

  unfoldable pub preview_found : Fs → PathText → Option Entry → Option DeletePreview
  unfolding preview_walk without_shell
  preview_found fs path none = some no_preview
  preview_found fs path (some entry) =
      preview_walk fs (max_path + 2) no_preview path >>= λ pv. some (without_shell path entry pv)

  unfoldable pub preview_delete : Bool → Fs → PathText → Option DeletePreview
  unfolding preview_found
  preview_delete mounted fs path =
      if mounted then preview_found fs path (stat fs path) else some no_preview

  unfoldable pub preview_each : Fs → DeletePreview → List (Option PathText) → Option DeletePreview
  unfolding preview_delete add_preview
  preview_each fs total [] = some total
  preview_each fs total (none ∷ paths) = preview_each fs total paths
  preview_each fs total (some path ∷ paths) =
      let more =
        preview_delete true fs path >>= λ one. preview_each fs (add_preview total one) paths in
      if at_cap total then some (truncate total) else more

  unfoldable pub preview_delete_many : Bool → Fs → List (Option PathText) → Option DeletePreview
  unfolding preview_each
  preview_delete_many mounted fs paths =
      if mounted
      then (preview_each fs no_preview paths >>= λ pv. some (record pv { ok = true }))
      else some no_preview

  abbrev pub Returns : Option DeletePreview → Type 0
  Returns o = (pv : DeletePreview) × (o ≡ some pv)

  preview_children_total :
      (walk : DeletePreview → PathText → Option DeletePreview) (pv : DeletePreview)
      (path : PathText) (names : List PathText)
      → ((pv : DeletePreview) (name : PathText) → Returns (walk pv (child path name)))
      → Returns (preview_children walk pv path names)
  unfolding preview_children
  preview_children_total walk pv path [] each = (pv, refl)
  preview_children_total walk pv path (name ∷ names) each = elim (Bool-cases (at_cap pv)) [
    | inl full ↦ (truncate pv, rw full refl)
    | inr room ↦
        let first = each pv name in
        let rest = preview_children_total walk first.0 path names each in
        (rest.0, rw (room, first.1) rest.1)
  ]

  preview_entry_total :
      (fs : Fs) (walk : DeletePreview → PathText → Option DeletePreview) (pv : DeletePreview)
      (path : PathText) (found : Option Entry)
      → (found ≡ some directory
          → (pv : DeletePreview) (name : PathText) → Returns (walk pv (child path name)))
      → Returns (preview_entry fs walk pv path found)
  unfolding preview_entry preview_listed
  preview_entry_total fs walk pv path none each = (pv, refl)
  preview_entry_total fs walk pv path (some (file size)) each = (count_file pv size, refl)
  preview_entry_total fs walk pv path (some directory) each =
      elim (Option-cases (read_dir fs path)) [
        | inl shut ↦ (pv, rw shut refl)
        | inr (names, listed) ↦
            let all = preview_children_total walk pv path (real_names names) (each refl) in
            (count_dir all.0, rw (listed, all.1) refl)
      ]

  -- The walk of a preview ends, on any card and from any path.
  pub preview_walk_total :
      (fs : Fs) (fuel : ℕ) (pv : DeletePreview) (path : PathText)
      → max_path + 1 < length path + fuel
      → 0 < fuel
      → Returns (preview_walk fs fuel pv path)
  unfolding preview_walk
  preview_walk_total fs zero pv path enough some_fuel = absurd (omega arith)
  preview_walk_total fs (suc fuel) pv path enough some_fuel = elim (Bool-cases (at_cap pv)) [
    | inl full ↦ (truncate pv, rw full refl)
    | inr room ↦ rw room (
        preview_entry_total fs (preview_walk fs fuel) pv path (stat fs path) (λ found pv' name.
          elim (dec_lt max_path (length path)) [
            | yes long ↦ absurd (cc (api.stat_long fs path long, found))
            | no short ↦
                preview_walk_total fs fuel pv' (child path name)
                  (omega (arith, length-append path (47 ∷ name))) (omega arith)
          ]))
  ]
