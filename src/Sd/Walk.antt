-- ===== src/Sd/Walk.antt =====
-- `remove_tree`, `delete_recursive`, `delete_paths` and `delete_entry` of main/sd_manager.cpp, and that the
-- recursion ends.
use gps_base_station.Prelude.{
  ℕ, zero, suc, ◌+◌, ◌≤◌, ◌<◌, ◌≡◌, refl, List, [], ◌∷◌, Option, none, some, Bool, true, false, not,
  ◌>>=◌, if◌then◌else◌, length, length-append, arith, inl, inr, Bool-cases, Option-cases, dec_lt,
}
use gps_base_station.Sd.{
  PathText, safe_path, DeleteGuard, allowed, bad_path, mount_root, managed_dir, check_deletable,
  Entry, directory, file, FsApi, Fault, not_mounted, refused, DeleteResult, no_result, u32,
  note_fail, real_names, child,
}

-- The card, the result so far, and the counter that the user interface reads.
pub record Walk (Fs : Type 0) : Type 0 where
  pub fs : Fs
  pub res : DeleteResult
  pub progress : Option ℕ

abbrev pub bump : Option ℕ → Option ℕ
bump none = none
bump (some n) = some (u32 (n + 1))

abbrev pub is_managed : DeleteGuard → Bool
is_managed managed_dir = true
is_managed allowed = false
is_managed bad_path = false
is_managed mount_root = false

abbrev pub is_refused : DeleteGuard → Bool
is_refused bad_path = true
is_refused mount_root = true
is_refused allowed = false
is_refused managed_dir = false

module _ {Fs : Type 0} where
  unfoldable pub removed : Walk Fs → PathText → Fs × Bool → Walk Fs
  removed w path (fs', done) =
      let r : DeleteResult =
        if done then record w.res { deleted = u32 (w.res.deleted + 1) } else note_fail w.res path in
      record w { fs = fs'; res = r; progress = if done then bump w.progress else w.progress }

  unfoldable pub fail : Walk Fs → PathText → Walk Fs
  fail w path = record w { res = note_fail w.res path }

  unfoldable pub skip : Walk Fs → Walk Fs
  skip w =
      let r : DeleteResult = record w.res { skipped = u32 (w.res.skipped + 1) } in
      record w { res = r }

module _ (api : FsApi) where
  open api use {Fs, max_path, stat, read_dir, unlink, rmdir}

  -- The loop over the names, each child behind its directory.
  unfoldable pub remove_children :
      (Walk Fs → PathText → Option (Walk Fs))
      → Walk Fs
      → PathText
      → List PathText
      → Option (Walk Fs)
  remove_children remove w path [] = some w
  remove_children remove w path (name ∷ names) =
      remove w (child path name) >>= λ w'. remove_children remove w' path names

  unfoldable pub close_shell : Bool → Walk Fs → PathText → Walk Fs
  unfolding removed skip
  close_shell keep_shell w path = if keep_shell then skip w else removed w path (rmdir w.fs path)

  unfoldable pub remove_listed :
      (Walk Fs → PathText → Option (Walk Fs))
      → Bool
      → Walk Fs
      → PathText
      → Option (List PathText)
      → Option (Walk Fs)
  unfolding remove_children close_shell real_names fail
  remove_listed remove keep_shell w path none = some (fail w path)
  remove_listed remove keep_shell w path (some names) =
      remove_children remove w path (real_names names) >>= λ w'.
      some (close_shell keep_shell w' path)

  unfoldable pub remove_entry :
      (Walk Fs → PathText → Option (Walk Fs))
      → Bool
      → Walk Fs
      → PathText
      → Option Entry
      → Option (Walk Fs)
  unfolding remove_listed removed fail skip
  remove_entry remove keep_shell w path none = some (fail w path)
  remove_entry remove keep_shell w path (some (file size)) =
      some (removed w path (unlink w.fs path))
  remove_entry remove keep_shell w path (some directory) =
      if safe_path path
      then remove_listed remove keep_shell w path (read_dir w.fs path)
      else some (skip w)

  -- `none` says that the fuel was spent.
  unfoldable pub remove_tree : ℕ → Bool → Walk Fs → PathText → Option (Walk Fs)
  unfolding remove_entry
  remove_tree zero keep_shell w path = none
  remove_tree (suc fuel) keep_shell w path =
      remove_entry (remove_tree fuel false) keep_shell w path (stat w.fs path)

  abbrev pub fuel_for : ℕ
  fuel_for = max_path + 2

  unfoldable pub delete_each : List (Option PathText) → Walk Fs → Option (Walk Fs)
  unfolding remove_tree
  delete_each [] w = some w
  delete_each (none ∷ paths) w = delete_each paths w
  delete_each (some path ∷ paths) w =
      remove_tree fuel_for (is_managed (check_deletable (some path))) w path >>= λ w'.
      delete_each paths w'

  -- The first path that the whole batch is refused for.
  unfoldable pub find_refused : List (Option PathText) → Option (Option PathText)
  find_refused [] = none
  find_refused (path ∷ paths) =
      let rest = find_refused paths in if is_refused (check_deletable path) then some path else rest

  abbrev pub path_text : Option PathText → PathText
  path_text none = []
  path_text (some path) = path

  unfoldable pub begin : Fs → List (Option PathText) → Option ℕ → Walk Fs
  begin fs paths progress = record { fs = fs; res = no_result (length paths); progress = progress }

  unfoldable pub give_up : Walk Fs → Fault → Walk Fs
  give_up w fault =
      let r : DeleteResult = record w.res { skipped = w.res.requested; first_error = some fault } in
      record w { res = r }

  unfoldable pub delete_checked :
      Walk Fs → List (Option PathText) → Option (Option PathText) → Option (Walk Fs)
  unfolding delete_each give_up
  delete_checked w paths none = delete_each paths w
  delete_checked w paths (some path) = some (give_up w (refused (path_text path)))

  unfoldable pub delete_paths : Bool → Fs → List (Option PathText) → Option ℕ → Option (Walk Fs)
  unfolding delete_checked begin give_up find_refused
  delete_paths mounted fs paths progress =
      let w = begin fs paths progress in
      if mounted then delete_checked w paths (find_refused paths) else some (give_up w not_mounted)

  -- One path; null is not mounted.
  unfoldable pub delete_recursive : Bool → Fs → PathText → Option ℕ → Option (Walk Fs)
  unfolding remove_tree begin give_up
  delete_recursive mounted fs path progress =
      let w = begin fs (some path ∷ []) progress in
      if not mounted
      then some (give_up w not_mounted)
      else if is_refused (check_deletable (some path))
      then some (give_up w (refused path))
      else remove_tree fuel_for (is_managed (check_deletable (some path))) w path

  remove_children_total :
      (fuel : ℕ) (w : Walk Fs) (path : PathText) (names : List PathText)
      → ((w : Walk Fs) (p : PathText)
          → length path < length p
          → (w' : Walk Fs) × (remove_tree fuel false w p ≡ some w'))
      → (w' : Walk Fs) × (remove_children (remove_tree fuel false) w path names ≡ some w')
  unfolding remove_children
  remove_children_total fuel w path [] ends = (w, refl)
  remove_children_total fuel w path (name ∷ names) ends =
      let first = ends w (child path name) (omega (arith, length-append path (47 ∷ name))) in
      let rest = remove_children_total fuel first.0 path names ends in (rest.0, rw (first.1) rest.1)

  remove_listed_total :
      (fuel : ℕ) (keep : Bool) (w : Walk Fs) (path : PathText) (listed : Option (List PathText))
      → ((w : Walk Fs) (p : PathText)
          → length path < length p
          → (w' : Walk Fs) × (remove_tree fuel false w p ≡ some w'))
      → (w' : Walk Fs) × (remove_listed (remove_tree fuel false) keep w path listed ≡ some w')
  unfolding remove_listed
  remove_listed_total fuel keep w path none ends = (fail w path, refl)
  remove_listed_total fuel keep w path (some names) ends =
      let all = remove_children_total fuel w path (real_names names) ends in
      (close_shell keep all.0 path, rw (all.1) refl)

  -- A name longer than the card allows is not found, so a directory leaves fuel for its children.
  short_path :
      (w : Walk Fs) (path : PathText) {entry : Entry}
      → stat w.fs path ≡ some entry
      → length path ≤ max_path
  short_path w path found = elim (dec_lt max_path (length path)) [
    | yes long ↦ cc (api.stat_long w.fs path long, found)
    | no short ↦ omega arith
  ]

  pub remove_tree_total :
      (fuel : ℕ) (keep : Bool) (w : Walk Fs) (path : PathText)
      → max_path + 1 < length path + fuel
      → 0 < fuel
      → (w' : Walk Fs) × (remove_tree fuel keep w path ≡ some w')
  unfolding remove_tree
  remove_tree_total zero keep w path enough some_fuel = absurd (omega arith)
  remove_tree_total (suc fuel) keep w path enough some_fuel = elim (Option-cases (stat w.fs path)) [
    | inl gone ↦ (fail w path, rw (gone, remove_entry) refl)
    | inr (file size, found) ↦ (removed w path (unlink w.fs path), rw (found, remove_entry) refl)
    | inr (directory, found) ↦ elim (Bool-cases (safe_path path)) [
      | inl safe ↦
          rw (found, remove_entry, safe)
            (remove_listed_total fuel keep w path (read_dir w.fs path) (λ v p longer.
              remove_tree_total fuel false v p (omega arith)
                (omega (arith, short_path w path found))))
      | inr unsafe ↦ (skip w, rw (found, remove_entry, unsafe) refl)
    ]
  ]
