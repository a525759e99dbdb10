-- ===== src/Sd/Keeps.antt =====
-- What a deletion touches: entries at or below the paths it was asked for, and never the shell of a
-- directory that the firmware manages.
use gps_base_station.Prelude.{
  ℕ, zero, suc, ◌≤◌, ◌<◌, ◌≡◌, refl, sym, ap, subst, ◌≢◌, ◌⊎◌, List, [], ◌∷◌, ◌++◌, Option, none,
  some, Bool, true, false, ◌>>=◌, length, length-append, starts_with, arith, inl, inr, Bool-cases,
  Option-cases,
}
use gps_base_station.Sd.{
  PathText, safe_path, check_deletable, Entry, directory, file, FsApi, not_mounted, refused,
  real_names, child,
}
use gps_base_station.Sd.Walk.{
  Walk, is_managed, is_refused, removed, fail, skip, remove_children, close_shell, remove_listed,
  remove_entry, remove_tree, remove_tree_total, fuel_for, delete_each, find_refused, begin, give_up,
  delete_checked, delete_paths, path_text,
}

-- Membership of a path that is not null.
abbrev pub Asked : PathText → List (Option PathText) → Type 0
Asked root [] = ⊥
Asked root (path ∷ paths) = (path ≡ some root) ⊎ Asked root paths

-- A path that the removal of `root` may unlink: itself, or an entry in it.
abbrev pub Below : PathText → PathText → Type 0
Below root path = (path ≡ root) ⊎ (starts_with path (root ++ 47 ∷ []) ≡ true)

-- A directory that it may remove: not the managed directory itself.
abbrev pub Shell : PathText → PathText → Type 0
Shell root path = Below root path × (is_managed (check_deletable (some root)) ≡ true → path ≢ root)

starts_with_self : (root rest : PathText) → starts_with (root ++ 47 ∷ rest) (root ++ 47 ∷ []) ≡ true
starts_with_self [] rest = ground arith
starts_with_self (c ∷ root) rest = ground (arith, starts_with_self root rest)

starts_with-append :
    (path root rest : PathText)
    → starts_with path root ≡ true
    → starts_with (path ++ rest) root ≡ true
starts_with-append path [] rest h = refl
starts_with-append [] (r ∷ root) rest h = absurd (ground arith)
starts_with-append (c ∷ path) (r ∷ root) rest h = ground (arith, starts_with-append path root rest)

starts_with-length :
    (path root : PathText) → starts_with path root ≡ true → length root ≤ length path
starts_with-length path [] h = omega arith
starts_with-length [] (r ∷ root) h = absurd (ground arith)
starts_with-length (c ∷ path) (r ∷ root) h = ground (arith, starts_with-length path root)

child-starts :
    (root path name : PathText)
    → Below root path
    → starts_with (child path name) (root ++ 47 ∷ []) ≡ true
child-starts root path name (inl e) =
    subst (λ p. starts_with (child p name) (root ++ 47 ∷ []) ≡ true) (sym e)
      (starts_with_self root name)
child-starts root path name (inr h) = starts_with-append path (root ++ 47 ∷ []) (47 ∷ name) h

longer-ne : (path root : PathText) → length root < length path → path ≢ root
longer-ne path root lt e = omega (arith, ap length e)

child-Shell : (root path name : PathText) → Below root path → Shell root (child path name)
child-Shell root path name below =
    let h = child-starts root path name below in
    (
      inr h,
      λ managed. longer-ne (child path name) root (
          omega (
            arith,
            starts_with-length (child path name) (root ++ 47 ∷ []) h,
            length-append root (47 ∷ []),
          )),
    )

-- What holds of the card at the end, where there is an end.
abbrev pub Ends : {Fs : Type 0} → (Fs → Type 0) → Option (Walk Fs) → Type 0
Ends K none = Unit {0}
Ends K (some w) = K w.fs

Ends->>= :
    {Fs : Type 0} (K : Fs → Type 0) (m : Option (Walk Fs)) (f : Walk Fs → Option (Walk Fs))
    → Ends K m
    → ((w : Walk Fs) → K w.fs → Ends K (f w))
    → Ends K (m >>= f)
Ends->>= K none f first then_ = tt
Ends->>= K (some w) f first then_ = then_ w first

-- `K` is what is to be kept.
module _ (api : FsApi) (K : api.Fs → Type 0) (root : PathText)
    (keeps_unlink : (fs : api.Fs) (path : PathText)
      → Below root path
      → K fs
      → K (api.unlink fs path).0)
    (keeps_rmdir : (fs : api.Fs) (path : PathText)
      → Shell root path
      → K fs
      → K (api.rmdir fs path).0) where
  open api use {Fs, stat, read_dir, unlink, rmdir}

  close_shell-Keeps :
      (keep : Bool) (w : Walk Fs) (path : PathText)
      → (keep ≡ false → Shell root path)
      → K w.fs
      → K (close_shell api keep w path).fs
  unfolding close_shell removed skip
  close_shell-Keeps true w path shell k = k
  close_shell-Keeps false w path shell k = keeps_rmdir w.fs path (shell refl) k

  remove_children-Keeps :
      (remove : Walk Fs → PathText → Option (Walk Fs)) (w : Walk Fs) (path : PathText)
      (names : List PathText)
      → ((v : Walk Fs) (name : PathText) → K v.fs → Ends K (remove v (child path name)))
      → K w.fs
      → Ends K (remove_children api remove w path names)
  unfolding remove_children
  remove_children-Keeps remove w path [] each k = k
  remove_children-Keeps remove w path (name ∷ names) each k =
      Ends->>= K (remove w (child path name)) (λ v. remove_children api remove v path names)
        (each w name k) (λ v kept. remove_children-Keeps remove v path names each kept)

  remove_listed-Keeps :
      (remove : Walk Fs → PathText → Option (Walk Fs)) (keep : Bool) (w : Walk Fs) (path : PathText)
      (listed : Option (List PathText))
      → ((v : Walk Fs) (name : PathText) → K v.fs → Ends K (remove v (child path name)))
      → (keep ≡ false → Shell root path)
      → K w.fs
      → Ends K (remove_listed api remove keep w path listed)
  unfolding remove_listed fail
  remove_listed-Keeps remove keep w path none each shell k = k
  remove_listed-Keeps remove keep w path (some names) each shell k =
      Ends->>= K (remove_children api remove w path (real_names names))
        (λ v. some (close_shell api keep v path))
        (remove_children-Keeps remove w path (real_names names) each k)
        (λ v kept. close_shell-Keeps keep v path shell kept)

  remove_entry-Keeps :
      (fuel : ℕ) (keep : Bool) (w : Walk Fs) (path : PathText) (found : Option Entry)
      → ((v : Walk Fs) (p : PathText)
          → Below root p
          → (false ≡ false → Shell root p)
          → K v.fs
          → Ends K (remove_tree api fuel false v p))
      → Below root path
      → (keep ≡ false → Shell root path)
      → K w.fs
      → Ends K (remove_entry api (remove_tree api fuel false) keep w path found)
  unfolding remove_entry fail skip removed
  remove_entry-Keeps fuel keep w path none each below shell k = k
  remove_entry-Keeps fuel keep w path (some (file size)) each below shell k =
      keeps_unlink w.fs path below k
  remove_entry-Keeps fuel keep w path (some directory) each below shell k =
      elim (Bool-cases (safe_path path)) [
        | inl safe ↦ rw safe (
            remove_listed-Keeps (remove_tree api fuel false) keep w path (read_dir w.fs path)
              (λ v name kept.
                each v (child path name) (child-Shell root path name below).0
                  (λ e. child-Shell root path name below) kept)
              shell k)
        | inr unsafe ↦ rw unsafe k
      ]

  pub remove_tree-Keeps :
      (fuel : ℕ) (keep : Bool) (w : Walk Fs) (path : PathText)
      → Below root path
      → (keep ≡ false → Shell root path)
      → K w.fs
      → Ends K (remove_tree api fuel keep w path)
  unfolding remove_tree
  remove_tree-Keeps zero keep w path below shell k = tt
  remove_tree-Keeps (suc fuel) keep w path below shell k =
      remove_entry-Keeps fuel keep w path (stat w.fs path) (λ v p. remove_tree-Keeps fuel false v p)
        below shell k

-- The same for a batch: what each of its paths keeps is kept.
module _ (api : FsApi) (K : api.Fs → Type 0) where
  open api use {Fs}

  abbrev pub Spares : List (Option PathText) → Type 0
  Spares paths =
      (root : PathText)
      → Asked root paths
      → is_refused (check_deletable (some root)) ≡ false
      → ((fs : Fs) (path : PathText) → Below root path → K fs → K (api.unlink fs path).0)
        × ((fs : Fs) (path : PathText) → Shell root path → K fs → K (api.rmdir fs path).0)

  accepted_first :
      (path : Option PathText) (paths : List (Option PathText))
      → find_refused api (path ∷ paths) ≡ none
      → (is_refused (check_deletable path) ≡ false) × (find_refused api paths ≡ none)
  unfolding find_refused
  accepted_first path paths e = ground arith

  managed-Shell :
      (root : PathText) → is_managed (check_deletable (some root)) ≡ false → Shell root root
  managed-Shell root plain = (inl refl, λ managed. absurd (cc (plain, managed)))

  delete_each-Keeps :
      (paths : List (Option PathText)) (w : Walk Fs)
      → find_refused api paths ≡ none
      → Spares paths
      → K w.fs
      → Ends K (delete_each api paths w)
  unfolding delete_each
  delete_each-Keeps [] w fine spares k = k
  delete_each-Keeps (none ∷ paths) w fine spares k =
      delete_each-Keeps paths w (accepted_first none paths fine).1
        (λ root asked. spares root (inr asked)) k
  delete_each-Keeps (some path ∷ paths) w fine spares k =
      let first = accepted_first (some path) paths fine in
      let spared = spares path (inl refl) first.0 in
      Ends->>= K (remove_tree api (fuel_for api) (is_managed (check_deletable (some path))) w path)
        (λ v. delete_each api paths v)
        (remove_tree-Keeps api K path spared.0 spared.1 (fuel_for api)
          (is_managed (check_deletable (some path))) w path (inl refl) (managed-Shell path) k)
        (λ v kept. delete_each-Keeps paths v first.1 (λ root asked. spares root (inr asked)) kept)

  delete_paths-Ends :
      (mounted : Bool) (fs : Fs) (paths : List (Option PathText)) (progress : Option ℕ)
      → Spares paths
      → K fs
      → Ends K (delete_paths api mounted fs paths progress)
  unfolding delete_paths delete_checked begin give_up
  delete_paths-Ends false fs paths progress spares k = k
  delete_paths-Ends true fs paths progress spares k = elim (Option-cases (find_refused api paths)) [
    | inl fine ↦ rw fine (delete_each-Keeps paths (begin api fs paths progress) fine spares k)
    | inr (path, bad) ↦ rw bad k
  ]

  delete_each_total :
      (paths : List (Option PathText)) (w : Walk Fs)
      → (w' : Walk Fs) × (delete_each api paths w ≡ some w')
  unfolding delete_each
  delete_each_total [] w = (w, refl)
  delete_each_total (none ∷ paths) w = delete_each_total paths w
  delete_each_total (some path ∷ paths) w =
      let first =
        remove_tree_total api (fuel_for api) (is_managed (check_deletable (some path))) w path
          (omega arith) (omega arith) in
      let rest = delete_each_total paths first.0 in (rest.0, rw (first.1) rest.1)

  delete_paths_total :
      (mounted : Bool) (fs : Fs) (paths : List (Option PathText)) (progress : Option ℕ)
      → (w : Walk Fs) × (delete_paths api mounted fs paths progress ≡ some w)
  unfolding delete_paths delete_checked
  delete_paths_total false fs paths progress =
      (give_up api (begin api fs paths progress) not_mounted, refl)
  delete_paths_total true fs paths progress = elim (Option-cases (find_refused api paths)) [
    | inl fine ↦ rw fine (delete_each_total paths (begin api fs paths progress))
    | inr (path, bad) ↦
        (give_up api (begin api fs paths progress) (refused (path_text api path)), rw bad refl)
  ]

  -- The deletion of a batch ends, and what holds of the card before it still holds behind it, if it
  -- survives the unlinking of any entry at or below an accepted path of the batch, and the removal of any
  -- directory there but a managed directory itself.
  pub delete_paths-Keeps :
      (mounted : Bool) (fs : Fs) (paths : List (Option PathText)) (progress : Option ℕ)
      → Spares paths
      → K fs
      → (w : Walk Fs) × (delete_paths api mounted fs paths progress ≡ some w) × K w.fs
  delete_paths-Keeps mounted fs paths progress spares k =
      let ends = delete_paths_total mounted fs paths progress in
      (ends.0, ends.1, subst (Ends K) ends.1 (delete_paths-Ends mounted fs paths progress spares k))
