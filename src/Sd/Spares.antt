-- ===== src/Sd/Spares.antt =====
-- The file that the RINEX logger writes survives the job that main/sd_delete.cpp starts.
use gps_base_station.Prelude.{
  ◌<◌, ◌≡◌, refl, subst, ◌≢◌, List, [], ◌∷◌, ◌++◌, Option, none, some, Bool, true, false, ◌&&◌, ltb,
  length, get_elem?, starts_with, arith, inl, inr,
}
use gps_base_station.Nvs.{same-of-eq}
use gps_base_station.Sd.{PathText, FsApi}
use gps_base_station.Sd.Preview.{DeletePreview, preview_delete_many}
use gps_base_station.Sd.Keeps.{Asked, Below, delete_paths-Keeps}
use gps_base_station.Sd.Job.{
  Logging, is_slash, covers, any_covers, blocks_active_file, Job, copied, start, launch,
  launch_previewed, finish, finished, delete_task,
}

-- A text that starts with a path and a slash.
inside :
    (file root : PathText)
    → starts_with file (root ++ 47 ∷ []) ≡ true
    → (ltb (length root) (length file)
        && starts_with file root
        && is_slash (get_elem? file (length root)))
      ≡ true
inside [] [] h = absurd (ground arith)
inside (c ∷ file) [] h = ground arith
inside [] (r ∷ root) h = absurd (ground arith)
inside (c ∷ file) (r ∷ root) h = ground (arith, inside file root)

covers-Below : (file root : PathText) → Below root file → covers file root ≡ true
unfolding covers
covers-Below file root (inl e) = ground (arith, same-of-eq file root e)
covers-Below file root (inr h) = ground (arith, inside file root h)

any_covers-Asked :
    (file root : PathText) (paths : List (Option PathText))
    → Asked root (copied paths)
    → covers file root ≡ true
    → any_covers file paths ≡ true
unfolding any_covers copied
any_covers-Asked file root [] asked c = elim asked [ ]
any_covers-Asked file root (none ∷ paths) asked c = any_covers-Asked file root paths asked c
any_covers-Asked file root (some p ∷ paths) (inl e) c = ground arith
any_covers-Asked file root (some p ∷ paths) (inr asked) c =
    ground (arith, any_covers-Asked file root paths asked c)

spared :
    (rs : Logging) (paths : List (Option PathText)) (root path : PathText)
    → rs.active ≡ true
    → 0 < length rs.current_file
    → Asked root (copied paths)
    → blocks_active_file rs paths ≡ false
    → Below root path
    → path ≢ rs.current_file
unfolding blocks_active_file
spared rs paths root path active named asked open_ below same_path = ground (
  arith,
  any_covers-Asked rs.current_file root paths asked
      (covers-Below rs.current_file root (subst (Below root) same_path below)),
)

module _ (api : FsApi) where
  open api use {Fs, unlink, rmdir}

  launched_paths :
      (job job' : Job) (paths : List (Option PathText)) (created : Bool)
      (counted : Option DeletePreview)
      → launch_previewed api job paths created counted ≡ some (job', true)
      → job'.paths ≡ paths
  unfolding launch_previewed launch
  launched_paths job job' paths created none e = ground arith
  launched_paths job job' paths created (some pv) e = ground arith

  started :
      (mounted : Bool) (fs : Fs) (rs : Logging) (created : Bool) (job job' : Job)
      (paths : List (Option PathText))
      → start api mounted fs rs created job paths ≡ some (job', true)
      → (blocks_active_file rs paths ≡ false) × (job'.paths ≡ copied paths)
  unfolding start
  started mounted fs rs created job job' paths e = ground (
    arith,
    launched_paths job job' (copied paths) created (preview_delete_many api mounted fs paths),
  )

  -- If a deletion is started while the RINEX logger writes a file, its task ends, and what holds of the
  -- card then and survives the removal of any path that is not, as a text, that file's still holds.
  pub start-Spares :
      (K : Fs → Type 0) (mounted mounted' : Bool) (fs fs' : Fs) (rs : Logging) (created : Bool)
      (job job' : Job) (paths : List (Option PathText))
      → rs.active ≡ true
      → 0 < length rs.current_file
      → ((fs : Fs) (path : PathText)
          → path ≢ rs.current_file
          → K fs
          → K (unlink fs path).0 × K (rmdir fs path).0)
      → start api mounted fs rs created job paths ≡ some (job', true)
      → K fs'
      → (job'' : Job) × (end : Fs) × (delete_task api mounted' fs' job' ≡ some (job'', end)) × K end
  unfolding delete_task finished
  start-Spares K mounted mounted' fs fs' rs created job job' paths active named keeps e k =
      let facts = started mounted fs rs created job job' paths e in
      let run =
        delete_paths-Keeps api K mounted' fs' (copied paths) (some job'.done)
          (λ root asked fine. (
            λ f path below kf.
                (keeps f path (spared rs paths root path active named asked facts.0 below) kf).0,
            λ f path shell kf.
                (keeps f path (spared rs paths root path active named asked facts.0 shell.0) kf).1,
          ))
          k in
      (finish api job' run.0, run.0.fs, rw (facts.1, run.1) refl, run.2)
