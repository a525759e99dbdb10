-- ===== src/Sd/Tests.antt =====
-- Runs on a small card.
use gps_base_station.Prelude.{
  ◌≡◌, refl, sym, ap, subst, ◌∙◌, ◌≢◌, inl, inr, [], ◌∷◌, Option, none, some, true, false, codes,
}
use gps_base_station.Sd.{
  PathText, allowed, bad_path, mount_root, managed_dir, check_deletable, directory, file, no_result,
}
use gps_base_station.Sd.Walk.{Walk, delete_paths}
use gps_base_station.Sd.Keeps.{Shell, Spares, delete_paths-Keeps}
use gps_base_station.Sd.Job.{Job, idle, running, blocks_active_file, start}
use gps_base_station.Sd.Reference.{
  Card, card_api, card_stat, look, look-unlink, look-rmdir, look-unlink_directory,
}

abbrev logs : PathText
logs = codes "/sdcard/logs"

abbrev record_file : PathText
record_file = codes "/sdcard/rawdata/B.rnx"

abbrev small : Card
small =
    (logs, directory)
    ∷ (codes "/sdcard/logs/a", file 3)
    ∷ (codes "/sdcard/rawdata", directory)
    ∷ (record_file, file 5)
    ∷ (codes "/sdcard/old", file 9)
    ∷ []

guards :
    (check_deletable (some (codes "/sdcard/")) ≡ mount_root)
    × (check_deletable (some (codes "/sdcard/logs/")) ≡ managed_dir)
    × (check_deletable (some (codes "/sdcard/../x")) ≡ bad_path)
    × (check_deletable (some (codes "/sdcard/old")) ≡ allowed)
unfolding check_deletable
guards = (refl, refl, refl, refl)

-- A second slash hides the root and the managed directories from the guard.
double_slash :
    (check_deletable (some (codes "/sdcard//")) ≡ allowed)
    × (check_deletable (some (codes "/sdcard//logs")) ≡ allowed)
unfolding check_deletable
double_slash = (refl, refl)

-- A directory named with a slash at its end hides the file that is written in it.
slash_at_end :
    (blocks_active_file
        (record { active = true; current_file = record_file })
        (some (codes "/sdcard/rawdata") ∷ [])
      ≡ true)
    × (blocks_active_file
          (record { active = true; current_file = record_file })
          (some (codes "/sdcard/rawdata/") ∷ [])
        ≡ false)
unfolding blocks_active_file
slash_at_end = (refl, refl)

abbrev asked_path : Option PathText → PathText
asked_path none = []
asked_path (some path) = path

not_logs : (root path : PathText) → root ≡ logs → Shell root path → path ≢ logs
unfolding check_deletable
not_logs root path e shell = (subst (λ r. Shell r path) e shell).1 refl

logs-Spares : Spares card_api (λ fs. look fs logs ≡ some directory) (some logs ∷ [])
logs-Spares root (inl e) fine = (
  λ fs path below k. look-unlink_directory fs path logs k,
  λ fs path shell k.
      look-rmdir fs path logs (look fs path) (not_logs root path (sym (ap asked_path e)) shell) ∙ k,
)
logs-Spares root (inr asked) fine = elim asked [ ]

delete_paths-Keeps_example :
    (w : Walk Card) × (delete_paths card_api true small (some logs ∷ []) none ≡ some w)
    × (look w.fs logs ≡ some directory)
unfolding look
delete_paths-Keeps_example =
    delete_paths-Keeps card_api (λ fs. look fs logs ≡ some directory) true small (some logs ∷ [])
      none logs-Spares refl

abbrev idle_job : Job
idle_job = record { state = idle; done = 0; total = 0; result = no_result 0; paths = [] }

abbrev started_job : Job
started_job = record {
  state = running;
  done = 0;
  total = 1;
  result = no_result 0;
  paths = some (codes "/sdcard/old") ∷ [];
}

record_kept :
    (fs : Card) (path : PathText)
    → path ≢ record_file
    → look fs record_file ≡ some (file 5)
    → (look (card_api.unlink fs path).0 record_file ≡ some (file 5))
      × (look (card_api.rmdir fs path).0 record_file ≡ some (file 5))
record_kept fs path ne k = (
  look-unlink fs path record_file (look fs path) ne ∙ k,
  look-rmdir fs path record_file (look fs path) ne ∙ k,
)

start_started :
    start card_api true small
      (record { active = true; current_file = record_file })
      true
      idle_job
      (none ∷ some (codes "/sdcard/old") ∷ [])
    ≡ some (started_job, true)
unfolding start look card_stat
start_started = refl
