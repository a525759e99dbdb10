-- ===== src/Station/Start.antt =====
-- `BaseStation::start` and `stop`.
use gps_base_station.Prelude.{
  ℕ, ◌≡◌, ◌⊎◌, List, none, some, Bool, true, false, not, if◌then◌else◌, codes, arith,
}
use gps_base_station.Freertos.{QueueApi}
use gps_base_station.Nvs.{NvsApi}
use gps_base_station.Storage.{Storage, load_service, service_enabled, ntrip_streams_enabled}
use gps_base_station.Ntrip.Client.{Client}
use gps_base_station.Ntrip.Client
use gps_base_station.Caster.{Caster}
use gps_base_station.Caster
use gps_base_station.Station.{Action, Station, set_streams_suspended}

-- The results of the calls that `start` makes, in its order: the action queue, and the four tasks with
-- their queues, and its own task.
pub record Spawned : Type 0 where
  pub actions_created : Bool
  pub rtk2go_created : Bool
  pub rtk2go_spawned : Bool
  pub onocoy_created : Bool
  pub onocoy_spawned : Bool
  pub rtkdata_created : Bool
  pub rtkdata_spawned : Bool
  pub lan_created : Bool
  pub lan_spawned : Bool
  pub task_spawned : Bool

module _ {D : Type 0} (nvs : NvsApi D) (zero_double : D) (actions : QueueApi (Action D))
    (packets : QueueApi (List ℕ)) where
  open nvs use {Nvs}

  -- A client, started from what is stored.
  pub start_client :
      Storage Nvs → List ℕ → Client packets.Queue → Bool → Bool → Client packets.Queue × Bool
  start_client st service c created spawned =
      let credentials = load_service nvs zero_double st service in
      Client.start packets c (service_enabled nvs zero_double st service true)
        credentials.mountpoint credentials.password created spawned

  -- `cleanup_failed_start`, and the end of `stop`: all is stopped and the action queue deleted.
  pub stop_all :
      Station D Nvs packets.Queue actions.Queue → Station D Nvs packets.Queue actions.Queue
  stop_all s = record s {
    outlets = record {
      lan = Caster.stop packets s.outlets.lan;
      rtk2go = Client.stop packets s.outlets.rtk2go;
      onocoy = Client.stop packets s.outlets.onocoy;
      rtkdata = Client.stop packets s.outlets.rtkdata;
    };
    actions = none;
  }

  -- `start`, up to the first failure.
  pub start :
      Station D Nvs packets.Queue actions.Queue
      → Spawned
      → Station D Nvs packets.Queue actions.Queue × Bool
  unfolding start_client stop_all
  start s w =
      let s0 : Station D Nvs packets.Queue actions.Queue = record s {
        stopping = false;
        actions = none;
      } in
      let s1 : Station D Nvs packets.Queue actions.Queue = record s0 {
        actions = some (actions.create 4);
        flags = record s.flags {
          user_streams_enabled = ntrip_streams_enabled nvs zero_double s.storage true;
          transient_streams_suspended = true;
        };
      } in
      let (rtk2go, ok1) =
        start_client s.storage (codes "rtk2go") s.outlets.rtk2go w.rtk2go_created
          w.rtk2go_spawned in
      let s2 : Station D Nvs packets.Queue actions.Queue = record s1 {
        outlets = record s1.outlets { rtk2go = rtk2go };
      } in
      let (onocoy, ok2) =
        start_client s.storage (codes "onocoy") s.outlets.onocoy w.onocoy_created
          w.onocoy_spawned in
      let s3 : Station D Nvs packets.Queue actions.Queue = record s2 {
        outlets = record s2.outlets { onocoy = onocoy };
      } in
      let (rtkdata, ok3) =
        start_client s.storage (codes "rtkdata") s.outlets.rtkdata w.rtkdata_created
          w.rtkdata_spawned in
      let s4 : Station D Nvs packets.Queue actions.Queue = record s3 {
        outlets = record s3.outlets { rtkdata = rtkdata };
      } in
      let (lan, ok4) = Caster.start packets s.outlets.lan w.lan_created w.lan_spawned in
      let s5 : Station D Nvs packets.Queue actions.Queue = record s4 {
        outlets = record s4.outlets { lan = lan };
      } in
      if not w.actions_created
      then (s0, false)
      else if not ok1
      then (stop_all s2, false)
      else if not ok2
      then (stop_all s3, false)
      else if not ok3
      then (stop_all s4, false)
      else if not ok4
      then (stop_all s5, false)
      else if not w.task_spawned
      then (stop_all s5, false)
      else (s5, true)

  -- `stop`, once the task has ended with `set_streams_suspended(true)` at the time `now`.
  pub stop :
      Station D Nvs packets.Queue actions.Queue → ℕ → Station D Nvs packets.Queue actions.Queue
  unfolding stop_all
  stop s now = stop_all (set_streams_suspended (record s { stopping = true }) true now)

  -- Whether a client and the local caster are ready.
  abbrev pub Ready : Station D Nvs packets.Queue actions.Queue → Type 0
  Ready s =
      (s.outlets.rtk2go.queue ≡ some (packets.create Client.k_queue_depth))
      × (s.outlets.onocoy.queue ≡ some (packets.create Client.k_queue_depth))
      × (s.outlets.rtkdata.queue ≡ some (packets.create Client.k_queue_depth))
      × (s.outlets.lan.queue ≡ some (packets.create Caster.k_queue_depth))

  start_client_lem :
      (st : Storage Nvs) (service : List ℕ) (c : Client packets.Queue) (created spawned : Bool)
      → let (c', ok) = start_client st service c created spawned in
        ((ok ≡ true) × (c'.queue ≡ some (packets.create Client.k_queue_depth))) ⊎ (ok ≡ false)
  unfolding start_client Client.start
  start_client_lem st service c created spawned = ground arith

  start_caster_lem :
      (c : Caster packets.Queue) (created spawned : Bool)
      → let (c', ok) = Caster.start packets c created spawned in
        ((ok ≡ true) × (c'.queue ≡ some (packets.create Caster.k_queue_depth))) ⊎ (ok ≡ false)
  unfolding Caster.start
  start_caster_lem c created spawned = ground arith

  -- A start that succeeds has an action queue, a packet queue for each of the four outlets, and the
  -- transient suspension on; one that fails leaves no action queue.
  pub start_lem :
      (s : Station D Nvs packets.Queue actions.Queue) (w : Spawned)
      → let (s', ok) = start s w in
        ((ok ≡ true)
          × (s'.actions ≡ some (actions.create 4))
          × (s'.flags.transient_streams_suspended ≡ true)
          × Ready s')
        ⊎ ((ok ≡ false) × (s'.actions ≡ none))
  unfolding start stop_all
  start_lem s w = ground (
    arith,
    start_client_lem s.storage (codes "rtk2go") s.outlets.rtk2go w.rtk2go_created w.rtk2go_spawned,
    start_client_lem s.storage (codes "onocoy") s.outlets.onocoy w.onocoy_created w.onocoy_spawned,
    start_client_lem s.storage (codes "rtkdata") s.outlets.rtkdata w.rtkdata_created
        w.rtkdata_spawned,
    start_caster_lem s.outlets.lan w.lan_created w.lan_spawned,
  )
