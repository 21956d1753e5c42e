-- ===== src/Init/Boot.antt =====
-- `boot` of cmd/k0smos/init_linux.go: one call for each part that does its work on the machine; what
-- the boot decides itself, and what it hands from part to part, is computed by the parts' own
-- definitions. Console lines and the boot record are left out.
use k0smos.Base.{
  ℕ, Bool, true, false, not, ◌&&◌, Option, none, some, List, [], ◌∷◌, ◌++◌, if◌then◌else◌,
}
use k0smos.Base.Text.{Text, codes, text_eq, is_empty}
use k0smos.Base.Io.{Result, ok, err, Env, Io, pure, raise, attempt, ignore, ◌>>=◌, ◌>>◌}
use k0smos.Config.{Config, parse, Nic, nics, is_dhcp, keep_or}
use k0smos.Datavol.{Options, Report}
use k0smos.Control.{Command}
use k0smos.Etcd.{leave_cmd}
use k0smos.Metadata.Document.{UserData, MetaData, MachineConfig}
use k0smos.Metadata.Plan.{Action, Plan, plan}
use k0smos.Shutdown.{power_off, reboot_cmd}

pub data Op : Type 0 where
  -- mount.Ensure, os.Setenv, loadModules, pivot
  ensure_mounts : Op
  set_path : Text → Op
  load_modules : Config → Op
  pivot : Config → Op
  -- IsReadOnly("/"), mount.MakeWritable, datavol.Prepare, MkdirAll
  root_read_only : Op
  make_writable : Op
  prepare_data : Options → Op
  mkdir_all : Text → ℕ → Op
  -- cgroup.Setup, loadMetadata, knet.Up
  setup_cgroup : Op
  load_metadata : Op
  loopback_up : Op
  -- configureDHCP, knet.Configure, WriteFile, Sethostname
  dhcp : Config → Text → Op
  configure : Nic → Op
  write_file : Text → Text → ℕ → Op
  set_hostname : Text → Op
  -- the goroutines: reaper.Run, watchControlPort, watchPowerButton, supervise.Run
  start_reaper : Op
  watch_control_port : Config → Op
  watch_power_button : Op
  run_actions : List Action → Op
  supervise : Text → List Text → List Text → Op
  -- the etcd leave, stopChild and the wait for the child, shutdown.Do
  leave_etcd : List Text → Op
  stop_child : Op
  shutdown : ℕ → Op

-- What `select` receives while the machine runs.
pub data Event : Type 0 where
  signal : Event
  host : Command → Event
  host_closed : Event
  button : Event
  button_closed : Event
  cancelled : Event

-- How `boot` ends but for a nil error: its errors; `replaced` where pivot executed the new root's
-- k0smos and so does not return; `running` where nothing asks for a shutdown; `crashed` where the
-- workload has no first word.
pub data Ending : Type 0 where
  mounts_failed : Text → Ending
  switch_failed : Text → Ending
  cgroup_failed : Text → Ending
  net_failed : Text → Ending
  shutdown_failed : Text → Ending
  replaced : Ending
  running : Ending
  crashed : Ending

-- What the machine answers, and what it sends while it runs.
pub record Host : Type 0 where
  pub fails : Env Op Text
  pub cmdline : Text
  pub read_only : List Op → Result Text Bool
  pub data_report : List Op → Result Text Report
  pub metadata : List Op → UserData × MetaData
  pub lease_dns : List Op → Result Text Text
  pub events : List Event

-- applyMachineConfig(cfg, machine)
unfoldable pub apply_machine_config : Config → MachineConfig → Config
apply_machine_config c m = record c {
  ip = keep_or c.ip m.ip;
  iface = keep_or c.iface m.iface;
  gateway = keep_or c.gateway m.gateway;
  dns = keep_or c.dns m.dns;
}

-- The loop `wait`: how the machine goes down, or `none` where nothing asks for it. A closed channel
-- is no request.
unfoldable pub wait : List Event → Option ℕ
wait [] = none
wait (signal ∷ es) = some power_off
wait (host k0smos.Control.reboot ∷ es) = some reboot_cmd
wait (host k0smos.Control.power_off ∷ es) = some power_off
wait (host_closed ∷ es) = wait es
wait (button ∷ es) = some power_off
wait (button_closed ∷ es) = wait es
wait (cancelled ∷ es) = some power_off

abbrev pub data_options : Config → Options
data_options c = record {
  spec = c.data_volume;
  label = c.data_label;
  fs_type = c.data_fs_type;
  mount_point = c.data_dir;
}

abbrev pub workload_of : Config → Plan → List Text
workload_of c p = elim p.workload [ [] ↦ c.exec | w ∷ ws ↦ w ∷ ws ]

module _ (h : Host) where
  -- A call whose error is only logged.
  abbrev pub best_effort : Op → Io Op Ending Unit
  best_effort = ignore h.fails

  abbrev pub overlay_if : Result Text Bool → Io Op Ending Unit
  overlay_if (err e) = pure tt
  overlay_if (ok false) = pure tt
  overlay_if (ok true) = best_effort make_writable

  -- The overlay of a read-only root.
  abbrev pub overlay_root : Io Op Ending Unit
  overlay_root t = overlay_if (h.read_only (t ++ root_read_only ∷ [])) (t ++ root_read_only ∷ [])

  abbrev pub after_prepare : Result Text Report → Io Op Ending Unit
  after_prepare (err e) = pure tt
  after_prepare (ok r) =
      if is_empty r.device then pure tt else best_effort (mkdir_all (codes "/var/opt") 0o755)

  abbrev pub prepare_volume : Config → Io Op Ending Unit
  prepare_volume c t =
      let op = prepare_data (data_options c) in
      after_prepare (h.data_report (t ++ op ∷ [])) (t ++ op ∷ [])

  abbrev pub read_metadata : Io Op Ending (UserData × MetaData)
  read_metadata t = pure (h.metadata (t ++ load_metadata ∷ [])) (t ++ load_metadata ∷ [])

  -- The DNS server in use behind one interface's lease.
  abbrev pub lease_or : Text → Result Text Text → Text
  lease_or dns (err e) = dns
  lease_or dns (ok d) = keep_or d dns

  abbrev pub configure_nic : Config → Nic → Text → Io Op Ending Text
  configure_nic c n dns t =
      if is_dhcp n
      then pure (lease_or dns (h.lease_dns (t ++ dhcp c n.name ∷ []))) (t ++ dhcp c n.name ∷ [])
      else pure dns (t ++ configure n ∷ [])

  -- The loop over the interfaces, with the DNS server so far.
  unfoldable pub configure_nics : Config → List Nic → Text → Io Op Ending Text
  configure_nics c [] dns = pure dns
  configure_nics c (n ∷ ns) dns = configure_nic c n dns >>= configure_nics c ns

  abbrev pub write_resolv : Text → Io Op Ending Unit
  write_resolv dns =
      if is_empty dns
      then pure tt
      else best_effort
          (write_file (codes "/etc/resolv.conf") (codes "nameserver " ++ (dns ++ codes "\n")) 0o644)

  abbrev pub after_pivot : Option Text → Io Op Ending Unit
  after_pivot (some e) = raise (switch_failed e)
  after_pivot none = raise replaced

  -- The switch to the real root, unless it is done or not wanted.
  abbrev pub switch_root : Config → Bool → Io Op Ending Unit
  switch_root c switched t =
      if not (text_eq c.root (codes "none")) && not switched
      then after_pivot (h.fails t (pivot c)) (t ++ pivot c ∷ [])
      else pure tt t

  -- From the metadata to the workload: the configured machine's command and environment.
  abbrev pub configure_machine : Config → UserData → MetaData → Io Op Ending (List Text × List Text)
  configure_machine c u m =
      let p = plan u.run_cmd in
      attempt h.fails loopback_up net_failed
      >> (configure_nics c (nics c) c.dns >>= write_resolv)
      >> best_effort (set_hostname (keep_or c.hostname m.hostname))
      >> best_effort start_reaper
      >> best_effort (watch_control_port c)
      >> best_effort watch_power_button
      >> best_effort (run_actions p.actions)
      >> pure (workload_of c p, p.env)

  -- `boot` up to the start of the workload.
  unfoldable pub set_up : Bool → Io Op Ending (List Text × List Text)
  set_up switched =
      let c = parse h.cmdline in
      attempt h.fails ensure_mounts mounts_failed
      >> best_effort (set_path c.path)
      >> best_effort (load_modules c)
      >> switch_root c switched
      >> overlay_root
      >> prepare_volume c
      >> attempt h.fails setup_cgroup cgroup_failed
      >> (read_metadata >>= (λ r. configure_machine (apply_machine_config c r.0.machine) r.0 r.1))

  abbrev pub leave : Option (List Text) → Io Op Ending Unit
  leave none = pure tt
  leave (some argv) = best_effort (leave_etcd argv)

  abbrev pub after_wait : List Text → Option ℕ → Io Op Ending Unit
  after_wait workload none = raise running
  after_wait workload (some how) =
      leave (leave_cmd workload)
      >> best_effort stop_child
      >> attempt h.fails (shutdown how) shutdown_failed

  -- From the start of the workload on.
  unfoldable pub run_workload : List Text × List Text → Io Op Ending Unit
  run_workload ([], env) = raise crashed
  run_workload (w ∷ ws, env) =
      best_effort (supervise w ws env) >> after_wait (w ∷ ws) (wait h.events)

  -- boot(ctx, s, switched)
  unfoldable pub boot : Bool → Io Op Ending Unit
  unfolding set_up run_workload
  boot switched = set_up switched >>= run_workload
