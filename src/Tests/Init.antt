-- ===== src/Tests/Init.antt =====
-- A boot whose network and data volume fail, and a file served to the host (cmd/k0smos).
use k0smos.Base.{◌≡◌, ◌&&◌, refl, Bool, true, false, not, none, some, List, [], ◌∷◌, ◌++◌, arith}
use k0smos.Base.Text.{Text, codes, text_eq, is_space, to_lower, has_prefix}
use k0smos.Base.Io.{ok, err, Env, attempt}
use k0smos.Config.{Config, parse}
use k0smos.Control.Exchange.{exchange}
use k0smos.Metadata.Document.{no_user_data, no_meta_data}
use k0smos.Init.Boot.{
  Host, boot, wait, Event, signal, host, host_closed, button_closed, ensure_mounts, setup_cgroup,
  loopback_up, shutdown, supervise, shutdown_failed,
}
use k0smos.Init.Workload.{workload_calls, boot-workload_calls}
use k0smos.Init.Requests.{Node, answer_request}
use k0smos.Init.Serve.{cat_line, IsPlainPath, exchange-cat_line}
use k0smos.Base.{if◌then◌else◌, ◌==◌}
use k0smos.SwitchRoot.{do_switch, move_each}
use k0smos.Blkid.{Prober, identify_info, resolve_wait, wait_from, resolve}
use k0smos.Base.Text.{trim_prefix, cut}
use k0smos.Init.Root.{
  Fault, Machine, mount_root, root_device, pivot, fs_type_of, select_root, mount_device,
}
use k0smos.Init.Pivot.{IsSwitch, Mounted, pivot-Mounted}
use k0smos.Shutdown.{power_off}

-- Everything but the critical calls fails.
abbrev poor : Env k0smos.Init.Boot.Op Text
poor t ensure_mounts = none
poor t setup_cgroup = none
poor t loopback_up = none
poor t _ = some (codes "no such device")

abbrev machine : Host
machine = record {
  fails = poor;
  cmdline = codes "k0smos.root=none";
  read_only = λ t. err (codes "?");
  data_report = λ t. err (codes "no disk");
  metadata = λ t. (no_user_data, no_meta_data);
  lease_dns = λ t. err (codes "no lease");
  events = host_closed ∷ signal ∷ [];
}

abbrev switched : Bool
switched = true

reaches_end : wait machine.events ≡ some power_off
unfolding wait
reaches_end = refl

stays : (root : Text) → (not (text_eq root (codes "none")) && not switched) ≡ false
stays root = ground arith

boot-workload_calls_example :
    (before : List k0smos.Init.Boot.Op) × (k0s : Text) × (args : List Text) × (env : List Text)
    × (boot machine switched []
        ≡ attempt poor (shutdown power_off) shutdown_failed (before ++ workload_calls k0s args env))
boot-workload_calls_example =
    boot-workload_calls machine switched power_off (λ t. refl) (λ t. refl) (λ t. refl)
      (stays (parse machine.cmdline).root) reaches_end

abbrev log : Text
log = codes "/var/log/pods/a"

abbrev node : Node
node = record {
  stat = λ p. ok (record { is_dir = false; size = 3 });
  read_file = λ p. ok (1 ∷ 2 ∷ 3 ∷ []);
  record_json = err [];
  kernel_log = err [];
  output = λ argv env. ok [];
}

plain : IsPlainPath log
unfolding is_space to_lower has_prefix
plain = record {
  line = ground arith;
  one_line = ground arith;
  no_space = ground arith;
  in_lower = refl;
  absolute = refl;
}

exchange-cat_line_example :
    exchange (answer_request node (parse [])) (λ t. false) (cat_line log) ≡ ok (1 ∷ 2 ∷ 3 ∷ [])
exchange-cat_line_example =
    exchange-cat_line node (parse []) (λ t. false) log (1 ∷ 2 ∷ 3 ∷ []) plain refl refl
      (omega arith)

-- A machine with a named root on which every call succeeds, but that is mounted read-only.
abbrev no_disks : Prober
no_disks = record { block_devices = ok []; read_at = λ dev off len. none }

abbrev refuses_write : Env k0smos.Init.Root.Op Fault
refuses_write t (mount_root dev at fs flags opts) =
    if flags == 0 then some (record { denied = true; text = codes "EROFS" }) else none
refuses_write t _ = none

abbrev metal : Machine
metal = record {
  fails = refuses_write;
  has_image = true;
  loop_device = λ t. err [];
  view = λ i. no_disks;
  holds = no_disks;
}

abbrev named_root : Config
named_root = parse (codes "k0smos.root=/dev/vda2")

switches : IsSwitch (pivot metal named_root []).0
unfolding pivot root_device select_root text_eq parse k0smos.Config.apply_tokens
    k0smos.Base.Text.fields k0smos.Config.apply_token k0smos.Base.Text.cut
    k0smos.Base.Text.has_prefix k0smos.Config.apply_setting k0smos.Base.Text.trim_prefix
    resolve_wait wait_from resolve mount_device do_switch move_each identify_info
switches = tt

pivot-Mounted_example :
    (dev : Text) × ((root_device metal named_root []).0 ≡ ok dev)
    × Mounted metal named_root dev
        (fs_type_of named_root (identify_info no_disks (trim_prefix dev (codes "/dev/"))))
pivot-Mounted_example = pivot-Mounted metal named_root [] switches
