-- ===== src/Status.antt =====
-- internal/status/status.go: the boot record, and the recorder that persists it after every change.
-- Changes come one after the other: what two goroutines' changes do to each other is left out.
-- The JSON encoding is a parameter; `none` is its error.
pub mod Log
use k0smos.Base.{
  ℕ, suc, ◌+◌, ◌-◌, Bool, true, false, not, Option, none, some, List, [], ◌∷◌, ◌++◌, if◌then◌else◌,
  length, replicate,
}
use k0smos.Base.Text.{Text, codes, is_empty, join}
use k0smos.Base.Decimal.{decimal}

pub record Stage : Type 0 where
  pub name : Text
  pub ok : Bool
  pub detail : Text
  pub error : Text
  pub at : Text

pub record Child : Type 0 where
  pub argv : List Text
  pub running : Bool
  pub restarts : ℕ
  pub last_exit : Text

-- The struct `Record` of the source.
pub record BootRecord : Type 0 where
  pub schema : ℕ
  pub boot : Text
  pub switched_root : Bool
  pub hostname : Text
  pub steps : List Stage
  pub child : Child

-- A recorder: its record, whether it has a sink, and what its sink was given.
pub record Recorder : Type 0 where
  pub rec : BootRecord
  pub has_sink : Bool
  pub written : List Text

-- The calls that change the record, with the time of a step.
pub data Change : Type 0 where
  stage : Text → Option Text → Text → Text → Change
  switched_root : Bool → Change
  hostname : Text → Change
  child : List Text → Change
  child_exited : Option Text → Change

abbrev pub no_child : Child
no_child = record { argv = []; running = false; restarts = 0; last_exit = [] }

-- The record that `New` makes, at a time.
abbrev pub empty_record : Text → BootRecord
empty_record now = record {
  schema = 1;
  boot = now;
  switched_root = false;
  hostname = [];
  steps = [];
  child = no_child;
}

abbrev pub stage_of : Text → Option Text → Text → Text → Stage
stage_of name none detail at = record {
  name = name;
  ok = true;
  detail = detail;
  error = [];
  at = at;
}
stage_of name (some e) detail at = record {
  name = name;
  ok = false;
  detail = detail;
  error = e;
  at = at;
}

abbrev pub exit_text : Option Text → Text
exit_text none = codes "exited without an error"
exit_text (some e) = e

-- The part of each change under the lock.
unfoldable pub changed : Change → BootRecord → BootRecord
changed (stage name e detail at) r = record r { steps = r.steps ++ stage_of name e detail at ∷ [] }
changed (switched_root v) r = record r { switched_root = v }
changed (hostname h) r = record r { hostname = h }
changed (child argv) r = record r { child = record r.child { argv = argv; running = true } }
changed (child_exited e) r = record r {
  child = record r.child {
    running = false;
    restarts = suc r.child.restarts;
    last_exit = exit_text e;
  };
}

-- New(nil), at a time
abbrev pub new : Text → Recorder
new now = record { rec = empty_record now; has_sink = false; written = [] }

module _ (json : BootRecord → Option Text) where
  abbrev pub sent : Option Text → List Text → List Text
  sent none written = written
  sent (some b) written = written ++ b ∷ []

  -- r.flush()
  unfoldable pub flush : Recorder → Recorder
  flush r = if not r.has_sink then r else record r { written = sent (json r.rec) r.written }

  -- A change, and the flush behind it.
  unfoldable pub apply_change : Change → Recorder → Recorder
  apply_change c r = flush (record r { rec = changed c r.rec })

  unfoldable pub apply_changes : List Change → Recorder → Recorder
  apply_changes [] r = r
  apply_changes (c ∷ cs) r = apply_changes cs (apply_change c r)

  -- NewFrom(old, sink), for a sink that is there
  unfoldable pub new_from : Recorder → Recorder
  new_from old = flush (record { rec = old.rec; has_sink = true; written = [] })

-- fmt's %-<width>s
abbrev pub padded : ℕ → Text → Text
padded width s = s ++ replicate (width - length s) b' '

abbrev pub child_text : Child → Text
child_text c = elim c.argv [
  | [] ↦ []
  | w ∷ ws ↦
      codes "workload    "
      ++ (join (w ∷ ws) b' '
          ++ (codes " ("
              ++ ((if c.running then codes "running" else codes "stopped")
                  ++ (codes ", restarts="
                      ++ (decimal c.restarts
                          ++ (codes ")\n"
                              ++ (if is_empty c.last_exit
                                  then []
                                  else codes "last exit   " ++ (c.last_exit ++ codes "\n"))))))))
]

abbrev pub stage_text : Stage → Text
stage_text s =
    codes "  "
    ++ (padded 8 (if s.ok then codes "ok" else codes "FAILED")
        ++ (codes " "
            ++ (padded 22 s.name
                ++ (codes " "
                    ++ (s.detail
                        ++ (codes "\n"
                            ++ (if is_empty s.error
                                then []
                                else codes "           " ++ (s.error ++ codes "\n"))))))))

unfoldable pub stages_text : List Stage → Text
stages_text [] = []
stages_text (s ∷ ss) = stage_text s ++ stages_text ss

-- Text(rec)
unfoldable pub record_text : BootRecord → Text
record_text r =
    codes "boot        "
    ++ (r.boot
        ++ (codes "\n"
            ++ ((if is_empty r.hostname
                  then []
                  else codes "hostname    " ++ (r.hostname ++ codes "\n"))
                ++ (codes "switched    "
                    ++ ((if r.switched_root then codes "true" else codes "false")
                        ++ (codes "\n"
                            ++ (child_text r.child
                                ++ (codes "\nsteps\n" ++ stages_text r.steps))))))))
