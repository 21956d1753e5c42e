-- ===== src/Init/Workload.antt =====
-- The calls of a boot with a workload, from the supervisor to the end.
use k0smos.Base.{
  ℕ, ◌≡◌, refl, ap, ◌∙◌, sym, inl, inr, ◌⊎◌, Bool, true, false, not, ◌&&◌, Option, none, some, List,
  append-nil, append_assoc, [], ◌∷◌, ◌++◌, if◌then◌else◌,
}
use k0smos.Base.Text.{Text, codes, text_eq, is_empty}
use k0smos.Base.Io.{Result, ok, err, Io, pure, attempt, ignore, continue, ◌>>=◌, ◌>>◌}
use k0smos.Config.{Config, head_named, parse, Nic, nics, is_dhcp}
use k0smos.Config.Settings.{parse-IsBootable}
use k0smos.Etcd.{leave_cmd}
use k0smos.Datavol.{Report}
use k0smos.Metadata.Document.{MachineConfig, UserData, MetaData}
use k0smos.Metadata.Plan.{Plan, plan}
use k0smos.Init.Boot.{
  Op, ensure_mounts, setup_cgroup, loopback_up, supervise, leave_etcd, stop_child, shutdown, Ending,
  Host, boot, set_up, run_workload, configure_nics, configure_nic, lease_or, dhcp, configure,
  configure_machine, overlay_if, after_prepare, wait, workload_of, apply_machine_config,
  write_resolv, make_writable, read_metadata, root_read_only, prepare_data, data_options, leave,
  shutdown_failed,
}

-- A part that never stops the boot, and what its results have in common.
abbrev Goes : {A : Type 0} → (A → Type 0) → Io Op Ending A → Type 0
Goes {A} P m = (t : List Op) → (a : A) × (u : List Op) × (m t ≡ (ok a, u)) × P a

abbrev Any : {A : Type 0} → A → Type 0
Any a = Unit

Goes-bind :
    {A B : Type 0} (P : A → Type 0) (Q : B → Type 0) (m : Io Op Ending A) (f : A → Io Op Ending B)
    → Goes P m
    → ((a : A) → P a → Goes Q (f a))
    → Goes Q (m >>= f)
Goes-bind P Q m f gm gf t =
    let (a, u, e, p) = gm t in
    let (b, v, e', q) = gf a p u in (b, v, ap (λ r. continue r.0 f r.1) e ∙ e', q)

Goes-pure : {A : Type 0} (P : A → Type 0) (a : A) → P a → Goes P (pure a)
Goes-pure P a p t = (a, t, refl, p)

List-cases : {A : Type 0} (l : List A) → (l ≡ []) ⊎ ((a : A) × (rest : List A) × (l ≡ a ∷ rest))
List-cases [] = inl refl
List-cases (a ∷ l) = inr (a, l, refl)

no_head : (l : List Text) → l ≡ [] → head_named l ≡ true → ⊥
no_head [] n h = cc
no_head (p ∷ ps) n h = cc

exec-apply_machine_config :
    (c : Config) (m : MachineConfig)
    → head_named (apply_machine_config c m).exec ≡ head_named c.exec
unfolding apply_machine_config
exec-apply_machine_config c m = refl

Goes-if :
    {A : Type 0} (b : Bool) (m n : Io Op Ending A)
    → Goes Any m
    → Goes Any n
    → Goes Any (λ t. if b then m t else n t)
Goes-if true m n gm gn = gm
Goes-if false m n gm gn = gn

-- The words of a command are some.
abbrev HasWord : List Text × List Text → Type 0
HasWord (w, env) = (k0s : Text) × (args : List Text) × (w ≡ k0s ∷ args)

module _ (h : Host) where
  Goes-ignore : (op : Op) → Goes Any (ignore h.fails op)
  Goes-ignore op t = (tt, t ++ op ∷ [], refl, tt)

  Goes-attempt :
      (op : Op) (wrap : Text → Ending)
      → ((t : List Op) → h.fails t op ≡ none)
      → Goes Any (attempt h.fails op wrap)
  Goes-attempt op wrap n t = (tt, t ++ op ∷ [], rw (n t) refl, tt)

  Goes-overlay_if : (r : Result Text Bool) → Goes Any (overlay_if h r)
  Goes-overlay_if (err e) = Goes-pure Any tt tt
  Goes-overlay_if (ok false) = Goes-pure Any tt tt
  Goes-overlay_if (ok true) = Goes-ignore make_writable

  Goes-unless : (b : Bool) (op : Op) → Goes Any (if b then pure tt else ignore h.fails op)
  Goes-unless true op = Goes-pure Any tt tt
  Goes-unless false op = Goes-ignore op

  Goes-after_prepare : (r : Result Text Report) → Goes Any (after_prepare h r)
  Goes-after_prepare (err e) = Goes-pure Any tt tt
  Goes-after_prepare (ok r) = Goes-unless (is_empty r.device) _

  Goes-configure_nic : (c : Config) (n : Nic) (dns : Text) → Goes Any (configure_nic h c n dns)
  Goes-configure_nic c n dns t =
      Goes-if (is_dhcp n)
        (λ u.
          pure (lease_or h dns (h.lease_dns (u ++ dhcp c n.name ∷ []))) (u ++ dhcp c n.name ∷ []))
        (λ u. pure dns (u ++ configure n ∷ [])) (λ u. (_, _, refl, tt)) (λ u. (_, _, refl, tt)) t

  Goes-configure_nics :
      (c : Config) (ns : List Nic) (dns : Text) → Goes Any (configure_nics h c ns dns)
  unfolding configure_nics
  Goes-configure_nics c [] dns = Goes-pure Any dns tt
  Goes-configure_nics c (n ∷ ns) dns =
      Goes-bind Any Any (configure_nic h c n dns) (configure_nics h c ns)
        (Goes-configure_nic c n dns) (λ d _. Goes-configure_nics c ns d)

  Goes-then :
      {B : Type 0} (Q : B → Type 0) (m : Io Op Ending Unit) (n : Io Op Ending B)
      → Goes Any m
      → Goes Q n
      → Goes Q (m >> n)
  Goes-then Q m n gm gn = Goes-bind Any Q m (λ _. n) gm (λ _ _. gn)

  HasWord-workload_of :
      (c : Config) (p : Plan) → head_named c.exec ≡ true → HasWord (workload_of c p, p.env)
  HasWord-workload_of c p e = elim (List-cases p.workload) [
    | inl n ↦ elim (List-cases c.exec) [
      | inl m ↦ absurd (no_head c.exec m e)
      | inr (w, ws, m) ↦ (w, ws, ap (λ l. elim l [ [] ↦ c.exec | w ∷ ws ↦ w ∷ ws ]) n ∙ m)
    ]
    | inr (w, ws, m) ↦ (w, ws, ap (λ l. elim l [ [] ↦ c.exec | w ∷ ws ↦ w ∷ ws ]) m)
  ]

  module _ (loopback : (t : List Op) → h.fails t loopback_up ≡ none) where
    Goes-configure_machine :
        (c : Config) (u : UserData) (m : MetaData)
        → head_named c.exec ≡ true
        → Goes HasWord (configure_machine h c u m)
    Goes-configure_machine c u m e =
        Goes-then HasWord _ _
          (Goes-then Any _ _
            (Goes-then Any _ _
              (Goes-then Any _ _
                (Goes-then Any _ _
                  (Goes-then Any _ _
                    (Goes-then Any _ _ (Goes-attempt loopback_up _ loopback) (
                      Goes-bind Any Any _ (write_resolv h) (Goes-configure_nics c (nics c) c.dns)
                        (λ dns _. Goes-unless (is_empty dns) _)))
                    (Goes-ignore _))
                  (Goes-ignore _))
                (Goes-ignore _))
              (Goes-ignore _))
            (Goes-ignore _))
          (Goes-pure HasWord (workload_of c (plan u.run_cmd), (plan u.run_cmd).env)
            (HasWord-workload_of c (plan u.run_cmd) e))

    Goes-set_up :
        (switched : Bool)
        → ((t : List Op) → h.fails t ensure_mounts ≡ none)
        → ((t : List Op) → h.fails t setup_cgroup ≡ none)
        → (not (text_eq (parse h.cmdline).root (codes "none")) && not switched) ≡ false
        → Goes HasWord (set_up h switched)
    unfolding set_up
    Goes-set_up switched mounts cgroup stays =
        let c = parse h.cmdline in
        Goes-then HasWord _ _
          (Goes-then Any _ _
            (Goes-then Any _ _
              (Goes-then Any _ _
                (Goes-then Any _ _
                  (Goes-then Any _ _
                    (Goes-then Any _ _ (Goes-attempt ensure_mounts _ mounts) (Goes-ignore _))
                    (Goes-ignore _))
                  (λ t. rw stays (tt, t, refl, tt)))
                (λ t. Goes-overlay_if (h.read_only (t ++ root_read_only ∷ [])) _))
              (λ t. Goes-after_prepare (h.data_report (t ++ prepare_data (data_options c) ∷ [])) _))
            (Goes-attempt setup_cgroup _ cgroup))
          (Goes-bind Any HasWord (read_metadata h) _ (λ t. (_, _, refl, tt))
            (λ r _.
              Goes-configure_machine (apply_machine_config c r.0.machine) r.0 r.1
                (exec-apply_machine_config c r.0.machine ∙ (parse-IsBootable h.cmdline).exec)))

-- The calls that take the machine down.
abbrev pub leave_calls : Option (List Text) → List Op
leave_calls none = []
leave_calls (some argv) = leave_etcd argv ∷ []

leave-calls :
    (h : Host) (o : Option (List Text)) (t : List Op) → leave h o t ≡ (ok tt, t ++ leave_calls o)
leave-calls h none t = ap (λ u. (ok tt, u)) (sym (append-nil t))
leave-calls h (some argv) t = refl

-- The calls from the start of the workload up to the last.
abbrev pub workload_calls : Text → List Text → List Text → List Op
workload_calls k0s args env =
    supervise k0s args env ∷ (leave_calls (leave_cmd (k0s ∷ args)) ++ stop_child ∷ [])

run_workload-calls :
    (h : Host) (how : ℕ) (k0s : Text) (args env : List Text) (t : List Op)
    → wait h.events ≡ some how
    → run_workload h (k0s ∷ args, env) t
      ≡ attempt h.fails (shutdown how) shutdown_failed (t ++ workload_calls k0s args env)
unfolding run_workload
run_workload-calls h how k0s args env t e =
    rw (e, leave-calls h (leave_cmd (k0s ∷ args)) (t ++ supervise k0s args env ∷ []))
      (ap (attempt h.fails (shutdown how) shutdown_failed) (
        append_assoc (t ++ supervise k0s args env ∷ []) (leave_calls (leave_cmd (k0s ∷ args)))
          (stop_child ∷ [])
        ∙ append_assoc t (supervise k0s args env ∷ [])
            (leave_calls (leave_cmd (k0s ∷ args)) ++ stop_child ∷ [])))

-- If the pseudo-filesystems, the cgroup hierarchy and the loopback come up, the root is switched or
-- wanted to be none, and something asks for a shutdown, then the boot, whatever fails of the rest
-- (modules, overlays, the data volume, metadata, the network, the host name), starts a workload that
-- has a first word, and ends with the calls, in this order, for its etcd leave if it has one, for its
-- stop, and for the shutdown of the kind that was asked for; and its result is that of this last.
pub boot-workload_calls :
    (h : Host) (switched : Bool) (how : ℕ)
    → ((t : List Op) → h.fails t ensure_mounts ≡ none)
    → ((t : List Op) → h.fails t setup_cgroup ≡ none)
    → ((t : List Op) → h.fails t loopback_up ≡ none)
    → (not (text_eq (parse h.cmdline).root (codes "none")) && not switched) ≡ false
    → wait h.events ≡ some how
    → (before : List Op) × (k0s : Text) × (args : List Text) × (env : List Text) × (boot h switched
          []
        ≡ attempt h.fails (shutdown how) shutdown_failed (before ++ workload_calls k0s args env))
unfolding boot
boot-workload_calls h switched how mounts cgroup loopback stays e =
    let ((w, env), t, up, (k0s, args, we)) =
      Goes-set_up h loopback switched mounts cgroup stays [] in
    (
      t,
      k0s,
      args,
      env,
      ap (λ r. continue r.0 (run_workload h) r.1) up
          ∙ ap (λ v. run_workload h (v, env) t) we
          ∙ run_workload-calls h how k0s args env t e,
    )
