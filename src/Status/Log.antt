-- ===== src/Status/Log.antt =====
-- The boot record as a log of changes, and its sink.
use k0smos.Base.{
  ℕ, suc, ◌+◌, ◌≡◌, refl, sym, ap, ◌∙◌, true, false, Option, none, some, List, [], ◌∷◌, ◌++◌, arith,
  append_assoc, append-nil,
}
use k0smos.Base.Text.{Text}
use k0smos.Status.{
  Stage, BootRecord, Recorder, Change, stage, switched_root, hostname, child, child_exited,
  stage_of, empty_record, changed, new, flush, apply_change, apply_changes, new_from, sent,
}

-- The stages that were reported, in order.
abbrev pub stages_of : List Change → List Stage
stages_of [] = []
stages_of (stage name e detail at ∷ cs) = stage_of name e detail at ∷ stages_of cs
stages_of (switched_root v ∷ cs) = stages_of cs
stages_of (hostname h ∷ cs) = stages_of cs
stages_of (child argv ∷ cs) = stages_of cs
stages_of (child_exited e ∷ cs) = stages_of cs

-- How often the workload exited.
abbrev pub exits_of : List Change → ℕ
exits_of [] = 0
exits_of (stage name e detail at ∷ cs) = exits_of cs
exits_of (switched_root v ∷ cs) = exits_of cs
exits_of (hostname h ∷ cs) = exits_of cs
exits_of (child argv ∷ cs) = exits_of cs
exits_of (child_exited e ∷ cs) = suc (exits_of cs)

-- The record behind some changes.
abbrev pub record_after : List Change → BootRecord → BootRecord
record_after [] r = r
record_after (c ∷ cs) r = record_after cs (changed c r)

-- The records behind each of the changes.
abbrev pub records_after : List Change → BootRecord → List BootRecord
records_after [] r = []
records_after (c ∷ cs) r = changed c r ∷ records_after cs (changed c r)

record_after-append :
    (cs ds : List Change) (r : BootRecord)
    → record_after (cs ++ ds) r ≡ record_after ds (record_after cs r)
record_after-append [] ds r = refl
record_after-append (c ∷ cs) ds r = record_after-append cs ds (changed c r)

steps-record_after :
    (cs : List Change) (r : BootRecord) → (record_after cs r).steps ≡ r.steps ++ stages_of cs
unfolding changed
steps-record_after [] r = sym (append-nil r.steps)
steps-record_after (stage name e detail at ∷ cs) r =
    steps-record_after cs (changed (stage name e detail at) r)
    ∙ append_assoc r.steps (stage_of name e detail at ∷ []) (stages_of cs)
steps-record_after (switched_root v ∷ cs) r = steps-record_after cs (changed (switched_root v) r)
steps-record_after (hostname h ∷ cs) r = steps-record_after cs (changed (hostname h) r)
steps-record_after (child argv ∷ cs) r = steps-record_after cs (changed (child argv) r)
steps-record_after (child_exited e ∷ cs) r = steps-record_after cs (changed (child_exited e) r)

restarts-record_after :
    (cs : List Change) (r : BootRecord)
    → (record_after cs r).child.restarts ≡ r.child.restarts + exits_of cs
unfolding changed
restarts-record_after [] r = omega arith
restarts-record_after (stage name e detail at ∷ cs) r =
    restarts-record_after cs (changed (stage name e detail at) r)
restarts-record_after (switched_root v ∷ cs) r =
    restarts-record_after cs (changed (switched_root v) r)
restarts-record_after (hostname h ∷ cs) r = restarts-record_after cs (changed (hostname h) r)
restarts-record_after (child argv ∷ cs) r = restarts-record_after cs (changed (child argv) r)
restarts-record_after (child_exited e ∷ cs) r =
    omega (arith, restarts-record_after cs (changed (child_exited e) r))

module _ (json : BootRecord → Option Text) where
  -- The contents that encode.
  abbrev pub contents : List BootRecord → List Text
  contents [] = []
  contents (r ∷ rs) = elim (json r) [ none ↦ contents rs | some b ↦ b ∷ contents rs ]

  sent-contents :
      (o : Option Text) (written rest : List Text)
      → sent json o written ++ rest ≡ written ++ elim o [ none ↦ rest | some b ↦ b ∷ rest ]
  sent-contents none written rest = refl
  sent-contents (some b) written rest = append_assoc written (b ∷ []) rest

  apply_changes-silent :
      (cs : List Change) (r : BootRecord)
      → apply_changes json cs (record { rec = r; has_sink = false; written = [] })
        ≡ record { rec = record_after cs r; has_sink = false; written = [] }
  unfolding apply_changes apply_change flush
  apply_changes-silent [] r = refl
  apply_changes-silent (c ∷ cs) r = apply_changes-silent cs (changed c r)

  -- A recorder with a sink.
  abbrev with_sink : BootRecord → List Text → Recorder
  with_sink r written = record { rec = r; has_sink = true; written = written }

  apply_changes-written :
      (cs : List Change) (r : BootRecord) (written : List Text)
      → apply_changes json cs (with_sink r written)
        ≡ with_sink (record_after cs r) (written ++ contents (records_after cs r))
  unfolding apply_changes apply_change flush
  apply_changes-written [] r written = ap (with_sink r) (sym (append-nil written))
  apply_changes-written (c ∷ cs) r written =
      apply_changes-written cs (changed c r) (sent json (json (changed c r)) written)
      ∙ ap (with_sink (record_after cs (changed c r)))
          (sent-contents (json (changed c r)) written (contents (records_after cs (changed c r))))

  -- For changes before there is a sink and changes behind it: the sink is given, in order, the
  -- encoding of the record as it is handed over and of the record behind each later change, where
  -- these encode; and the record has, in order, all stages that were ever reported, and counts all
  -- exits of the workload.
  pub apply_changes-log :
      (now : Text) (early late : List Change) (r : Recorder)
      → r ≡ apply_changes json late (new_from json (apply_changes json early (new now)))
      → (r.written
          ≡ contents (
              record_after early (empty_record now)
              ∷ records_after late (record_after early (empty_record now))))
        × (r.rec.steps ≡ stages_of (early ++ late))
        × (r.rec.child.restarts ≡ exits_of (early ++ late))
  unfolding new_from flush
  apply_changes-log now early late r e =
      let start = record_after early (empty_record now) in
      let all : r
          ≡ with_sink (record_after late start)
              (sent json (json start) [] ++ contents (records_after late start)) =
        e
        ∙ ap (λ o. apply_changes json late (new_from json o))
            (apply_changes-silent early (empty_record now))
        ∙ apply_changes-written late start (sent json (json start) []) in
      let rec_all : r.rec ≡ record_after (early ++ late) (empty_record now) =
        ap (λ x. x.rec) all ∙ sym (record_after-append early late (empty_record now)) in
      (
        ap (λ x. x.written) all
            ∙ sent-contents (json start) [] (contents (records_after late start)),
        ap (λ x. x.steps) rec_all ∙ steps-record_after (early ++ late) (empty_record now),
        ap (λ x. x.child.restarts) rec_all
            ∙ omega (arith, restarts-record_after (early ++ late) (empty_record now)),
      )
