-- ===== src/Metadata/Document/Commands.antt =====
-- Where the commands of user-data come from.
use k0smos.Base.{
  ◌≡◌, refl, inl, inr, ◌⊎◌, false, List, [], ◌∷◌, ◌++◌, map, All, All-append, In, In-append_left,
  In-append_right, Bool-cases,
}
use k0smos.Base.Text.{Text, fields, contains_any}
use k0smos.Metadata.Document.{
  UserData, WriteFile, Warning, needs_shell, unexpected_type, Entry, line, argv, other, Item,
  item_text, shell_meta, warn, add_command, add_entry, add_entries,
}

-- A command is the words of a string without a shell character, or a list's items.
abbrev pub FromEntry : List Entry → List Text → Type 0
FromEntry es c =
    ((s : Text) × In (line s) es × (c ≡ fields s) × (contains_any s shell_meta ≡ false))
    ⊎ ((items : List Item) × In (argv items) es × (c ≡ map item_text items))

-- What became of an entry: its command is there, or a warning, or it has no word at all.
abbrev pub Answered : UserData → Entry → Type 0
Answered u (line s) = In (needs_shell s) u.warnings ⊎ In (fields s) u.run_cmd ⊎ (fields s ≡ [])
Answered u (argv items) = In (map item_text items) u.run_cmd ⊎ (items ≡ [])
Answered u (other type) = In (unexpected_type type) u.warnings

add_command-All :
    (P : List Text → Type 0) (u : UserData) (c : List Text)
    → All P u.run_cmd
    → P c
    → All P (add_command u c).run_cmd
add_command-All P u [] h p = h
add_command-All P u (a ∷ c) h p = All-append P u.run_cmd ((a ∷ c) ∷ []) h (p, tt)

add_entry-FromEntry :
    (all : List Entry) (u : UserData) (e : Entry)
    → In e all
    → All (FromEntry all) u.run_cmd
    → All (FromEntry all) (add_entry u e).run_cmd
unfolding add_entry
add_entry-FromEntry all u (line s) m h = elim (Bool-cases (contains_any s shell_meta)) [
  | inl e ↦ rw (e, add_entry) h
  | inr e ↦ rw (e, add_entry) (add_command-All (FromEntry all) u (fields s) h (inl (s, m, refl, e)))
]
add_entry-FromEntry all u (argv items) m h =
    add_command-All (FromEntry all) u (map item_text items) h (inr (items, m, refl))
add_entry-FromEntry all u (other type) m h = h

pub add_entries-FromEntry :
    (all es : List Entry) (u : UserData)
    → ((e : Entry) → In e es → In e all)
    → All (FromEntry all) u.run_cmd
    → All (FromEntry all) (add_entries u es).run_cmd
unfolding add_entries
add_entries-FromEntry all [] u sub h = h
add_entries-FromEntry all (e ∷ es) u sub h =
    add_entries-FromEntry all es (add_entry u e) (λ x m. sub x (inr m))
      (add_entry-FromEntry all u e (sub e (inl refl)) h)

-- Nothing that was there is lost.
pub record Extends (u v : UserData) : Type 0 where
  pub warnings : (w : Warning) → In w u.warnings → In w v.warnings
  pub run_cmd : (c : List Text) → In c u.run_cmd → In c v.run_cmd
  pub write_files : (f : WriteFile) → In f u.write_files → In f v.write_files

pub Extends-refl : (u : UserData) → Extends u u
Extends-refl u = record { warnings = λ w m. m; run_cmd = λ c m. m; write_files = λ f m. m }

pub Extends-trans : (u v x : UserData) → Extends u v → Extends v x → Extends u x
Extends-trans u v x a b = record {
  warnings = λ w m. b.warnings w (a.warnings w m);
  run_cmd = λ c m. b.run_cmd c (a.run_cmd c m);
  write_files = λ f m. b.write_files f (a.write_files f m);
}

pub warn-Extends : (u : UserData) (w : Warning) → Extends u (warn u w)
warn-Extends u w = record {
  warnings = λ x m. In-append_left x u.warnings (w ∷ []) m;
  run_cmd = λ c m. m;
  write_files = λ f m. m;
}

add_command-Extends : (u : UserData) (c : List Text) → Extends u (add_command u c)
add_command-Extends u [] = Extends-refl u
add_command-Extends u (a ∷ c) = record {
  warnings = λ w m. m;
  run_cmd = λ x m. In-append_left x u.run_cmd ((a ∷ c) ∷ []) m;
  write_files = λ f m. m;
}

add_entry-Extends : (u : UserData) (e : Entry) → Extends u (add_entry u e)
unfolding add_entry
add_entry-Extends u (line s) = elim (Bool-cases (contains_any s shell_meta)) [
  | inl e ↦ rw (e, add_entry) (warn-Extends u (needs_shell s))
  | inr e ↦ rw (e, add_entry) (add_command-Extends u (fields s))
]
add_entry-Extends u (argv items) = add_command-Extends u (map item_text items)
add_entry-Extends u (other type) = warn-Extends u (unexpected_type type)

pub add_entries-Extends : (es : List Entry) (u : UserData) → Extends u (add_entries u es)
unfolding add_entries
add_entries-Extends [] u = Extends-refl u
add_entries-Extends (e ∷ es) u =
    Extends-trans u (add_entry u e) _ (add_entry-Extends u e)
      (add_entries-Extends es (add_entry u e))

last_In : {A : Type 0} (a : A) (l : List A) → In a (l ++ a ∷ [])
last_In a l = In-append_right a l (a ∷ []) (inl refl)

add_command-In : (u : UserData) (c : List Text) → In c (add_command u c).run_cmd ⊎ (c ≡ [])
add_command-In u [] = inr refl
add_command-In u (a ∷ c) = inl (last_In (a ∷ c) u.run_cmd)

no_items : (items : List Item) → map item_text items ≡ [] → items ≡ []
no_items [] h = refl
no_items (i ∷ items) h = cc

add_entry-Answered : (u : UserData) (e : Entry) → Answered (add_entry u e) e
unfolding add_entry
add_entry-Answered u (line s) = elim (Bool-cases (contains_any s shell_meta)) [
  | inl e ↦ rw (e, add_entry) (inl (last_In (needs_shell s) u.warnings))
  | inr e ↦ rw (e, add_entry) (inr (add_command-In u (fields s)))
]
add_entry-Answered u (argv items) = elim (add_command-In u (map item_text items)) [
  | inl m ↦ inl m
  | inr e ↦ inr (no_items items e)
]
add_entry-Answered u (other type) = last_In (unexpected_type type) u.warnings

Answered-Extends : (u v : UserData) (e : Entry) → Extends u v → Answered u e → Answered v e
Answered-Extends u v (line s) x (inl m) = inl (x.warnings _ m)
Answered-Extends u v (line s) x (inr (inl m)) = inr (inl (x.run_cmd _ m))
Answered-Extends u v (line s) x (inr (inr h)) = inr (inr h)
Answered-Extends u v (argv items) x (inl m) = inl (x.run_cmd _ m)
Answered-Extends u v (argv items) x (inr h) = inr h
Answered-Extends u v (other type) x m = x.warnings _ m

pub add_entries-Answered : (es : List Entry) (u : UserData) → All (Answered (add_entries u es)) es
unfolding add_entries
add_entries-Answered [] u = tt
add_entries-Answered (e ∷ es) u = (
  Answered-Extends (add_entry u e) _ e (add_entries-Extends es (add_entry u e))
      (add_entry-Answered u e),
  add_entries-Answered es (add_entry u e),
)
