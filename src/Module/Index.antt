-- ===== src/Module/Index.antt =====
-- The index files of a module tree: modules.dep, modules.softdep and modules.alias, and the
-- matching of devices. A map is a list of its writes, the newest first.
pub mod Devices
use k0smos.Base.{
  ℕ, Bool, true, false, not, ◌&&◌, ◌||◌, Option, none, some, List, [], ◌∷◌, ◌++◌, if◌then◌else◌,
  ◌==◌, ltb, length,
}
use k0smos.Base.Paths.{path_base}
use k0smos.Base.Text.{
  Text, codes, text_eq, is_empty, has_prefix, cut, split, fields, trim_space, trim_suffix,
}

abbrev pub Table : Type 0 → Type 0
Table V = List (Text × V)

module _ {V : Type 0} where
  unfoldable pub lookup : Text → Table V → Option V
  lookup k [] = none
  lookup k ((j, v) ∷ m) = let rest = lookup k m in if text_eq j k then some v else rest

abbrev newline : ℕ
newline = b'\n'

-- nameOf(p)
unfoldable pub name_of : Text → Text
name_of p =
    trim_suffix
      (trim_suffix (trim_suffix (trim_suffix (path_base p) (codes ".gz")) (codes ".xz"))
        (codes ".zst"))
      (codes ".ko")

pub record ModInfo : Type 0 where
  pub path : Text
  pub deps : List Text

unfoldable pub names_of : List Text → List Text
names_of [] = []
names_of (p ∷ ps) = name_of p ∷ names_of ps

-- One line of modules.dep.
unfoldable pub add_dep_line : Table ModInfo → Text → Table ModInfo
add_dep_line deps line =
    let (target, rest, ok) = cut (trim_space line) b':' in
    if not ok || is_empty target
    then deps
    else (name_of target, record { path = target; deps = names_of (fields rest) }) ∷ deps

unfoldable pub add_dep_lines : Table ModInfo → List Text → Table ModInfo
add_dep_lines deps [] = deps
add_dep_lines deps (line ∷ lines) = add_dep_lines (add_dep_line deps line) lines

-- The loop of `readDeps` over the lines of the file; what stands behind the last newline is a line.
unfoldable pub parse_deps : Text → Table ModInfo
parse_deps text = add_dep_lines [] (split text newline)

abbrev pub list_or_nil : Option (List Text) → List Text
list_or_nil none = []
list_or_nil (some l) = l

-- out[module] = append(out[module], f)
unfoldable pub append_to : Table (List Text) → Text → Text → Table (List Text)
append_to out m f = (m, list_or_nil (lookup m out) ++ f ∷ []) ∷ out

-- The words of a softdep line behind the module; `pre` says that the last mark was "pre:".
unfoldable pub add_soft_words : Table (List Text) → Text → Bool → List Text → Table (List Text)
add_soft_words out m pre [] = out
add_soft_words out m pre (f ∷ fs) =
    let opens = text_eq f (codes "pre:") in
    let closes = text_eq f (codes "post:") in
    add_soft_words (if opens || closes || not pre then out else append_to out m f) m
      (if opens then true else if closes then false else pre) fs

unfoldable pub add_soft_line : Table (List Text) → List Text → Table (List Text)
add_soft_line out (w ∷ m ∷ f ∷ fs) =
    if text_eq w (codes "softdep") then add_soft_words out m false (f ∷ fs) else out
add_soft_line out _ = out

unfoldable pub add_soft_lines : Table (List Text) → List Text → Table (List Text)
add_soft_lines out [] = out
add_soft_lines out (line ∷ lines) = add_soft_lines (add_soft_line out (fields line)) lines

unfoldable pub parse_softdeps : Text → Table (List Text)
parse_softdeps text = add_soft_lines [] (split text newline)

pub record AliasEntry : Type 0 where
  pub pattern_text : Text
  pub target : Text

pub record Aliases : Type 0 where
  pub exact : Table Text
  pub device : List AliasEntry

-- strings.ContainsAny(s, "*?[")
unfoldable pub has_glob : Text → Bool
has_glob [] = false
has_glob (c ∷ s) = c == b'*' || c == b'?' || c == b'[' || has_glob s

unfoldable pub add_alias_line : Aliases → List Text → Aliases
add_alias_line a (w ∷ p ∷ m ∷ []) =
    if not (text_eq w (codes "alias"))
    then a
    else if has_glob p
    then record a { device = a.device ++ record { pattern_text = p; target = m } ∷ [] }
    else record a { exact = (p, m) ∷ a.exact }
add_alias_line a _ = a

unfoldable pub add_alias_lines : Aliases → List Text → Aliases
add_alias_lines a [] = a
add_alias_lines a (line ∷ lines) = add_alias_lines (add_alias_line a (fields line)) lines

unfoldable pub parse_aliases : Text → Aliases
parse_aliases text = add_alias_lines (record { exact = []; device = [] }) (split text newline)

unfoldable pub is_member : Text → List Text → Bool
is_member x [] = false
is_member x (y ∷ l) = text_eq y x || is_member x l

-- path.Match, the standard library's glob: `none` is a malformed pattern.
abbrev pub Glob : Type 0
Glob = Text → Text → Option Bool

abbrev pub matched : Option Bool → Bool
matched none = false
matched (some b) = b

module _ (glob : Glob) where
  unfoldable pub match_entries : List AliasEntry → Text → List Text → List Text
  match_entries [] modalias out = out
  match_entries (e ∷ es) modalias out = match_entries es modalias (
      if matched (glob e.pattern_text modalias) && not (is_member e.target out)
      then out ++ e.target ∷ []
      else out)

  unfoldable pub match_each : List AliasEntry → List Text → List Text → List Text
  match_each entries [] out = out
  match_each entries (m ∷ ms) out = match_each entries ms (match_entries entries m out)

  -- matchDevices(entries, modaliases); the set of modules seen is the list of those given out
  unfoldable pub match_devices : List AliasEntry → List Text → List Text
  match_devices entries modaliases = match_each entries modaliases []
