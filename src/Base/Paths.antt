-- ===== src/Base/Paths.antt =====
-- path.Base, path.Clean and path.Dir of Go, for slash-separated paths.
use mathlib.Core.List.{List, [], ◌∷◌, reverse}
use k0smos.Base.Tests.{◌==◌, if◌then◌else◌}
use mathlib.Core.Bool.{Bool, ◌||◌}
use k0smos.Base.Text.{Text, codes, is_empty, text_eq, has_prefix, split, join}
use Prim.Native.Nat.{ℕ}

abbrev slash : ℕ
slash = b'/'

abbrev pub not_slash_from : Text → Text
not_slash_from [] = []
not_slash_from (c ∷ s) = if c == slash then not_slash_from s else c ∷ s

unfoldable until_slash : Text → Text
until_slash [] = []
until_slash (c ∷ s) = let rest = until_slash s in if c == slash then [] else c ∷ rest

unfoldable from_slash : Text → Text
from_slash [] = []
from_slash (c ∷ s) = let rest = from_slash s in if c == slash then c ∷ s else rest

-- path.Base(p): the last element, without trailing slashes; "." for nothing, "/" for slashes alone
unfoldable pub path_base : Text → Text
unfolding until_slash
path_base [] = codes "."
path_base (c ∷ p) =
    let base = reverse (until_slash (not_slash_from (reverse (c ∷ p)))) in
    if is_empty base then codes "/" else base

-- The parts of a path behind path.Clean, the last first: "." and empty ones go, and ".." takes a
-- part back, or stays at the head of a path that is not rooted.
unfoldable pub clean_parts : Bool → List Text → List Text → List Text
clean_parts rooted kept [] = reverse kept
clean_parts rooted kept (p ∷ ps) =
    let back : List Text = elim kept [
      | [] ↦ if rooted then [] else codes ".." ∷ []
      | q ∷ qs ↦ if text_eq q (codes "..") then codes ".." ∷ q ∷ qs else qs
    ] in
    clean_parts rooted
      (if is_empty p || text_eq p (codes ".")
        then kept
        else if text_eq p (codes "..")
        then back
        else p ∷ kept)
      ps

-- path.Clean(p)
unfoldable pub path_clean : Text → Text
unfolding clean_parts
path_clean p =
    let rooted = has_prefix p (codes "/") in
    let cleaned = join (clean_parts rooted [] (split p slash)) slash in
    if rooted then slash ∷ cleaned else if is_empty cleaned then codes "." else cleaned

-- path.Dir(p): all up to the last slash, cleaned
unfoldable pub path_dir : Text → Text
unfolding path_clean from_slash
path_dir p = path_clean (reverse (from_slash (reverse p)))
