-- ===== src/Base/Scan.antt =====
-- bufio.Scanner of Go, splitting lines.
use Prim.Native.Nat.{ℕ, ◌+◌}
use mathlib.Core.Bool.{Bool, true, ◌||◌}
use mathlib.Core.List.{List, [], ◌∷◌, ◌++◌}
use k0smos.Base.Tests.{leb, ◌==◌, if◌then◌else◌}
use k0smos.Base.Lists.{length}
use k0smos.Base.Text.{Text, is_empty}

-- bufio.MaxScanTokenSize: a line this long stops the scanner.
abbrev pub max_token : ℕ
max_token = 65536

unfoldable pub drop_cr : Text → Text
drop_cr [] = []
drop_cr (c ∷ []) = if c == b'\r' then [] else c ∷ []
drop_cr (c ∷ d ∷ s) = c ∷ drop_cr (d ∷ s)

-- The lines that a bufio.Scanner yields: `line` is what of the present one is read, newest last.
-- The last line may lack its newline; an empty rest is no line.
unfoldable pub scan_from : Text → Text → List Text
scan_from line [] = if is_empty line || leb max_token (length line) then [] else drop_cr line ∷ []
scan_from line (c ∷ r) =
    let next = drop_cr line ∷ scan_from [] r in
    let more = scan_from (line ++ c ∷ []) r in
    if leb max_token (length line) then [] else if c == b'\n' then next else more

unfoldable pub scan_lines : Text → List Text
scan_lines r = scan_from [] r

-- sc.Err() of the scanner once it has stopped: whether a line was too long
unfoldable pub scan_fails_from : ℕ → Text → Bool
scan_fails_from n [] = leb max_token n
scan_fails_from n (c ∷ r) =
    let next = scan_fails_from 0 r in
    let more = scan_fails_from (n + 1) r in
    if leb max_token n then true else if c == b'\n' then next else more

unfoldable pub scan_fails : Text → Bool
scan_fails r = scan_fails_from 0 r
