-- ===== src/Init/Serve.antt =====
-- A file of the node, asked for over the control port.
use mathlib.Core.Path.{subst}
use k0smos.Base.{
  ◌≤◌, ◌≡◌, refl, sym, ap, ◌∙◌, Bool, true, false, List, [], ◌∷◌, ◌++◌, All, length, arith,
}
use k0smos.Base.Text.{Text, codes, text_eq, is_space, trim_space, to_lower, lower, cut, has_prefix}
use k0smos.Base.Text.Laws.{Lacks}
use k0smos.Base.Text.Trim.{Kept, trim_space_none, trim_space_inner}
use k0smos.Base.Io.{ok}
use k0smos.Config.{Config}
use k0smos.Control.{Bytes, is_request, is_one_of}
use k0smos.Control.Port.{Op}
use k0smos.Control.Lines.{IsLine}
use k0smos.Control.Exchange.{exchange, answer, Carried, exchange-answer}
use k0smos.Init.Requests.{Node, max_served_file, read_for_host, answer_request}

-- The request line for a file.
abbrev pub cat_line : Text → Text
cat_line path = codes "cat " ++ path

-- A path that the control port leaves as it is: one line, absolute, without white space or upper-case
-- letters.
pub record IsPlainPath (path : Text) : Type 0 where
  pub line : IsLine (cat_line path)
  pub one_line : Lacks b'\r' (cat_line path)
  pub no_space : All (Kept is_space) path
  pub in_lower : to_lower path ≡ path
  pub absolute : has_prefix path (codes "/") ≡ true

keeps_c : Kept is_space b'c'
unfolding is_space
keeps_c = refl

trimmed : (path : Text) → IsPlainPath path → trim_space (cat_line path) ≡ cat_line path
unfolding has_prefix
trimmed [] p = absurd (cc)
trimmed (c ∷ path) p = trim_space_inner b'c' (codes "at ") c path keeps_c p.no_space

lowered : (path : Text) → IsPlainPath path → to_lower (trim_space (cat_line path)) ≡ cat_line path
unfolding to_lower lower
lowered path p = rw (trimmed path p) (ap (λ t. codes "cat " ++ t) p.in_lower)

is_request-cat_line : (path : Text) → is_request (cat_line path) ≡ true
unfolding is_request cut is_one_of text_eq
is_request-cat_line path = refl

answer_request-cat_line :
    (node : Node) (c : Config) (path : Text)
    → IsPlainPath path
    → answer_request node c (cat_line path) ≡ read_for_host node path
unfolding answer_request cut text_eq
answer_request-cat_line node c path p = ap (read_for_host node) (trim_space_none path p.no_space)

read_for_host-file :
    (node : Node) (path : Text) (content : Bytes)
    → IsPlainPath path
    → node.stat path ≡ ok (record { is_dir = false; size = length content })
    → node.read_file path ≡ ok content
    → length content ≤ max_served_file
    → read_for_host node path ≡ ok content
unfolding read_for_host has_prefix
read_for_host-file node [] content p s r l = absurd (cc)
read_for_host-file node (c ∷ path) content p s r l = rw (p.absolute, s) (ground (arith, r))

-- For a file that is not a directory, has at most 4 MiB, and does not change between the call that
-- measures it and the one that reads it: the host that asks for it over the control port, by a path
-- that is absolute, stands on one line, and has no white space and no upper-case letter, gets exactly
-- its content.
pub exchange-cat_line :
    (node : Node) (c : Config) (cancelled : List Op → Bool) (path : Text) (content : Bytes)
    → IsPlainPath path
    → node.stat path ≡ ok (record { is_dir = false; size = length content })
    → node.read_file path ≡ ok content
    → length content ≤ max_served_file
    → exchange (answer_request node c) cancelled (cat_line path) ≡ ok content
exchange-cat_line node c cancelled path content p s r l =
    let low = lowered path p in
    let reply =
      answer_request-cat_line node c path p ∙ read_for_host-file node path content p s r l in
    let served : answer_request node c (to_lower (trim_space (cat_line path))) ≡ ok content =
      ap (answer_request node c) low ∙ reply in
    exchange-answer (answer_request node c) cancelled (cat_line path) p.line p.one_line
      (ap is_request low ∙ is_request-cat_line path) (subst Carried (sym served) (omega (arith, l)))
    ∙ ap answer served
