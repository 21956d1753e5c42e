-- ===== src/Control/Reply.antt =====
-- The framing of replies, as it is written and as it is read.
use mathlib.Core.Path.{subst}
use k0smos.Base.{
  ◌≢◌, ℕ, ◌≤◌, ◌≡◌, refl, ap, ◌∙◌, false, some, [], ◌∷◌, ◌++◌, take, length, length-append,
  take-append, arith, All, All-append, append_assoc, All-mono,
}
use k0smos.Base.Text.{Text, text_eq, is_space}
use k0smos.Base.Text.Laws.{Lacks, cut-append}
use k0smos.Base.Text.Trim.{Kept, trim_right_none, trim_space_none}
use k0smos.Base.Io.{ok, err}
use k0smos.Base.Decimal.{pos, decimal}
use k0smos.Base.Decimal.RoundTrip.{IsDigit, decimal-IsDigit, atoi-decimal}
use k0smos.Control.{Bytes}
use k0smos.Control.Port.{
  Responder, reply_ok, reply_error, one_line, serve_request, remote, read_status, read_reply,
  is_line_end, payload_of, max_reply_bytes,
}

-- A status line that is read back whole: it has no line end in it.
abbrev pub OneLine : Text → Type 0
OneLine s = All (λ c. is_line_end c ≡ false) s

digit_is_no_line_end : (c : ℕ) → IsDigit c → is_line_end c ≡ false
unfolding is_line_end
digit_is_no_line_end c h = ground arith

digit_is_no_space : (c : ℕ) → IsDigit c → is_space c ≡ false
unfolding is_space
digit_is_no_space c h = ground arith

no_newline : (c : ℕ) → is_line_end c ≡ false → c ≢ b'\n'
unfolding is_line_end
no_newline c h = ground arith

read_line :
    (status : Text) (rest : Bytes)
    → OneLine status
    → read_reply (status ++ b'\n' ∷ rest) ≡ read_status status rest
unfolding read_reply
read_line status rest h =
    rw
      (
        cut-append status rest b'\n'
            (All-mono (Kept is_line_end) (λ c. c ≢ b'\n') no_newline status h),
        trim_right_none is_line_end status h,
      )
      refl

ok_status : (n : ℕ) → OneLine (reply_ok ++ b' ' ∷ decimal n)
unfolding is_line_end
ok_status n =
    All-append (Kept is_line_end) reply_ok (b' ' ∷ decimal n) (ground arith) (
      refl,
      All-mono IsDigit (Kept is_line_end) digit_is_no_line_end (decimal n) (decimal-IsDigit n),
    )

payload_taken :
    (n : ℕ) (payload rest : Bytes)
    → length payload ≡ n
    → n ≤ max_reply_bytes
    → payload_of (decimal n) (some (pos n)) (payload ++ rest) ≡ ok payload
payload_taken n payload rest e h =
    let taken : take n (payload ++ rest) ≡ payload =
      subst (λ k. take k (payload ++ rest) ≡ payload) e (take-append payload rest) in
    ground (arith, length-append payload rest)

payload_whole :
    (n : ℕ) (payload rest : Bytes)
    → length payload ≡ n
    → n ≤ max_reply_bytes
    → read_status (reply_ok ++ b' ' ∷ decimal n) (payload ++ rest) ≡ ok payload
unfolding read_status text_eq
payload_whole n payload rest e h =
    rw
      (
        cut-append reply_ok (decimal n) b' ' (omega arith),
        trim_space_none (decimal n)
            (All-mono IsDigit (Kept is_space) digit_is_no_space (decimal n) (decimal-IsDigit n)),
        atoi-decimal n (omega (arith, h)),
      )
      (payload_taken n payload rest e h)

-- The host reads back exactly the payload that the responder gave, whatever bytes it holds and
-- whatever follows it on the port, up to the limit of eight mebibytes.
pub read_reply-serve_request :
    (respond : Responder) (name : Text) (payload rest : Bytes)
    → respond name ≡ ok payload
    → length payload ≤ max_reply_bytes
    → read_reply (serve_request name (some respond) ++ rest) ≡ ok payload
unfolding serve_request
read_reply-serve_request respond name payload rest e h = rw e (
    ap read_reply
      (append_assoc (reply_ok ++ b' ' ∷ decimal (length payload)) (b'\n' ∷ payload) rest)
    ∙ read_line (reply_ok ++ b' ' ∷ decimal (length payload)) (payload ++ rest)
        (ok_status (length payload))
    ∙ payload_whole (length payload) payload rest refl h)

one_line-OneLine : (e : Text) → Lacks b'\r' e → OneLine (one_line e)
unfolding is_line_end
one_line-OneLine [] h = tt
one_line-OneLine (c ∷ e) (hc, h) = (ground arith, one_line-OneLine e h)

error_status : (e : Text) → Lacks b'\r' e → OneLine (reply_error ++ b' ' ∷ one_line e)
unfolding is_line_end
error_status e h =
    All-append (Kept is_line_end) reply_error (b' ' ∷ one_line e) (ground arith)
      (refl, one_line-OneLine e h)

-- A responder's error reaches the host as an error with its text, on one line, and never as a
-- payload, if there is no carriage return in it.
pub read_reply-serve_error :
    (respond : Responder) (name e : Text) (rest : Bytes)
    → respond name ≡ err e
    → Lacks b'\r' e
    → read_reply (serve_request name (some respond) ++ rest) ≡ err (remote (one_line e))
unfolding serve_request read_status text_eq
read_reply-serve_error respond name e rest q h = rw q (
    ap (λ t. read_reply t) (append_assoc (reply_error ++ b' ' ∷ one_line e) (b'\n' ∷ []) rest)
    ∙ read_line (reply_error ++ b' ' ∷ one_line e) rest (error_status e h)
    ∙ rw (cut-append reply_error (one_line e) b' ' (omega arith)) refl)
