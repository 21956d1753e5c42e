-- ===== src/Nethub/Framing/Stream.antt =====
-- Streams of frames, read back.
use k0smos.Base.{
  ◌⊎◌, inl, inr, ℕ, zero, suc, ◌+◌, ◌*◌, ◌/◌, ◌%◌, ◌^◌, ◌≤◌, ◌<◌, ◌≡◌, refl, sym, ap, ◌∙◌, List, [],
  ◌∷◌, ◌++◌, length, length-append, take-append, drop-append, arith, All, append_assoc,
}
use k0smos.Nethub.Framing.{
  Bytes, max_frame, encode, frame_of, end_of_stream, read_frame, gone, with_frame, serve_from,
  serve,
}

abbrev pub IsFrame : Bytes → Type 0
IsFrame f = (0 < length f) × (length f ≤ max_frame)

abbrev pub on_wire : List Bytes → Bytes
on_wire [] = []
on_wire (f ∷ fs) = encode f ++ on_wire fs

header_value :
    (n : ℕ)
    → n < 2 ^ 32
    → n / 2 ^ 24 % 256 * 2 ^ 24 + n / 2 ^ 16 % 256 * 2 ^ 16 + n / 2 ^ 8 % 256 * 2 ^ 8 + n % 256 ≡ n
header_value n h = omega (arith, h)

read_frame-encode : (f rest : Bytes) → IsFrame f → read_frame (encode f ++ rest) ≡ frame_of f rest
unfolding read_frame
read_frame-encode f rest (lo, hi) =
    rw (header_value (length f) (omega (arith, hi)))
      (ground (arith, length-append f rest, take-append f rest, drop-append f rest))

-- A rest that is a beginning of a frame, and not all of it.
pub record IsPart (r : Bytes) : Type 0 where
  pub frame : Bytes
  pub fits : IsFrame frame
  pub missing : Bytes
  pub some_missing : 0 < length missing
  pub whole : r ++ missing ≡ encode frame

tail_eq : (a b : ℕ) (xs ys : Bytes) → ◌≡◌ {A = Bytes} (a ∷ xs) (b ∷ ys) → (a ≡ b) × (xs ≡ ys)
tail_eq a b xs ys e = (cc, cc)

read_part :
    (a b c d : ℕ) (r f missing : Bytes)
    → IsFrame f
    → 0 < length missing
    → a ≡ length f / 2 ^ 24 % 256
    → b ≡ length f / 2 ^ 16 % 256
    → c ≡ length f / 2 ^ 8 % 256
    → d ≡ length f % 256
    → r ++ missing ≡ f
    → read_frame (a ∷ b ∷ c ∷ d ∷ r) ≡ end_of_stream
unfolding read_frame
read_part a b c d r f missing (lo, hi) m ea eb ec ed e =
    let size : length r + length missing ≡ length f = sym (length-append r missing) ∙ ap length e in
    let value : a * 2 ^ 24 + b * 2 ^ 16 + c * 2 ^ 8 + d ≡ length f =
      omega (arith, ea, eb, ec, ed, header_value (length f) (omega (arith, hi))) in
    rw value (ground (arith, size))

read_frame-IsPart : (r : Bytes) → IsPart r → read_frame r ≡ end_of_stream
unfolding read_frame
read_frame-IsPart [] p = refl
read_frame-IsPart (a ∷ []) p = refl
read_frame-IsPart (a ∷ b ∷ []) p = refl
read_frame-IsPart (a ∷ b ∷ c ∷ []) p = refl
read_frame-IsPart (a ∷ b ∷ c ∷ d ∷ r) p =
    let (ea, e1) = tail_eq a _ (b ∷ c ∷ d ∷ r ++ p.missing) _ p.whole in
    let (eb, e2) = tail_eq b _ (c ∷ d ∷ r ++ p.missing) _ e1 in
    let (ec, e3) = tail_eq c _ (d ∷ r ++ p.missing) _ e2 in
    let (ed, e4) = tail_eq d _ (r ++ p.missing) _ e3 in
    read_part a b c d r p.frame p.missing p.fits p.some_missing ea eb ec ed e4

-- What a guest has got: whole frames, and at most a part of one behind them.
abbrev pub Partial : Bytes → Type 0
Partial r = (r ≡ []) ⊎ IsPart r

read_frame-Partial : (r : Bytes) → Partial r → read_frame r ≡ end_of_stream
unfolding read_frame
read_frame-Partial r (inl e) = rw e refl
read_frame-Partial r (inr p) = read_frame-IsPart r p

serve_from-frame_of :
    (fuel : ℕ) (r f rest : Bytes)
    → read_frame r ≡ frame_of f rest
    → serve_from (suc fuel) r ≡ with_frame f (serve_from fuel rest)
unfolding serve_from
serve_from-frame_of fuel r f rest e = rw (e, serve_from) refl

serve_from-on_wire :
    (fs : List Bytes) (rest : Bytes) (fuel : ℕ)
    → All IsFrame fs
    → Partial rest
    → length fs < fuel
    → serve_from fuel (on_wire fs ++ rest) ≡ (fs, gone)
unfolding serve_from
serve_from-on_wire fs rest zero h p l = absurd (omega (arith, l))
serve_from-on_wire [] rest (suc fuel) h p l = rw (read_frame-Partial rest p, serve_from) refl
serve_from-on_wire (f ∷ fs) rest (suc fuel) (hf, h) p l =
    ap (serve_from (suc fuel)) (append_assoc (encode f) (on_wire fs) rest)
    ∙ serve_from-frame_of fuel _ f _ (read_frame-encode f (on_wire fs ++ rest) hf)
    ∙ ap (with_frame f) (serve_from-on_wire fs rest fuel h p (omega (arith, l)))

length-on_wire : (fs : List Bytes) → length fs ≤ length (on_wire fs)
length-on_wire [] = omega arith
length-on_wire (f ∷ fs) = omega (arith, length-append (encode f) (on_wire fs), length-on_wire fs)

-- A stream of whole frames, with at most a part of one behind them, is read as these frames, and
-- the port is not dropped.
pub serve-on_wire :
    (fs : List Bytes) (rest : Bytes)
    → All IsFrame fs
    → Partial rest
    → serve (on_wire fs ++ rest) ≡ (fs, gone)
unfolding serve
serve-on_wire fs rest h p =
    serve_from-on_wire fs rest _ h p
      (omega (arith, length-append (on_wire fs) rest, length-on_wire fs))
