-- ===== src/Nethub/Framing.antt =====
-- Frames on the wire: a 4-byte big-endian length, and that many bytes.
pub mod Stream
use k0smos.Base.{
  ℕ, zero, suc, ◌+◌, ◌*◌, ◌/◌, ◌%◌, ◌^◌, Bool, true, false, ◌||◌, List, [], ◌∷◌, ◌++◌,
  if◌then◌else◌, ltb, ◌==◌, take, drop, length, get_or,
}

abbrev pub Bytes : Type 0
Bytes = List ℕ

-- 1 << 17
abbrev pub max_frame : ℕ
max_frame = 2 ^ 17

abbrev pub header : ℕ → Bytes
header n = (n / 2 ^ 24 % 256) ∷ (n / 2 ^ 16 % 256) ∷ (n / 2 ^ 8 % 256) ∷ (n % 256) ∷ []

-- binary.BigEndian.Uint32(hdr)
abbrev pub uint32_at : Bytes → ℕ
uint32_at b = get_or b 0 0 * 2 ^ 24 + get_or b 1 0 * 2 ^ 16 + get_or b 2 0 * 2 ^ 8 + get_or b 3 0

-- What is written to a port for one frame.
abbrev pub encode : Bytes → Bytes
encode frame = header (length frame) ++ frame

pub data Read : Type 0 where
  frame_of : Bytes → Bytes → Read
  bad_length : ℕ → Read
  end_of_stream : Read

-- One round of the loop of `serve`: the next frame and what follows it, or why there is none.
unfoldable pub read_frame : Bytes → Read
read_frame r =
    let n = uint32_at r in
    let body = drop 4 r in
    if ltb (length r) 4
    then end_of_stream
    else if n == 0 || ltb max_frame n
    then bad_length n
    else if ltb (length body) n
    then end_of_stream
    else frame_of (take n body) (drop n body)

-- How the loop of `serve` ends: the guest went away, or it is dropped for a frame of this length.
pub data End : Type 0 where
  gone : End
  dropped : ℕ → End

abbrev pub with_frame : Bytes → List Bytes × End → List Bytes × End
with_frame frame (frames, end) = (frame ∷ frames, end)

-- The loop of `serve`: the frames that are flooded, and its end. Each round takes a byte at least.
unfoldable pub serve_from : ℕ → Bytes → List Bytes × End
serve_from zero r = ([], gone)
serve_from (suc fuel) r = elim (read_frame r) [
  | end_of_stream ↦ ([], gone)
  | bad_length n ↦ ([], dropped n)
  | frame_of frame rest ↦ with_frame frame (serve_from fuel rest)
]

unfoldable pub serve : Bytes → List Bytes × End
serve r = serve_from (suc (length r)) r
