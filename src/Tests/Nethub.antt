-- ===== src/Tests/Nethub.antt =====
-- A run of the hub (internal/nethub).
use k0smos.Base.{◌≡◌, refl, [], ◌∷◌, arith, All}
use k0smos.Nethub.Framing.{Bytes, serve, serve_from, read_frame, gone, dropped}
use k0smos.Nethub.Hub.{
  Flood, Hub, initial, is_port, accept_port, start_flood, write_frame, write_part, advance, accept,
  read, write, fail, Reach, listen, step,
}
use k0smos.Nethub.Ports.{frames_of, FromOther}
use k0smos.Nethub.Flooding.{received_from_others}

abbrev hello : Bytes
hello = 104 ∷ 105 ∷ []

empty_frame : serve (0 ∷ 0 ∷ 0 ∷ 0 ∷ 1 ∷ []) ≡ ([], dropped 0)
unfolding serve serve_from read_frame
empty_frame = refl

abbrev three : Hub
three = accept_port 3 (accept_port 2 (accept_port 1 initial))

three-Reach : Reach three
unfolding is_port
three-Reach =
    step (step (step listen (accept _ 1 refl refl)) (accept _ 2 refl refl)) (accept _ 3 refl refl)

abbrev flood : Flood
flood = record { from = 1; frame = hello; targets = 3 ∷ 2 ∷ [] }

-- Port 1 sends a frame; it reaches port 3 whole, and port 2 goes away in the middle of it.
abbrev sent : Hub
sent = advance [] flood (2 ∷ []) [] (write_frame 3 flood (start_flood 1 hello three))

abbrev flood_rest : Flood
flood_rest = record { from = 1; frame = hello; targets = 2 ∷ [] }

abbrev cut_off : Hub
cut_off = advance [] flood_rest [] [] (write_part 2 5 flood_rest sent)

cut_off-Reach : Reach cut_off
unfolding is_port
cut_off-Reach =
    step
      (step (step three-Reach (read three 1 hello refl (ground arith)))
        (write (start_flood 1 hello three) [] flood [] 3 (2 ∷ []) refl refl refl))
      (fail sent [] flood_rest [] 2 5 [] refl refl refl (ground arith))

received_from_others_example :
    (serve (cut_off.output 3) ≡ (frames_of (cut_off.got 3), gone))
    × All (FromOther 3) (cut_off.got 3)
received_from_others_example = received_from_others cut_off 3 cut_off-Reach

received_whole : frames_of (cut_off.got 3) ≡ hello ∷ []
received_whole = refl

received_part : cut_off.output 2 ≡ 0 ∷ 0 ∷ 0 ∷ 2 ∷ 104 ∷ []
received_part = refl
