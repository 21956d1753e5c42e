-- ===== src/Power.antt =====
-- internal/power/power.go: presses of the power button in a stream of input events.
-- The reader's bytes are a list; a record is read in full, so only the bytes matter.
pub mod Presses
use k0smos.Base.{
  ℕ, zero, suc, ◌+◌, ◌*◌, Bool, true, false, ◌&&◌, List, [], ◌∷◌, if◌then◌else◌, ltb, ◌==◌, take,
  drop, length, get_or,
}

abbrev pub event_size : ℕ
event_size = 24

abbrev pub type_off : ℕ
type_off = 16

abbrev pub code_off : ℕ
code_off = 18

abbrev pub value_off : ℕ
value_off = 20

abbrev pub ev_key : ℕ
ev_key = 0x1

abbrev pub key_power : ℕ
key_power = 116

-- binary.LittleEndian.Uint16(ev[i:])
abbrev pub uint16_at : List ℕ → ℕ → ℕ
uint16_at ev i = get_or ev i 0 + 256 * get_or ev (i + 1) 0

-- binary.LittleEndian.Uint32(ev[i:]); as an int32 it is 1 exactly if it is 1
abbrev pub uint32_at : List ℕ → ℕ → ℕ
uint32_at ev i = uint16_at ev i + 65536 * uint16_at ev (i + 2)

-- isPowerPress(ev)
unfoldable pub is_power_press : List ℕ → Bool
is_power_press ev =
    if ltb (length ev) event_size
    then false
    else uint16_at ev type_off == ev_key
      && uint16_at ev code_off == key_power
      && uint32_at ev value_off == 1

-- The loop of `Watch`, without cancellation: the number of presses sent until the stream ends.
unfoldable pub watch : ℕ → List ℕ → ℕ
watch zero r = 0
watch (suc fuel) r =
    let rest = watch fuel (drop event_size r) in
    if ltb (length r) event_size
    then 0
    else if is_power_press (take event_size r)
    then suc rest
    else rest
