-- ===== src/Power/Presses.antt =====
-- The presses that are reported, for a stream that is made of events.
use mathlib.Core.Path.{subst}
use k0smos.Base.{
  select, lt→ltb, ℕ, zero, suc, ◌+◌, ◌*◌, ◌%◌, ◌/◌, ◌^◌, ◌&&◌, ◌≡◌, ◌<◌, refl, ap, Bool, true,
  false, List, [], ◌∷◌, ◌++◌, if◌then◌else◌, ltb, ◌==◌, take, drop, length, get_or, length-append,
  take-append, drop-append, arith, All, ◌∙◌,
}
use k0smos.Power.{is_power_press, watch}

-- A struct input_event.
pub record Event : Type 0 where
  pub time : List ℕ
  pub type : ℕ
  pub code : ℕ
  pub value : ℕ

abbrev pub le_bytes : ℕ → ℕ → List ℕ
le_bytes zero n = []
le_bytes (suc w) n = n % 256 ∷ le_bytes w (n / 256)

abbrev pub encode : Event → List ℕ
encode e = e.time ++ (le_bytes 2 e.type ++ (le_bytes 2 e.code ++ le_bytes 4 e.value))

-- A field has the width of its type, and the time takes sixteen bytes.
pub record IsEvent (e : Event) : Type 0 where
  pub time : length e.time ≡ 16
  pub type : e.type < 2 ^ 16
  pub code : e.code < 2 ^ 16
  pub value : e.value < 2 ^ 32

abbrev pub is_press : Event → Bool
is_press e = e.type == 1 && e.code == 116 && e.value == 1

get_or-behind : (t s : List ℕ) (j i : ℕ) → j ≡ length t + i → get_or (t ++ s) j 0 ≡ get_or s i 0
get_or-behind [] s j i e = ap (λ k. get_or s k 0) (omega (arith, e))
get_or-behind (c ∷ t) s zero i e = absurd (omega (arith, e))
get_or-behind (c ∷ t) s (suc j) i e = get_or-behind t s j i (omega (arith, e))

press_bytes :
    (t : List ℕ) (a b c d v w x y : ℕ)
    → length t ≡ 16
    → is_power_press (t ++ a ∷ b ∷ c ∷ d ∷ v ∷ w ∷ x ∷ y ∷ [])
      ≡ (a + 256 * b == 1 && c + 256 * d == 116 && v + 256 * w + 65536 * (x + 256 * y) == 1)
unfolding is_power_press
press_bytes t a b c d v w x y e =
    rw
      (
        len,
        at 16 0 refl,
        at 17 1 refl,
        at 18 2 refl,
        at 19 3 refl,
        at 20 4 refl,
        at 21 5 refl,
        at 22 6 refl,
        at 23 7 refl,
      )
      refl
  where
    fields : List ℕ
    fields = a ∷ b ∷ c ∷ d ∷ v ∷ w ∷ x ∷ y ∷ []

    len : length (t ++ fields) ≡ 24
    len = omega (arith, e, length-append t fields)

    at : (j i : ℕ) → j ≡ 16 + i → get_or (t ++ fields) j 0 ≡ get_or fields i 0
    at j i h = get_or-behind t fields j i (omega (arith, h, e))

two_bytes : (n : ℕ) → n < 2 ^ 16 → n % 256 + 256 * (n / 256 % 256) ≡ n
two_bytes n h = omega (arith, h)

four_bytes :
    (n : ℕ)
    → n < 2 ^ 32
    → n % 256
        + 256 * (n / 256 % 256)
        + 65536 * (n / 256 / 256 % 256 + 256 * (n / 256 / 256 / 256 % 256))
      ≡ n
four_bytes n h = omega (arith, h)

is_power_press-encode : (e : Event) → IsEvent e → is_power_press (encode e) ≡ is_press e
is_power_press-encode e h =
    press_bytes e.time _ _ _ _ _ _ _ _ h.time
    ∙ rw (two_bytes e.type h.type, two_bytes e.code h.code, four_bytes e.value h.value) refl

abbrev pub stream : List Event → List ℕ → List ℕ
stream [] rest = rest
stream (e ∷ es) rest = encode e ++ stream es rest

length-encode : (e : Event) → IsEvent e → length (encode e) ≡ 24
length-encode e h = omega (
  arith,
  h.time,
  length-append e.time (le_bytes 2 e.type ++ (le_bytes 2 e.code ++ le_bytes 4 e.value)),
)

take_record : (x y : List ℕ) → length x ≡ 24 → take 24 (x ++ y) ≡ x
take_record x y e = subst (λ n. take n (x ++ y) ≡ x) e (take-append x y)

drop_record : (x y : List ℕ) → length x ≡ 24 → drop 24 (x ++ y) ≡ y
drop_record x y e = subst (λ n. drop n (x ++ y) ≡ y) e (drop-append x y)

-- From a stream of whole events and a rest that is shorter than one, with more rounds than events,
-- exactly the presses of the power key are counted: no release, no repeat and no other key.
pub watch-stream :
    (es : List Event) (rest : List ℕ) (fuel : ℕ)
    → All IsEvent es
    → length rest < 24
    → length es < fuel
    → watch fuel (stream es rest) ≡ length (select is_press es)
unfolding watch
watch-stream es rest zero h l f = absurd (omega (arith, f))
watch-stream [] rest (suc fuel) h l f = rw (lt→ltb (length rest) 24 l) refl
watch-stream (e ∷ es) rest (suc fuel) (he, h) l f =
    rw
      (
        whole,
        drop_record (encode e) (stream es rest) (length-encode e he),
        take_record (encode e) (stream es rest) (length-encode e he),
        is_power_press-encode e he,
        watch-stream es rest fuel h l (omega (arith, f)),
      )
      (by_press (is_press e))
  where
    whole : ltb (length (stream (e ∷ es) rest)) 24 ≡ false
    whole = ground (arith, length-append (encode e) (stream es rest), length-encode e he)

    by_press :
        (b : Bool)
        → (if b then suc (length (select is_press es)) else length (select is_press es))
          ≡ length (if b then e ∷ select is_press es else select is_press es)
    by_press true = refl
    by_press false = refl
