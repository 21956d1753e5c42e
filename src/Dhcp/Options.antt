-- ===== src/Dhcp/Options.antt =====
-- The scan of options.
use k0smos.Base.{
  ℕ, zero, suc, ◌≤◌, ◌≡◌, ◌≢◌, refl, Option, none, some, List, [], ◌∷◌, ◌++◌, if◌then◌else◌, arith,
  ◌==◌, drop, length, length-append, take-append, drop-append, All, append_assoc,
}
use k0smos.Dhcp.{Bytes, opt_end, scan_options}

-- An option: its code and its value.
abbrev pub Tlv : Type 0
Tlv = ℕ × Bytes

abbrev pub encode : List Tlv → Bytes
encode [] = []
encode ((code, v) ∷ l) = code ∷ length v ∷ (v ++ encode l)

-- The value of the first option with a code.
abbrev pub value_of : ℕ → List Tlv → Option Bytes
value_of code [] = none
value_of code ((c, v) ∷ l) = if c == code then some v else value_of code l

abbrev pub IsTlv : Tlv → Type 0
IsTlv (code, v) = (code ≢ 0) × (code ≢ opt_end)

length-drop_le : (n : ℕ) (xs : Bytes) → length (drop n xs) ≤ length xs
length-drop_le zero xs = omega arith
length-drop_le (suc n) [] = omega arith
length-drop_le (suc n) (x ∷ xs) = omega (arith, length-drop_le n xs)

-- Fuel for each byte is enough: more changes nothing.
pub scan_options_fuel :
    (f g : ℕ) (rest : Bytes) (code : ℕ)
    → length rest ≤ f
    → length rest ≤ g
    → scan_options f rest code ≡ scan_options g rest code
unfolding scan_options
scan_options_fuel zero zero rest code _ _ = refl
scan_options_fuel zero (suc g) [] code _ _ = refl
scan_options_fuel zero (suc g) (c ∷ rest) code h _ = absurd (omega arith)
scan_options_fuel (suc f) zero [] code _ _ = refl
scan_options_fuel (suc f) zero (c ∷ rest) code _ h = absurd (omega arith)
scan_options_fuel (suc f) (suc g) [] code _ _ = refl
scan_options_fuel (suc f) (suc g) (c ∷ []) code hf hg =
    ground (arith, scan_options_fuel f g [] code)
scan_options_fuel (suc f) (suc g) (c ∷ len ∷ rest) code hf hg = ground (
  arith,
  scan_options_fuel f g (len ∷ rest) code,
  scan_options_fuel f g (drop len rest) code,
  length-drop_le len rest,
)

-- Whatever stands behind the end mark, a scan of encoded options gives the value of the first one
-- with the code.
pub scan-encode :
    (fuel : ℕ) (l : List Tlv) (rest : Bytes) (code : ℕ)
    → All IsTlv l
    → length (encode l ++ opt_end ∷ rest) ≤ fuel
    → scan_options fuel (encode l ++ opt_end ∷ rest) code ≡ value_of code l
unfolding scan_options
scan-encode zero l rest code h hf =
    absurd (omega (arith, length-append (encode l) (opt_end ∷ rest)))
scan-encode (suc f) [] [] code h hf = refl
scan-encode (suc f) [] (r ∷ rest) code h hf = refl
scan-encode (suc f) ((c, v) ∷ l) rest code ((h0, h1), h) hf =
    let tail = encode l ++ opt_end ∷ rest in
    ground (
      arith,
      append_assoc v (encode l) (opt_end ∷ rest),
      length-append v tail,
      take-append v tail,
      drop-append v tail,
      scan-encode f l rest code h,
    )
