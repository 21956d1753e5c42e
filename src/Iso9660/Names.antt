-- ===== src/Iso9660/Names.antt =====
-- The name of a record, as it is written and as it is read.
use mathlib.Core.Path.{subst}
use k0smos.Base.{
  ℕ, zero, suc, ◌+◌, ◌%◌, ◌≤◌, ◌<◌, ◌≡◌, refl, ap, ◌∙◌, false, [], ◌∷◌, ◌++◌, ltb, ◌==◌, take, drop,
  length, get_or, length-append, take-append, arith,
}
use k0smos.Base.Text.{Text, codes, text_eq, to_upper}
use k0smos.Iso9660.Records.{
  Bytes, rock_ridge_nm, rock_ridge_from, rock_ridge_name, ended, iso_chars, iso_name, dir_record,
  record_body, name_pad, entry_name, named, or_normalised, system_use_of,
}

take_all : (s : Bytes) → take (length s) s ≡ s
take_all [] = refl
take_all (c ∷ s) = ap (λ t. c ∷ t) (take_all s)

drop_all : (s : Bytes) → drop (length s) s ≡ []
drop_all [] = refl
drop_all (c ∷ s) = drop_all s

rock_ridge_from-nil : (fuel : ℕ) (name : Text) → rock_ridge_from fuel [] name ≡ ended name
unfolding rock_ridge_from
rock_ridge_from-nil zero name = refl
rock_ridge_from-nil (suc fuel) name = refl

-- An area that is one NM entry.
nm_step :
    (b c fuel : ℕ) (s : Text)
    → b ≡ 6 + length s
    → rock_ridge_from (suc fuel) (b'N' ∷ b'M' ∷ b ∷ 1 ∷ 0 ∷ c ∷ s) [] ≡ ended (c ∷ s)
unfolding rock_ridge_from text_eq
nm_step b c fuel s e =
    let su : Bytes = b'N' ∷ b'M' ∷ b ∷ 1 ∷ 0 ∷ c ∷ s in
    let size : length su ≡ b = omega (arith, e) in
    let whole : take b su ≡ su = subst (λ k. take k su ≡ su) size (take_all su) in
    let nothing : drop b su ≡ [] = subst (λ k. drop k su ≡ []) size (drop_all su) in
    let enough : ltb (length su) 4 ≡ false = ground arith in
    let sized : ltb b 4 ≡ false = ground arith in
    let inside : ltb (length su) b ≡ false = ground arith in
    let text : (b == 4) ≡ false = ground arith in
    rw (enough, sized, inside, text, whole, nothing) (rock_ridge_from-nil fuel (c ∷ s))

rock_ridge_name-nm :
    (c : ℕ) (s : Text) → length s < 250 → rock_ridge_name (rock_ridge_nm (c ∷ s)) ≡ ended (c ∷ s)
unfolding rock_ridge_name rock_ridge_nm
rock_ridge_name-nm c s h = nm_step _ c _ s (omega (arith, h))

drop-plus : (xs ys : Bytes) (n m : ℕ) → n ≡ length xs + m → drop n (xs ++ ys) ≡ drop m ys
drop-plus [] ys n m e = ap (λ k. drop k ys) (omega (arith, e))
drop-plus (x ∷ xs) ys zero m e = absurd (omega (arith, e))
drop-plus (x ∷ xs) ys (suc n) m e = drop-plus xs ys n m (omega (arith, e))

length-name_pad : (id : Bytes) → length (name_pad id) ≡ (33 + length id) % 2
length-name_pad id = ground arith

-- The fixed part of a record.
abbrev record_head : Bytes → ℕ → ℕ → ℕ → Bytes → Bytes
record_head id extent size flags su = take 33 (dir_record id extent size flags su)

dir_record_split :
    (id : Bytes) (extent size flags : ℕ) (su : Bytes)
    → dir_record id extent size flags su
      ≡ record_head id extent size flags su ++ (id ++ (name_pad id ++ su))
unfolding dir_record record_body
dir_record_split id extent size flags su = refl

length-record_head :
    (id : Bytes) (extent size flags : ℕ) (su : Bytes)
    → length (record_head id extent size flags su) ≡ 33
unfolding dir_record record_body
length-record_head id extent size flags su = refl

name_length_byte :
    (id : Bytes) (extent size flags : ℕ) (su : Bytes)
    → get_or (dir_record id extent size flags su) 32 0 ≡ length id % 256
unfolding dir_record record_body
name_length_byte id extent size flags su = refl

raw_name :
    (id : Bytes) (extent size flags : ℕ) (su : Bytes)
    → take (length id) (drop 33 (dir_record id extent size flags su)) ≡ id
unfolding dir_record record_body
raw_name id extent size flags su = take-append id (name_pad id ++ su)

system_use_back :
    (id : Bytes) (extent size flags : ℕ) (su : Bytes)
    → system_use_of (length id) (dir_record id extent size flags su) ≡ su
system_use_back id extent size flags su = rw (dir_record_split id extent size flags su) (
    drop-plus (record_head id extent size flags su) (id ++ (name_pad id ++ su)) _
      (length id + (33 + length id) % 2) (omega (arith, length-record_head id extent size flags su))
    ∙ drop-plus id (name_pad id ++ su) _ ((33 + length id) % 2) refl
    ∙ drop-plus (name_pad id) su _ 0 (omega (arith, length-name_pad id)))

pub length-dir_record :
    (id : Bytes) (extent size flags : ℕ) (su : Bytes)
    → length (dir_record id extent size flags su)
      ≡ 33 + length id + (33 + length id) % 2 + length su
length-dir_record id extent size flags su = rw (dir_record_split id extent size flags su) (
    omega (
      arith,
      length-record_head id extent size flags su,
      length-append (record_head id extent size flags su) (id ++ (name_pad id ++ su)),
      length-append id (name_pad id ++ su),
      length-append (name_pad id) su,
      length-name_pad id,
    ))

-- A record with an identifier of two bytes or more, its name: that of the system use area.
pub entry_name-dir_record :
    (a b : ℕ) (id : Bytes) (extent size flags : ℕ) (su : Bytes)
    → length id < 254
    → entry_name (dir_record (a ∷ b ∷ id) extent size flags su)
      ≡ or_normalised (a ∷ b ∷ id) (rock_ridge_name su)
unfolding entry_name
entry_name-dir_record a b id extent size flags su h =
    let n : ℕ = length (a ∷ b ∷ id) in
    let byte : get_or (dir_record (a ∷ b ∷ id) extent size flags su) 32 0 ≡ n =
      name_length_byte (a ∷ b ∷ id) extent size flags su ∙ omega (arith, h) in
    let inside : ltb (length (dir_record (a ∷ b ∷ id) extent size flags su)) (33 + n) ≡ false =
      ground (arith, length-dir_record (a ∷ b ∷ id) extent size flags su) in
    let some_name : (n == 0) ≡ false = ground arith in
    rw
      (
        byte,
        some_name,
        inside,
        raw_name (a ∷ b ∷ id) extent size flags su,
        system_use_back (a ∷ b ∷ id) extent size flags su,
      )
      refl

length-to_upper : (s : Text) → length (to_upper s) ≡ length s
unfolding to_upper
length-to_upper [] = refl
length-to_upper (c ∷ s) = ap suc (length-to_upper s)

length-iso_chars : (s : Text) → length (iso_chars s) ≡ length s
length-iso_chars [] = refl
length-iso_chars (c ∷ s) = ap suc (length-iso_chars s)

pub length-iso_name : (s : Text) → length (iso_name s) ≡ length s + 2
unfolding iso_name
length-iso_name s = omega (
  arith,
  length-append (iso_chars (to_upper s)) (codes ";1"),
  length-iso_chars (to_upper s),
  length-to_upper s,
)

-- An identifier of two bytes or more.
pub long_identifier :
    (id : Bytes) (extent size flags : ℕ) (su : Bytes)
    → 2 ≤ length id
    → length id < 256
    → entry_name (dir_record id extent size flags su) ≡ or_normalised id (rock_ridge_name su)
long_identifier [] extent size flags su l h = absurd (omega (arith, l))
long_identifier (a ∷ []) extent size flags su l h = absurd (omega (arith, l))
long_identifier (a ∷ b ∷ id) extent size flags su l h =
    entry_name-dir_record a b id extent size flags su (omega (arith, h))

-- The name of a record that the writer makes reads back from the record's bytes as it was, its case,
-- hyphens and all, for every name in ASCII of 1 to 250 bytes, wherever the file lies.
pub entry_name_back :
    (c : ℕ) (s : Text) (extent size flags : ℕ)
    → length s < 250
    → entry_name (dir_record (iso_name (c ∷ s)) extent size flags (rock_ridge_nm (c ∷ s)))
      ≡ named (c ∷ s)
entry_name_back c s extent size flags h =
    long_identifier (iso_name (c ∷ s)) extent size flags (rock_ridge_nm (c ∷ s))
      (omega (arith, length-iso_name (c ∷ s))) (omega (arith, h, length-iso_name (c ∷ s)))
    ∙ ap (or_normalised (iso_name (c ∷ s))) (rock_ridge_name-nm c s h)
