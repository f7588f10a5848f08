-- ===== src/Wire/BigEndian.antt =====
-- What the packets rely on of the `bytes` crate: numbers are written and read in big-endian order.
use bilbycast_rist.Prelude.{
  sym, append-nil, length-append, false, take, drop, take-append, drop-append, ltb, lt→ltb,
  if◌then◌else◌, ℕ, ◌+◌, ◌*◌, ◌/◌, ◌%◌, ◌^◌, ◌<◌, ◌≡◌, ◌∙◌, refl, ap, arith, Option, none, some,
  List, [], ◌∷◌, ◌++◌, length,
}
use bilbycast_rist.Wire.{Buf}

pub record IsBigEndian (w : Buf) : Type 0 where
  pub put_u8_be : (v : ℕ) → w.put_u8 v ≡ v % 2 ^ 8 ∷ []
  pub put_u16_be : (v : ℕ) → w.put_u16 v ≡ v / 2 ^ 8 % 2 ^ 8 ∷ v % 2 ^ 8 ∷ []
  pub put_u32_be :
      (v : ℕ)
      → w.put_u32 v ≡ v / 2 ^ 24 % 2 ^ 8 ∷ v / 2 ^ 16 % 2 ^ 8 ∷ v / 2 ^ 8 % 2 ^ 8 ∷ v % 2 ^ 8 ∷ []
  pub get_u8_be : (a : ℕ) (rest : List ℕ) → w.get_u8 (a ∷ rest) ≡ some (a, rest)
  pub get_u16_be : (a b : ℕ) (rest : List ℕ) → w.get_u16 (a ∷ b ∷ rest) ≡ some (a * 2 ^ 8 + b, rest)
  pub get_u32_be :
      (a b c d : ℕ) (rest : List ℕ)
      → w.get_u32 (a ∷ b ∷ c ∷ d ∷ rest) ≡ some (a * 2 ^ 24 + b * 2 ^ 16 + c * 2 ^ 8 + d, rest)
  pub put_slice_be : (bytes : List ℕ) → w.put_slice bytes ≡ bytes
  pub copy_to_slice_be :
      (bytes rest : List ℕ) → w.copy_to_slice (length bytes) (bytes ++ rest) ≡ some (bytes, rest)
  pub copy_to_slice_short : (n : ℕ) (buf : List ℕ) → length buf < n → w.copy_to_slice n buf ≡ none
  pub get_u8_short : w.get_u8 [] ≡ none
  pub get_u16_short : (buf : List ℕ) → length buf < 2 → w.get_u16 buf ≡ none
  pub get_u32_short : (buf : List ℕ) → length buf < 4 → w.get_u32 buf ≡ none

module _ {w : Buf} (be : IsBigEndian w) where
  -- A number that is read back, with whatever follows it.
  pub get-put_u8 :
      (v : ℕ) (rest : List ℕ) → v < 2 ^ 8 → w.get_u8 (w.put_u8 v ++ rest) ≡ some (v, rest)
  get-put_u8 v rest h =
      rw be.put_u8_be (be.get_u8_be (v % 2 ^ 8) rest ∙ ap (λ (t : ℕ). some (t, rest)) (omega arith))

  pub get-put_u16 :
      (v : ℕ) (rest : List ℕ) → v < 2 ^ 16 → w.get_u16 (w.put_u16 v ++ rest) ≡ some (v, rest)
  get-put_u16 v rest h = rw be.put_u16_be (
      be.get_u16_be (v / 2 ^ 8 % 2 ^ 8) (v % 2 ^ 8) rest
      ∙ ap (λ (t : ℕ). some (t, rest)) (omega arith))

  pub get-put_u32 :
      (v : ℕ) (rest : List ℕ) → v < 2 ^ 32 → w.get_u32 (w.put_u32 v ++ rest) ≡ some (v, rest)
  get-put_u32 v rest h = rw be.put_u32_be (
      be.get_u32_be (v / 2 ^ 24 % 2 ^ 8) (v / 2 ^ 16 % 2 ^ 8) (v / 2 ^ 8 % 2 ^ 8) (v % 2 ^ 8) rest
      ∙ ap (λ (t : ℕ). some (t, rest)) (omega arith))

  pub length-put_u8 : (v : ℕ) → length (w.put_u8 v) ≡ 1
  length-put_u8 v = rw be.put_u8_be refl

  pub length-put_u16 : (v : ℕ) → length (w.put_u16 v) ≡ 2
  length-put_u16 v = rw be.put_u16_be refl

  pub length-put_u32 : (v : ℕ) → length (w.put_u32 v) ≡ 4
  length-put_u32 v = rw be.put_u32_be refl

  pub length-cons_u32 : (v : ℕ) (r : List ℕ) → length (w.put_u32 v ++ r) ≡ 4 + length r
  length-cons_u32 v r = omega (arith, length-append (w.put_u32 v) r, length-put_u32 v)

  -- A number that nothing follows.
  pub get-last_u32 : (v : ℕ) → v < 2 ^ 32 → w.get_u32 (w.put_u32 v) ≡ some (v, [])
  get-last_u32 v h = ap (λ t. w.get_u32 t) (sym (append-nil (w.put_u32 v))) ∙ get-put_u32 v [] h

-- A crate that behaves so.
abbrev pub big_endian : Buf
big_endian = record {
  put_u8 = λ v. v % 2 ^ 8 ∷ [];
  put_u16 = λ v. v / 2 ^ 8 % 2 ^ 8 ∷ v % 2 ^ 8 ∷ [];
  put_u32 = λ v. v / 2 ^ 24 % 2 ^ 8 ∷ v / 2 ^ 16 % 2 ^ 8 ∷ v / 2 ^ 8 % 2 ^ 8 ∷ v % 2 ^ 8 ∷ [];
  put_slice = λ bytes. bytes;
  get_u8 = take_u8;
  get_u16 = take_u16;
  get_u32 = take_u32;
  copy_to_slice = split;
}
  where
    split : ℕ → List ℕ → Option (List ℕ × List ℕ)
    split n buf = if ltb (length buf) n then none else some (take n buf, drop n buf)

    take_u8 : List ℕ → Option (ℕ × List ℕ)
    take_u8 [] = none
    take_u8 (a ∷ r) = some (a, r)

    take_u16 : List ℕ → Option (ℕ × List ℕ)
    take_u16 [] = none
    take_u16 (a ∷ []) = none
    take_u16 (a ∷ b ∷ r) = some (a * 2 ^ 8 + b, r)

    take_u32 : List ℕ → Option (ℕ × List ℕ)
    take_u32 (a ∷ b ∷ c ∷ d ∷ r) = some (a * 2 ^ 24 + b * 2 ^ 16 + c * 2 ^ 8 + d, r)
    take_u32 _ = none

short_u16 : (buf : List ℕ) → length buf < 2 → big_endian.get_u16 buf ≡ none
short_u16 [] h = refl
short_u16 (a ∷ []) h = refl
short_u16 (a ∷ b ∷ r) h = absurd (omega arith)

short_u32 : (buf : List ℕ) → length buf < 4 → big_endian.get_u32 buf ≡ none
short_u32 [] h = refl
short_u32 (a ∷ []) h = refl
short_u32 (a ∷ b ∷ []) h = refl
short_u32 (a ∷ b ∷ c ∷ []) h = refl
short_u32 (a ∷ b ∷ c ∷ d ∷ r) h = absurd (omega arith)

split_be :
    (bytes rest : List ℕ)
    → big_endian.copy_to_slice (length bytes) (bytes ++ rest) ≡ some (bytes, rest)
split_be bytes rest =
    let long : ltb (length (bytes ++ rest)) (length bytes) ≡ false =
      ground (arith, length-append bytes rest) in
    rw (long, take-append bytes rest, drop-append bytes rest) refl

split_short : (n : ℕ) (buf : List ℕ) → length buf < n → big_endian.copy_to_slice n buf ≡ none
split_short n buf h = rw (lt→ltb (length buf) n h) refl

pub big_endian-IsBigEndian : IsBigEndian big_endian
big_endian-IsBigEndian = record {
  put_u8_be = λ v. refl;
  put_u16_be = λ v. refl;
  put_u32_be = λ v. refl;
  get_u8_be = λ a r. refl;
  get_u16_be = λ a b r. refl;
  get_u32_be = λ a b c d r. refl;
  put_slice_be = λ bytes. refl;
  copy_to_slice_be = split_be;
  copy_to_slice_short = split_short;
  get_u8_short = refl;
  get_u16_short = short_u16;
  get_u32_short = short_u32;
}
