-- ===== src/App/Packet/Pairs.antt =====
-- The ranges of an APP packet, written and read back.
use bilbycast_rist.Prelude.{
  ℕ, zero, suc, ◌*◌, ◌^◌, ◌≤◌, ◌<◌, ◌≡◌, ◌∙◌, refl, ap, arith, false, List, [], ◌∷◌, ◌++◌, ltb,
  length, All, length-append, le→not_ltb,
}
use bilbycast_rist.Wire.{Buf, ok, ◌>>=◌}
use bilbycast_rist.Wire.BigEndian.{IsBigEndian, get-put_u16, length-put_u16}
use bilbycast_rist.App.{parse_pairs, put_pairs}

abbrev pub PairFits : ℕ × ℕ → Type 0
PairFits e = (e.0 < 2 ^ 16) × (e.1 < 2 ^ 16)

module _ {w : Buf} (be : IsBigEndian w) where
  pub length-put_pairs : (es : List (ℕ × ℕ)) → length (put_pairs w es) ≡ 4 * length es
  unfolding put_pairs
  length-put_pairs [] = refl
  length-put_pairs (e ∷ es) = omega (
    arith,
    length-append (w.put_u16 e.0) (w.put_u16 e.1 ++ put_pairs w es),
    length-append (w.put_u16 e.1) (put_pairs w es),
    length-put_u16 be e.0,
    length-put_u16 be e.1,
    length-put_pairs es,
  )

  parse_pairs-nil : (n : ℕ) → parse_pairs w n [] ≡ ok []
  unfolding parse_pairs
  parse_pairs-nil zero = refl
  parse_pairs-nil (suc n) = refl

  parse_pairs-step :
      (n a b : ℕ) (r : List ℕ)
      → a < 2 ^ 16
      → b < 2 ^ 16
      → parse_pairs w (suc n) (w.put_u16 a ++ (w.put_u16 b ++ r))
        ≡ (parse_pairs w n r >>= λ rest. ok ((a, b) ∷ rest))
  unfolding parse_pairs
  parse_pairs-step n a b r ha hb =
      let long : ltb (length (w.put_u16 a ++ (w.put_u16 b ++ r))) 4 ≡ false =
        le→not_ltb (length (w.put_u16 a ++ (w.put_u16 b ++ r))) 4 (
          omega (
            arith,
            length-append (w.put_u16 a) (w.put_u16 b ++ r),
            length-append (w.put_u16 b) r,
            length-put_u16 be a,
            length-put_u16 be b,
          )) in
      rw long (rw (get-put_u16 be a (w.put_u16 b ++ r) ha) (rw (get-put_u16 be b r hb) refl))

  pub parse-put_pairs :
      (n : ℕ) (es : List (ℕ × ℕ))
      → length es ≤ n
      → All PairFits es
      → parse_pairs w n (put_pairs w es) ≡ ok es
  unfolding put_pairs
  parse-put_pairs n [] h f = parse_pairs-nil n
  parse-put_pairs zero (e ∷ es) h f = absurd (omega arith)
  parse-put_pairs (suc n) (e ∷ es) h f =
      parse_pairs-step n e.0 e.1 (put_pairs w es) f.0.0 f.0.1
      ∙ ap (λ t. t >>= λ rest. ok (e ∷ rest)) (parse-put_pairs n es (omega arith) f.1)
