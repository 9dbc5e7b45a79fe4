-- ===== src/Bigint/Bytes.antt =====
-- The byte array of a `bigint` holds the number that was set.
use pow_server.Prelude.{
  ℕ, zero, suc, ◌+◌, ◌*◌, ◌^◌, ◌≤◌, ◌<◌, ◌≡◌, refl, ◌∙◌, List, [], ◌∷◌, ◌++◌, arith, length, All,
  All-append, reverse, reverse-cons, length-reverse, length-replicate, replicate,
}
use pow_server.Bigint.{Multiprecision, overlay, set, number, IsWord}
use pow_server.Bigint.Digits.{be_from, be_value, le_value, IsByte}

be_from-append : (acc : ℕ) (xs ys : List ℕ) → be_from acc (xs ++ ys) ≡ be_from (be_from acc xs) ys
be_from-append acc [] ys = refl
be_from-append acc (x ∷ xs) ys = be_from-append (acc * 256 + x) xs ys

-- Bytes that are written from the back spell, read from the front, the same number.
pub be_value-reverse : (xs : List ℕ) → be_value (reverse xs) ≡ le_value xs
be_value-reverse [] = refl
be_value-reverse (x ∷ xs) =
    rw (reverse-cons x xs, be_from-append 0 (reverse xs) (x ∷ []))
      (omega (arith, be_value-reverse xs))

All-reverse : (xs : List ℕ) → All IsByte xs → All IsByte (reverse xs)
All-reverse [] h = tt
All-reverse (x ∷ xs) h =
    rw (reverse-cons x xs) (All-append IsByte (reverse xs) (x ∷ []) (All-reverse xs h.1) (h.0, tt))

le_value-zeros : (n : ℕ) → le_value (replicate n 0) ≡ 0
le_value-zeros zero = refl
le_value-zeros (suc n) = omega (arith, le_value-zeros n)

pub length-overlay : (out bs : List ℕ) → length (overlay out bs) ≡ length bs
unfolding overlay
length-overlay [] [] = refl
length-overlay (o ∷ out) [] = refl
length-overlay [] (b ∷ bs) = refl
length-overlay (o ∷ out) (b ∷ bs) = omega (arith, length-overlay out bs)

le_value-overlay :
    (n : ℕ) (out : List ℕ) → length out ≤ n → le_value (overlay out (replicate n 0)) ≡ le_value out
unfolding overlay
le_value-overlay zero [] h = refl
le_value-overlay zero (o ∷ out) h = absurd (omega arith)
le_value-overlay (suc n) [] h = omega (arith, le_value-zeros n)
le_value-overlay (suc n) (o ∷ out) h = omega (arith, le_value-overlay n out (omega arith))

All-overlay : (out : List ℕ) (n : ℕ) → All IsByte out → All IsByte (overlay out (replicate n 0))
unfolding overlay
All-overlay [] zero h = tt
All-overlay (o ∷ out) zero h = tt
All-overlay [] (suc n) h = (omega arith, zeros n)
  where
    zeros : (k : ℕ) → All IsByte (replicate k 0)
    zeros zero = tt
    zeros (suc k) = (omega arith, zeros k)
All-overlay (o ∷ out) (suc n) h = (h.0, All-overlay out n h.1)

module _ (mp : Multiprecision) (size : ℕ) where
  -- Whatever number is set, the array keeps its size and holds bytes.
  pub set-IsWord : (n : ℕ) → IsWord size (set mp size n)
  unfolding set
  set-IsWord n =
      let out = mp.export_bits n in
      record {
        sized = omega (
          arith,
          length-reverse (overlay out (replicate size 0)),
          length-overlay out (replicate size 0),
          length-replicate size (zero),
        );
        filled = All-reverse _ (All-overlay out size (mp.export_bits-IsByte n));
      }

  -- A number that fits is read back from the array.
  pub number-set : (n : ℕ) → 0 < size → n < 256 ^ size → number mp size (set mp size n) ≡ n
  unfolding number set
  number-set n positive fits =
      let out = mp.export_bits n in
      let short : length out < suc size = mp.length-export_bits size n positive fits in
      mp.import_bits-be_value _ (set-bytes n)
      ∙ be_value-reverse (overlay out (replicate size 0))
      ∙ le_value-overlay size out (omega arith)
      ∙ mp.le_value-export_bits n
    where
      set-bytes : (n : ℕ) → All IsByte (reverse (overlay (mp.export_bits n) (replicate size 0)))
      set-bytes n = All-reverse _ (All-overlay (mp.export_bits n) size (mp.export_bits-IsByte n))
