-- ===== src/Circuits/Search.antt =====
-- Comparison of IDs and the search loops over the list of circuits.
use spark_fun_lo_ra_serial.Base.{
  ℕ, zero, suc, ◌+◌, ◌<◌, ◌≡◌, refl, ap₂, Bool, true, false, List, [], ◌∷◌, Option, none, some,
  if◌then◌else◌, get_or, length, arith, ◌==◌, ◌&&◌, ==_iff, inl, inr, ◌⊎◌,
}

-- `memcmp(a, b, n) == 0` for arrays of the same size
unfoldable pub bytes_eq : List ℕ → List ℕ → Bool
bytes_eq [] [] = true
bytes_eq [] (y ∷ ys) = false
bytes_eq (x ∷ xs) [] = false
bytes_eq (x ∷ xs) (y ∷ ys) = x == y && bytes_eq xs ys

both : (a b : Bool) → (a && b) ≡ true → (a ≡ true) × (b ≡ true)
both true b e = (refl, e)
both false b e = cc

pub bytes_eq_sound : (xs ys : List ℕ) → bytes_eq xs ys ≡ true → xs ≡ ys
unfolding bytes_eq
bytes_eq_sound [] [] e = refl
bytes_eq_sound [] (y ∷ ys) e = cc
bytes_eq_sound (x ∷ xs) [] e = cc
bytes_eq_sound (x ∷ xs) (y ∷ ys) e =
    let (same, rest) = both (x == y) (bytes_eq xs ys) e in
    ap₂ ◌∷◌ ((==_iff x y).0 same) (bytes_eq_sound xs ys rest)

pub bytes_eq_refl : (xs : List ℕ) → bytes_eq xs xs ≡ true
unfolding bytes_eq
bytes_eq_refl [] = refl
bytes_eq_refl (x ∷ xs) = rw ((==_iff x x).1 refl) (bytes_eq_refl xs)

not_here :
    (b : Bool) (i : ℕ) (o : Option ℕ) → (if b then some i else o) ≡ none → (b ≡ false) × (o ≡ none)
not_here true i o e = cc
not_here false i o e = (refl, e)

here :
    (b : Bool) (i k : ℕ) (o : Option ℕ)
    → (if b then some i else o) ≡ some k
    → ((b ≡ true) × (i ≡ k)) ⊎ (o ≡ some k)
here true i k o e = inl (refl, cc)
here false i k o e = inr e

module _ {ℓ} {A : Type ℓ} where
  -- The index of the first element that passes the test, counted from i.
  unfoldable pub first : (A → Bool) → List A → ℕ → Option ℕ
  first test [] i = none
  first test (x ∷ xs) i = let rest = first test xs (i + 1) in if test x then some i else rest

  pub first-none :
      (test : A → Bool) (xs : List A) (i j : ℕ) (d : A)
      → first test xs i ≡ none
      → j < length xs
      → test (get_or xs j d) ≡ false
  unfolding first
  first-none test [] i j d e h = absurd (omega arith)
  first-none test (x ∷ xs) i zero d e h = (not_here (test x) i (first test xs (i + 1)) e).0
  first-none test (x ∷ xs) i (suc j) d e h =
      first-none test xs (i + 1) j d (not_here (test x) i (first test xs (i + 1)) e).1 (omega arith)

  pub first-some :
      (test : A → Bool) (xs : List A) (i k : ℕ) (d : A)
      → first test xs i ≡ some k
      → (j : ℕ) × (k ≡ i + j) × (j < length xs) × (test (get_or xs j d) ≡ true)
  unfolding first
  first-some test [] i k d e = cc
  first-some test (x ∷ xs) i k d e = elim (here (test x) i k (first test xs (i + 1)) e) [
    | inl (found, same) ↦ (0, omega arith, omega arith, found)
    | inr rest ↦
        let (j, same, lt, found) = first-some test xs (i + 1) k d rest in
        (suc j, omega arith, omega arith, found)
  ]
