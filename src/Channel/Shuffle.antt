-- ===== src/Channel/Shuffle.antt =====
-- `shuffle` of Firmware/LoRaSerial/Radio.ino only moves the entries of the table.
use native.Mathlib.Nat.{mod-lt}
use spark_fun_lo_ra_serial.Base.{
  ℕ, zero, suc, ◌+◌, ◌-◌, ◌%◌, ◌≤◌, ◌<◌, ◌≡◌, refl, sym, ap, ◌∙◌, Bool, arith, List, [], ◌∷◌,
  length, get_or, set, length-set, get_or-set_self, get_or-set_ne, ℕ_discrete, if◌then◌else◌,
}
use spark_fun_lo_ra_serial.Channel.{my_rand, swap, shuffle_loop, shuffle}

module _ {ℓ} {A : Type ℓ} (test : A → Bool) where
  pub one : A → ℕ
  one a = if test a then 1 else 0

  -- The number of entries that pass the test.
  pub count : List A → ℕ
  count [] = 0
  count (x ∷ xs) = one x + count xs

  count-set :
      (xs : List A) (i : ℕ) (v d : A)
      → i < length xs
      → count (set xs i v) + one (get_or xs i d) ≡ count xs + one v
  unfolding count
  count-set [] i v d h = absurd (omega arith)
  count-set (x ∷ xs) zero v d h = omega arith
  count-set (x ∷ xs) (suc i) v d h = omega (arith, count-set xs i v d (omega arith))

  count-swap :
      (xs : List A) (i j : ℕ) (d : A)
      → i < length xs
      → j < length xs
      → count (swap xs i j d) ≡ count xs
  unfolding swap
  count-swap xs i j d hi hj = omega (
    arith,
    count-set xs j (get_or xs i d) d hj,
    count-set (set xs j (get_or xs i d)) i (get_or xs j d) d
        (omega (arith, length-set xs j (get_or xs i d))),
    ap one again,
  )
    where
      again : get_or (set xs j (get_or xs i d)) i d ≡ get_or xs i d
      again = elim (ℕ_discrete j i) [
        | yes e ↦
            ap (λ k. get_or (set xs k (get_or xs i d)) i d) e
            ∙ get_or-set_self xs i (get_or xs i d) d hi
        | no ne ↦ get_or-set_ne xs {i = j} {j = i} (get_or xs i d) d ne
      ]

  length-swap : (xs : List A) (i j : ℕ) (d : A) → length (swap xs i j d) ≡ length xs
  unfolding swap
  length-swap xs i j d =
      length-set (set xs j (get_or xs i d)) i (get_or xs j d) ∙ length-set xs j (get_or xs i d)

  shuffle_loop-count :
      (rounds i n seed : ℕ) (d : A) (xs : List A)
      → n ≡ length xs
      → i + rounds ≤ n
      → (count (shuffle_loop rounds i n seed d xs) ≡ count xs)
        × (length (shuffle_loop rounds i n seed d xs) ≡ length xs)
  unfolding shuffle_loop
  shuffle_loop-count zero i n seed d xs e h = (refl, refl)
  shuffle_loop-count (suc rounds) i n seed d xs e h =
      let j = my_rand seed % n in
      let same = length-swap xs i j d in
      let (counts, lengths) =
        shuffle_loop-count rounds (i + 1) n (my_rand seed) d (swap xs i j d) (e ∙ sym same)
          (omega arith) in
      (
        counts
            ∙ count-swap xs i j d (omega arith)
                (omega (arith, mod-lt (my_rand seed) {m = n} (omega arith))),
        lengths ∙ same,
      )

  -- shuffle keeps the length of a table and the number of entries that pass any test, so it loses
  -- no entry and doubles none.
  pub shuffle_keeps :
      (seed : ℕ) (d : A) (xs : List A)
      → (count (shuffle (length xs) seed d xs) ≡ count xs)
        × (length (shuffle (length xs) seed d xs) ≡ length xs)
  unfolding shuffle
  shuffle_keeps seed d xs =
      shuffle_loop-count (length xs - 1) 0 (length xs) seed d xs refl (omega arith)
