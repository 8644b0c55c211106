-- ===== src/Link/Session/Picks.antt =====
-- A list that takes one element of each of a list of lists, in order.
use mathlib.Core.List.{Memᴰ}
use spark_fun_lo_ra_serial.Base.{List, [], ◌∷◌, ◌++◌}

module _ {A : Type 0} where
  abbrev pub Picks : List A → List (List A) → Type 0
  Picks [] [] = Unit {0}
  Picks [] (r ∷ rs) = ⊥
  Picks (x ∷ xs) [] = ⊥
  Picks (x ∷ xs) (r ∷ rs) = Memᴰ x r × Picks xs rs

  pub Picks-snoc :
      (xs : List A) (rs : List (List A)) (x : A) (r : List A)
      → Picks xs rs
      → Memᴰ x r
      → Picks (xs ++ x ∷ []) (rs ++ r ∷ [])
  Picks-snoc [] [] x r p m = (m, tt)
  Picks-snoc [] (q ∷ rs) x r p m = absurd p
  Picks-snoc (y ∷ xs) [] x r p m = absurd p
  Picks-snoc (y ∷ xs) (q ∷ rs) x r p m = (p.0, Picks-snoc xs rs x r p.1 m)

  -- More candidates in the last place.
  pub Picks-more :
      (xs : List A) (rs : List (List A)) (x : A) (r : List A)
      → Picks xs (rs ++ r ∷ [])
      → Picks xs (rs ++ (x ∷ r) ∷ [])
  Picks-more [] [] x r p = absurd p
  Picks-more [] (q ∷ rs) x r p = absurd p
  Picks-more (y ∷ []) [] x r p = (Memᴰ.tail p.0, tt)
  Picks-more (y ∷ z ∷ xs) [] x r p = absurd p.1
  Picks-more (y ∷ xs) (q ∷ rs) x r p = (p.0, Picks-more xs rs x r p.1)
