-- ===== src/Ring/Unread.antt =====
-- The bytes that stand in an array from an index on, going round at its end.
use native.Mathlib.Nat.{mod-add-mod, mod-eq_of_lt, mod-eq-sub-mod, add-zero, zero-add, suc-add}
use spark_fun_lo_ra_serial.Base.{
  ℕ, zero, suc, ◌+◌, ◌-◌, ◌%◌, ◌≤◌, ◌<◌, ◌≡◌, refl, ap, ap₂, ◌∙◌, ◌≢◌, List, [], ◌∷◌, ◌++◌, arith,
  dec_lt, length, get_or, set, get_or-set_ne, take, drop, take-drop-suc, sym,
}

module _ (size : ℕ) where
  abbrev pub unread : List ℕ → ℕ → ℕ → List ℕ
  unread buf t zero = []
  unread buf t (suc n) = get_or buf t 0 ∷ unread buf ((t + 1) % size) n

  pub length-unread : (buf : List ℕ) (t n : ℕ) → length (unread buf t n) ≡ n
  length-unread buf t zero = refl
  length-unread buf t (suc n) = ap suc (length-unread buf ((t + 1) % size) n)

  pub step_round : (t n : ℕ) → ((t + 1) % size + n) % size ≡ (t + suc n) % size
  step_round t n = mod-add-mod _ size n ∙ ap (λ k. k % size) (omega arith)

  -- The last byte of a longer stretch.
  pub unread-suc :
      (buf : List ℕ) (t n : ℕ)
      → t < size
      → unread buf t (suc n) ≡ unread buf t n ++ get_or buf ((t + n) % size) 0 ∷ []
  unread-suc buf t zero h = rw (add-zero, mod-eq_of_lt h)
  unread-suc buf t (suc n) h =
      ap (λ r. get_or buf t 0 ∷ r)
        (unread-suc buf ((t + 1) % size) n (omega arith)
          ∙ ap (λ i. unread buf ((t + 1) % size) n ++ get_or buf i 0 ∷ []) (step_round t n))

  pub round-ne : {t k : ℕ} → t < size → 0 < k → k < size → (t + k) % size ≢ t
  round-ne {t} {k} ht hk lt = elim (dec_lt (t + k) size) [
    | yes p ↦ omega (arith, mod-eq_of_lt p)
    | no p ↦ omega (
      arith,
      mod-eq-sub-mod {n = t + k} {m = size} (omega arith),
      mod-eq_of_lt {n = t + k - size} {m = size} (omega arith),
    )
  ]

  -- A write behind the stretch leaves its bytes alone.
  pub unread-set :
      (buf : List ℕ) (x t n k i : ℕ)
      → t < size
      → n ≤ k
      → k < size
      → i ≡ (t + k) % size
      → unread (set buf i x) t n ≡ unread buf t n
  unread-set buf x t zero k i ht hn hk e = refl
  unread-set buf x t (suc n) zero i ht hn hk e = absurd (omega arith)
  unread-set buf x t (suc n) (suc k) i ht hn hk e =
      ap₂ ◌∷◌ (get_or-set_ne buf x 0 (rw e (round-ne ht (omega arith) hk))) (
        unread-set buf x ((t + 1) % size) n k i (omega arith) (omega arith) (omega arith)
          (rw step_round e))

  -- A stretch of m + n bytes is one of m bytes, then one of n.
  pub unread-add :
      (buf : List ℕ) (t m n : ℕ)
      → t < size
      → unread buf t (m + n) ≡ unread buf t m ++ unread buf ((t + m) % size) n
  unread-add buf t zero n h = rw (add-zero, mod-eq_of_lt h, zero-add)
  unread-add buf t (suc m) n h = rw suc-add (
      ap (λ r. get_or buf t 0 ∷ r)
        (unread-add buf ((t + 1) % size) m n (omega arith)
          ∙ ap (λ i. unread buf ((t + 1) % size) m ++ unread buf i n) (step_round t m)))

  -- Where the stretch does not go round it is a slice.
  pub unread-eq-slice :
      (buf : List ℕ) (t n : ℕ)
      → t + n ≤ size
      → size ≡ length buf
      → unread buf t n ≡ take n (drop t buf)
  unread-eq-slice buf t zero h e = refl
  unread-eq-slice buf t (suc zero) h e = sym (take-drop-suc buf t 0 0 (omega arith))
  unread-eq-slice buf t (suc (suc n)) h e =
      ap (λ r. get_or buf t 0 ∷ r)
        (ap (λ i. unread buf i (suc n)) (mod-eq_of_lt {n = t + 1} {m = size} (omega arith))
          ∙ unread-eq-slice buf (t + 1) (suc n) (omega arith) e)
      ∙ sym (take-drop-suc buf t (suc n) 0 (omega arith))
