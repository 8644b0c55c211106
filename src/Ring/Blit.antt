-- ===== src/Ring/Blit.antt =====
-- What a block copy leaves in its target.
use spark_fun_lo_ra_serial.Base.{
  ℕ, ◌+◌, ◌≤◌, ◌<◌, ◌≡◌, refl, ap, ap₂, ◌∙◌, List, [], ◌∷◌, ◌++◌, arith, length, get_or, set,
  length-set, get_or-set_self, get_or-set_ne, take-drop-suc,
}
use spark_fun_lo_ra_serial.Ring.{blit, slice}

pub length-blit : (xs buf : List ℕ) (i : ℕ) → length (blit buf i xs) ≡ length buf
unfolding blit
length-blit [] buf i = refl
length-blit (x ∷ xs) buf i = length-blit xs (set buf i x) (i + 1) ∙ length-set buf i x

-- A copy leaves alone what stands before it.
pub get_or-blit_before :
    (xs buf : List ℕ) (i j d : ℕ) → j < i → get_or (blit buf i xs) j d ≡ get_or buf j d
unfolding blit
get_or-blit_before [] buf i j d h = refl
get_or-blit_before (x ∷ xs) buf i j d h =
    get_or-blit_before xs (set buf i x) (i + 1) j d (omega arith)
    ∙ get_or-set_ne buf {i = i} {j = j} x d (omega arith)

-- Two copies, one behind the other, are one.
pub blit-append :
    (xs ys buf : List ℕ) (i : ℕ) → blit buf i (xs ++ ys) ≡ blit (blit buf i xs) (i + length xs) ys
unfolding blit
blit-append [] ys buf i = ap (λ k. blit buf k ys) (omega arith)
blit-append (x ∷ xs) ys buf i =
    blit-append xs ys (set buf i x) (i + 1)
    ∙ ap (λ k. blit (blit (set buf i x) (i + 1) xs) k ys) (omega arith)

-- A copy that fits is found where it was written.
pub slice-blit :
    (xs buf : List ℕ) (i : ℕ)
    → i + length xs ≤ length buf
    → slice (blit buf i xs) i (length xs) ≡ xs
unfolding blit
slice-blit [] buf i h = refl
slice-blit (x ∷ xs) buf i h =
    take-drop-suc (blit (set buf i x) (i + 1) xs) i (length xs) 0
      (omega (arith, length-blit xs (set buf i x) (i + 1), length-set buf i x))
    ∙ ap₂ ◌∷◌
        (get_or-blit_before xs (set buf i x) (i + 1) i 0 (omega arith)
          ∙ get_or-set_self buf i x 0 (omega arith))
        (slice-blit xs (set buf i x) (i + 1) (omega (arith, length-set buf i x)))
