-- ===== src/Ring/Queue.antt =====
-- A circular buffer holds a queue: its waiting bytes, the oldest first.
use native.Mathlib.Numerals.{add-one}
use spark_fun_lo_ra_serial.Base.{
  ℕ, ◌+◌, ◌%◌, ◌<◌, ◌≡◌, refl, ◌∙◌, ap, ap₂, sym, arith, List, [], ◌∷◌, ◌++◌, length, get_or,
  get_or-set_self, append_assoc, append-nil, set,
}
use spark_fun_lo_ra_serial.Ring.{Ring, available, put, get}
use spark_fun_lo_ra_serial.Ring.Inv.{
  IsValid, available-put, put-IsValid, available-get, head-eq, available-lt,
}
use spark_fun_lo_ra_serial.Ring.Unread.{unread, unread-suc, unread-set, length-unread}

abbrev pub contents : Ring → List ℕ
contents r = unread r.size r.buf r.tail (available r)

pub size-put : (r : Ring) (x : ℕ) → (put r x).size ≡ r.size
unfolding put
size-put r x = refl

pub length-contents : (r : Ring) → length (contents r) ≡ available r
length-contents r = length-unread r.size r.buf r.tail (available r)

-- A put into a buffer that keeps one byte free appends the byte.
pub contents-put :
    {r : Ring} (x : ℕ)
    → IsValid r
    → available r + 1 < r.size
    → contents (put r x) ≡ contents r ++ x ∷ []
unfolding put
contents-put {r} x v h =
    rw (available-put x v h, add-one)
      (unread-suc size (set buf head x) tail (available r) v.tail_in
        ∙ ap₂ (λ q b. q ++ b ∷ [])
            (unread-set size buf x tail (available r) (available r) head v.tail_in (omega arith)
              (available-lt v) (head-eq v))
            (ap (λ i. get_or (set buf head x) i 0) (sym (head-eq v))
              ∙ get_or-set_self buf head x 0 (omega arith)))
  where
    open r use {buf, size, head, tail}

-- A get hands out the oldest byte.
pub contents-get :
    {r : Ring} → IsValid r → 0 < available r → contents r ≡ (get r).0 ∷ contents (get r).1
unfolding get
contents-get {r} v h =
    ap (unread size buf tail) (sym (available-get v h) ∙ add-one (available (get r).1))
    ∙ ap (λ t. get_or buf tail 0 ∷ unread size buf (t % size) (available (get r).1)) (omega arith)
  where
    open r use {buf, size, tail}

-- The bytes of a list, put one after the other.
unfoldable pub put_all : Ring → List ℕ → Ring
put_all r [] = r
put_all r (x ∷ xs) = put_all (put r x) xs

pub put_all-append : (r : Ring) (xs ys : List ℕ) → put_all r (xs ++ ys) ≡ put_all (put_all r xs) ys
unfolding put_all
put_all-append r [] ys = refl
put_all-append r (x ∷ xs) ys = put_all-append (put r x) xs ys

pub put_all-IsValid : (xs : List ℕ) {r : Ring} → IsValid r → IsValid (put_all r xs)
unfolding put_all
put_all-IsValid [] v = v
put_all-IsValid (x ∷ xs) v = put_all-IsValid xs (put-IsValid x v)

pub available-put_all :
    (xs : List ℕ) {r : Ring}
    → IsValid r
    → available r + length xs < r.size
    → available (put_all r xs) ≡ available r + length xs
unfolding put_all
available-put_all [] v h = omega arith
available-put_all (x ∷ xs) {r} v h = omega (
  arith,
  available-put_all xs (put-IsValid x v)
      (omega (arith, size-put r x, available-put x v (omega arith))),
  available-put x v (omega arith),
)

pub contents-put_all :
    (xs : List ℕ) {r : Ring}
    → IsValid r
    → available r + length xs < r.size
    → contents (put_all r xs) ≡ contents r ++ xs
unfolding put_all
contents-put_all [] {r} v h = sym (append-nil (contents r))
contents-put_all (x ∷ xs) {r} v h =
    contents-put_all xs (put-IsValid x v)
      (omega (arith, size-put r x, available-put x v (omega arith)))
    ∙ ap (λ q. q ++ xs) (contents-put x v (omega arith))
    ∙ append_assoc (contents r) (x ∷ []) xs

pub contents-eq-nil : (r : Ring) → available r ≡ 0 → contents r ≡ []
contents-eq-nil r e = ap (unread r.size r.buf r.tail) e

pub get-front : (r : Ring) → (get r).0 ≡ get_or r.buf r.tail 0
unfolding get
get-front r = refl
