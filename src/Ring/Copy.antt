-- ===== src/Ring/Copy.antt =====
-- The block copies into and out of a circular buffer are the copies byte by byte.
use native.Mathlib.Nat.{mod-eq_of_lt, mod_self}
use spark_fun_lo_ra_serial.Base.{
  ℕ, ◌+◌, ◌-◌, ◌%◌, ◌≤◌, ◌<◌, ◌≡◌, refl, ◌∙◌, ap, ap₂, sym, subst, arith, List, [], ◌∷◌, ◌++◌,
  length, set, take, drop, length-take, length-drop, take-append-drop, u16, ltb, Bool-cases, inl,
  inr,
}
use spark_fun_lo_ra_serial.Ring.{Ring, available, put, blit, write, read}
use spark_fun_lo_ra_serial.Ring.Inv.{IsValid, put-IsValid, round-eq, available-lt}
use spark_fun_lo_ra_serial.Ring.Unread.{unread, unread-add, unread-eq-slice, length-unread}
use spark_fun_lo_ra_serial.Ring.Queue.{
  put_all, put_all-append, put_all-IsValid, contents, contents-put_all, available-put_all,
}

-- Bytes that fit before the end of the array are put as one copy.
put_all_straight :
    (xs : List ℕ) {r : Ring}
    → IsValid r
    → r.head + length xs ≤ r.size
    → put_all r xs ≡ record r { buf = blit r.buf r.head xs; head = (r.head + length xs) % r.size }
unfolding put_all put blit
put_all_straight [] {r} v h =
    ap (λ i. record r { head = i })
      (sym (mod-eq_of_lt {n = r.head} v.head_in) ∙ ap (λ k. k % r.size) (omega arith))
put_all_straight (x ∷ []) {r} v h =
    ap (λ i. record r { buf = set r.buf r.head x; head = i % r.size }) (omega arith)
put_all_straight (x ∷ y ∷ ys) {r} v h =
    put_all_straight (y ∷ ys) (put-IsValid x v) (rw next (omega arith))
    ∙ ap
        (λ i. record r {
          buf = blit (set r.buf r.head x) i (y ∷ ys);
          head = (i + length (y ∷ ys)) % r.size;
        })
        next
    ∙ ap
        (λ i. record r { buf = blit (set r.buf r.head x) (r.head + 1) (y ∷ ys); head = i % r.size })
        (omega arith)
  where
    next : u16 (r.head + 1) % r.size ≡ r.head + 1
    next = ground (arith, round-eq (r.head + 1) r.size)

-- Bytes that reach past the end of the array are put as two copies.
put_all_round :
    (xs ys : List ℕ) {r : Ring}
    → IsValid r
    → r.head + length xs ≡ r.size
    → length ys ≤ r.size
    → put_all r (xs ++ ys)
      ≡ record r { buf = blit (blit r.buf r.head xs) 0 ys; head = (0 + length ys) % r.size }
put_all_round xs ys {r} v h k =
    put_all-append r xs ys
    ∙ ap (λ q. put_all q ys) first
    ∙ put_all_straight ys (subst IsValid first (put_all-IsValid xs v)) (omega arith)
  where
    first : put_all r xs ≡ record r { buf = blit r.buf r.head xs; head = 0 }
    first =
        put_all_straight xs v (omega arith)
        ∙ ap (λ i. record r { buf = blit r.buf r.head xs; head = i })
            (ap (λ k. k % r.size) h ∙ mod_self r.size)

-- The copy into the buffer puts its bytes one after the other.
pub write-eq-put_all :
    {r : Ring} (xs : List ℕ) → IsValid r → length xs ≤ r.size → write r xs ≡ put_all r xs
unfolding write
write-eq-put_all {r} xs v h = elim (Bool-cases (ltb r.size (r.head + length xs))) [
  | inl over ↦ rw over (
      ap
        (λ i. record r {
          buf = blit (blit r.buf r.head (take (r.size - r.head) xs)) 0 (drop (r.size - r.head) xs);
          head = i % r.size;
        })
        (ground (arith, length-drop (r.size - r.head) xs))
      ∙ sym (
          put_all_round (take (r.size - r.head) xs) (drop (r.size - r.head) xs) v
            (ground (arith, length-take (r.size - r.head) xs))
            (ground (arith, length-drop (r.size - r.head) xs)))
      ∙ ap (put_all r) (take-append-drop (r.size - r.head) xs))
  | inr fits ↦ rw fits (
      ap (λ i. record r { buf = blit r.buf r.head xs; head = i % r.size }) (ground arith)
      ∙ sym (put_all_straight xs v (ground arith)))
]

pub write-IsValid : {r : Ring} (xs : List ℕ) → IsValid r → length xs ≤ r.size → IsValid (write r xs)
write-IsValid xs v h = subst IsValid (sym (write-eq-put_all xs v h)) (put_all-IsValid xs v)

pub size-write : (r : Ring) (xs : List ℕ) → (write r xs).size ≡ r.size
unfolding write
size-write r xs = refl

-- A copy that leaves a byte free appends its bytes to the queue.
pub contents-write :
    {r : Ring} (xs : List ℕ)
    → IsValid r
    → available r + length xs < r.size
    → contents (write r xs) ≡ contents r ++ xs
contents-write xs v h = ap contents (write-eq-put_all xs v (omega arith)) ∙ contents-put_all xs v h

pub available-write :
    {r : Ring} (xs : List ℕ)
    → IsValid r
    → available r + length xs < r.size
    → available (write r xs) ≡ available r + length xs
available-write xs v h =
    ap available (write-eq-put_all xs v (omega arith)) ∙ available-put_all xs v h

-- A copy that takes exactly the free bytes leaves the buffer looking empty.
pub available-write_full :
    {r : Ring} (xs : List ℕ)
    → IsValid r
    → 0 < length xs
    → available r + length xs ≡ r.size
    → available (write r xs) ≡ 0
unfolding write available
available-write_full {r} xs v k h = ground (
  arith,
  length-take (r.size - r.head) xs,
  round-eq (r.head + length xs) r.size,
  round-eq (0 + (length xs - (r.size - r.head))) r.size,
  round-eq (r.head + (length xs - 0)) r.size,
)

-- The two pieces of a block copy out of the buffer are its oldest bytes.
read_pieces :
    {r : Ring} (n : ℕ)
    → IsValid r
    → n ≤ available r
    → (read r n).0 ++ (read r n).1 ≡ unread r.size r.buf r.tail n
unfolding read
read_pieces {r} n v h = elim (Bool-cases (ltb r.size (r.tail + n))) [
  | inl over ↦ rw over (
      ap₂ ◌++◌ (sym (unread-eq-slice size buf tail (size - tail) (omega arith) (sym v.sized))) (
        sym (
          unread-eq-slice size buf 0 (n - (size - tail)) (omega (arith, available-lt v))
            (sym v.sized)))
      ∙ ap (λ i. unread size buf tail (size - tail) ++ unread size buf i (n - (size - tail)))
          (sym (ap (λ i. i % size) (omega arith) ∙ mod_self size))
      ∙ sym (unread-add size buf tail (size - tail) (n - (size - tail)) v.tail_in)
      ∙ ap (unread size buf tail) (ground arith))
  | inr fits ↦ rw fits (
      ap (λ k. take k (drop tail buf)) (omega arith)
      ∙ sym (unread-eq-slice size buf tail n (ground arith) (sym v.sized)))
]
  where
    open r use {buf, size, tail}

read_rest :
    {r : Ring} (n : ℕ)
    → IsValid r
    → n ≤ available r
    → ((read r n).2.tail ≡ (r.tail + n) % r.size) × (available (read r n).2 ≡ available r - n)
unfolding read available
read_rest {r} n v h = ground (
  arith,
  round-eq (r.tail + n) r.size,
  round-eq (0 + (n - (r.size - r.tail))) r.size,
  round-eq (r.tail + (n - 0)) r.size,
)

-- What is left in the buffer begins n bytes further on.
pub read-rest :
    {r : Ring} (n : ℕ)
    → IsValid r
    → n ≤ available r
    → (read r n).2 ≡ record r { tail = (r.tail + n) % r.size }
unfolding read
read-rest {r} n v h = ap (λ t. record r { tail = t }) (read_rest n v h).0

pub read-IsValid : {r : Ring} (n : ℕ) → IsValid r → n ≤ available r → IsValid (read r n).2
unfolding read
read-IsValid n v h = record {
  sized = v.sized;
  small = v.small;
  head_in = v.head_in;
  tail_in = omega arith;
}

pub size-read : (r : Ring) (n : ℕ) → (read r n).2.size ≡ r.size
unfolding read
size-read r n = refl

pub buf-read : (r : Ring) (n : ℕ) → (read r n).2.buf ≡ r.buf
unfolding read
buf-read r n = refl

pub available-read :
    {r : Ring} (n : ℕ) → IsValid r → n ≤ available r → available (read r n).2 ≡ available r - n
available-read n v h = (read_rest n v h).1

-- A block copy out of the buffer takes its oldest bytes, and leaves the others waiting.
pub contents-read :
    {r : Ring} (n : ℕ)
    → IsValid r
    → n ≤ available r
    → (contents r ≡ ((read r n).0 ++ (read r n).1) ++ contents (read r n).2)
      × (length ((read r n).0 ++ (read r n).1) ≡ n)
contents-read {r} n v h = (
  ap (unread size buf tail) (omega arith)
      ∙ unread-add size buf tail n (available r - n) v.tail_in
      ∙ ap₂ ◌++◌ (sym (read_pieces n v h)) (
          ap₂ (unread size buf) (sym (read_rest n v h).0) (sym (read_rest n v h).1)
          ∙ ap₂ (λ s b. unread s b (read r n).2.tail (available (read r n).2)) (sym (size-read r n))
              (sym (buf-read r n))),
  ap length (read_pieces n v h) ∙ length-unread size buf tail n,
)
  where
    open r use {buf, size, tail}
