-- ===== src/Ring/Inv.antt =====
-- The representation invariant of a circular buffer, and what each operation does to the number of
-- waiting bytes.
use native.Mathlib.Nat.{mod-eq_of_lt, mod-eq-sub-mod}
use spark_fun_lo_ra_serial.Base.{
  ℕ, ◌+◌, ◌-◌, ◌%◌, ◌≤◌, ◌<◌, ◌≡◌, refl, arith, dec_lt, length, length-set, ltb, if◌then◌else◌,
}
use spark_fun_lo_ra_serial.Ring.{Ring, available, put, get}

-- Every buffer of the firmware holds at most 4096 bytes, so 16-bit indices do not wrap.
pub record IsValid (r : Ring) : Type 0 where
  pub sized : length r.buf ≡ r.size
  pub small : r.size ≤ 4096
  pub head_in : r.head < r.size
  pub tail_in : r.tail < r.size

-- One round at most: the remainder of a number below twice the size.
pub round-eq : (n size : ℕ) → n < size + size → n % size ≡ (if ltb n size then n else n - size)
round-eq n size h = elim (dec_lt n size) [
  | yes p ↦ ground (arith, mod-eq_of_lt {n = n} {m = size} p)
  | no p ↦ ground (
    arith,
    mod-eq-sub-mod {n = n} {m = size} (omega arith),
    mod-eq_of_lt {n = n - size} {m = size} (omega arith),
  )
]

pub available-lt : {r : Ring} → IsValid r → available r < r.size
unfolding available
available-lt v = ground arith

pub available-put :
    {r : Ring} (x : ℕ)
    → IsValid r
    → available r + 1 < r.size
    → available (put r x) ≡ available r + 1
unfolding available put
available-put {r} x v h = ground (arith, round-eq (r.head + 1) r.size)

-- The put that would use the last free byte leaves the buffer looking empty.
pub available-put_last :
    {r : Ring} (x : ℕ) → IsValid r → available r + 1 ≡ r.size → available (put r x) ≡ 0
unfolding available put
available-put_last {r} x v h = ground (arith, round-eq (r.head + 1) r.size)

pub put-IsValid : {r : Ring} (x : ℕ) → IsValid r → IsValid (put r x)
unfolding put
put-IsValid {r} x v = ground (arith, round-eq (r.head + 1) r.size, length-set r.buf r.head x)

pub available-get : {r : Ring} → IsValid r → 0 < available r → available (get r).1 + 1 ≡ available r
unfolding available get
available-get {r} v h = ground (arith, round-eq (r.tail + 1) r.size)

pub get-IsValid : {r : Ring} → IsValid r → IsValid (get r).1
unfolding get
get-IsValid {r} v = ground (arith, round-eq (r.tail + 1) r.size)

-- The head stands behind the waiting bytes.
pub head-eq : {r : Ring} → IsValid r → r.head ≡ (r.tail + available r) % r.size
unfolding available
head-eq {r} v = ground (
  arith,
  round-eq (r.tail + (r.head - r.tail)) r.size,
  round-eq (r.tail + (r.size - r.tail + r.head)) r.size,
)

pub size-get : (r : Ring) → (get r).1.size ≡ r.size
unfolding get
size-get r = refl
