-- ===== src/Channel/Random.antt =====
-- `myRand` of Firmware/LoRaSerial/Radio.ino is a permutation of the 16-bit seeds.
use Prim.Native.Nat.{bit_and, bit_xor}
use spark_fun_lo_ra_serial.Base.{
  ℕ, zero, suc, ◌+◌, ◌*◌, ◌/◌, ◌%◌, ◌<◌, ◌≢◌, sym, ap, ◌∙◌, ◌≡◌, refl, Bool, true, false,
  ℕ_discrete, arith, ltb, ◌==◌, ◌&&◌,
}
use spark_fun_lo_ra_serial.Channel.{my_rand}

-- The seed before: bit 0 is what bits 15 of the new seed, and 2, 3 and 5 of the old one leave.
pub prev_seed : ℕ → ℕ
prev_seed seed =
    let high = seed % 32768 * 2 in
    high + bit_xor (seed / 32768) (bit_and (bit_xor (bit_xor (high / 4) (high / 8)) (high / 32)) 1)

-- What holds of one seed, and of all seeds below a bound.
seed_ok : ℕ → Bool
seed_ok s = (prev_seed (my_rand s) == s) && ltb (my_rand s) 65536

seeds_ok : ℕ → Bool
unfolding seed_ok
seeds_ok zero = true
seeds_ok (suc s) = seed_ok s && seeds_ok s

and-left : (a b : Bool) → (a && b) ≡ true → a ≡ true
and-left true b e = refl
and-left false b e = cc

and-right : (a b : Bool) → (a && b) ≡ true → b ≡ true
and-right true b e = e
and-right false b e = cc

seeds_ok-at : (bound s : ℕ) → s < bound → seeds_ok bound ≡ true → seed_ok s ≡ true
unfolding seeds_ok
seeds_ok-at zero s h e = absurd (omega arith)
seeds_ok-at (suc bound) s h e = elim (ℕ_discrete s bound) [
  | yes same ↦ ap seed_ok same ∙ and-left (seed_ok bound) _ e
  | no other ↦ seeds_ok-at bound s (omega arith) (and-right (seed_ok bound) _ e)
]

-- Every 16-bit seed is tried.
seeds : seeds_ok 65536 ≡ true
unfolding seeds_ok seed_ok prev_seed my_rand
seeds = refl

-- myRand keeps a 16-bit seed a 16-bit number, and the seed before can be recovered from it.
pub my_rand_reversible : (s : ℕ) → s < 65536 → (my_rand s < 65536) × (prev_seed (my_rand s) ≡ s)
unfolding seed_ok
my_rand_reversible s h = both (prev_seed (my_rand s)) (my_rand s) (seeds_ok-at 65536 s h seeds)
  where
    both : (p q : ℕ) → ((p == s) && ltb q 65536) ≡ true → (q < 65536) × (p ≡ s)
    both p q e = (ground arith, ground arith)

zero_prev : prev_seed 0 ≡ 0
unfolding prev_seed
zero_prev = refl

-- A 16-bit seed other than 0 never becomes 0, where the generator would stay.
pub my_rand_ne_zero : (s : ℕ) → s < 65536 → s ≢ 0 → my_rand s ≢ 0
my_rand_ne_zero s h nz e = nz (sym (my_rand_reversible s h).1 ∙ ap prev_seed e ∙ zero_prev)
