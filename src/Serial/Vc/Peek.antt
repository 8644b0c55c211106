-- ===== src/Serial/Vc/Peek.antt =====
-- Looking ahead in a buffer, and skipping bytes of it.
use spark_fun_lo_ra_serial.Base.{
  ℕ, ◌+◌, ◌≤◌, ◌<◌, ◌≡◌, refl, sym, ap, ap₂, ◌∙◌, List, [], ◌∷◌, ◌++◌, arith, length, drop, get_or,
  append_assoc, subst, drop-append, length-append, append-nil,
}
use spark_fun_lo_ra_serial.Ring.{Ring, available, read}
use spark_fun_lo_ra_serial.Ring.Inv.{IsValid, put-IsValid, available-put}
use spark_fun_lo_ra_serial.Ring.Queue.{
  contents, contents-put, contents-get, size-put, length-contents, get-front,
}
use spark_fun_lo_ra_serial.Ring.Copy.{contents-read, read-IsValid, read-rest}
use spark_fun_lo_ra_serial.Serial.Vc.{peek, skip, move_bytes}

-- A skip is a block read whose bytes are not used.
skip-eq-read : {r : Ring} (n : ℕ) → IsValid r → n ≤ available r → skip n r ≡ (read r n).2
unfolding skip
skip-eq-read n v h = sym (read-rest n v h)

pub skip-IsValid : {r : Ring} (n : ℕ) → IsValid r → n ≤ available r → IsValid (skip n r)
skip-IsValid n v h = subst IsValid (sym (skip-eq-read n v h)) (read-IsValid n v h)

same-rest : (ps qs xs ys : List ℕ) → length ps ≡ length xs → ps ++ qs ≡ xs ++ ys → qs ≡ ys
same-rest ps qs xs ys l e = sym (drop-append ps qs) ∙ ap₂ drop l e ∙ drop-append xs ys

pub enough :
    (r : Ring) (xs ys : List ℕ) → contents r ≡ xs ++ ys → available r ≡ length xs + length ys
enough r xs ys e = sym (length-contents r) ∙ ap length e ∙ length-append xs ys

-- Bytes that stand in front are skipped.
pub contents-skip :
    {r : Ring} (xs ys : List ℕ)
    → IsValid r
    → contents r ≡ xs ++ ys
    → contents (skip (length xs) r) ≡ ys
contents-skip {r} xs ys v e =
    let h : length xs ≤ available r = omega (arith, enough r xs ys e) in
    let (parts, size) = contents-read (length xs) v h in
    ap contents (skip-eq-read (length xs) v h)
    ∙ same-rest ((read r (length xs)).0 ++ (read r (length xs)).1) (contents (read r (length xs)).2)
        xs ys size (sym parts ∙ e)

-- The bytes ahead are those of the queue.
pub peek-contents :
    {r : Ring} (xs ys : List ℕ) (b : ℕ)
    → IsValid r
    → contents r ≡ xs ++ b ∷ ys
    → peek r (length xs) ≡ b
unfolding skip
peek-contents {r} xs ys b v e =
    sym (get-front (skip (length xs) r))
    ∙ ap (λ l. get_or l 0 0)
        (sym (
            contents-get (skip-IsValid (length xs) v (omega (arith, enough r xs (b ∷ ys) e)))
              (omega (arith, enough (skip (length xs) r) (b ∷ []) ys rest)))
          ∙ rest)
  where
    rest : contents (skip (length xs) r) ≡ b ∷ ys
    rest = contents-skip xs (b ∷ ys) v e

-- Moving the bytes in front appends them to the other buffer, if it has room.
pub move_bytes_lem :
    (xs ys : List ℕ) {rx tx : Ring}
    → IsValid rx
    → IsValid tx
    → contents rx ≡ xs ++ ys
    → available tx + length xs < tx.size
    → let (rx', tx') = move_bytes (length xs) rx tx in
      (contents rx' ≡ ys)
      × (contents tx' ≡ contents tx ++ xs)
      × IsValid rx'
      × IsValid tx'
      × (tx'.size ≡ tx.size)
unfolding move_bytes
move_bytes_lem [] ys {rx} {tx} v w e room = (e, sym (append-nil (contents tx)), v, w, refl)
move_bytes_lem (x ∷ xs) ys {rx} {tx} v w e room =
    let (left, moved, v', w', size) =
      move_bytes_lem xs ys (skip-IsValid 1 v (omega (arith, enough rx (x ∷ xs) ys e)))
        (put-IsValid (peek rx 0) w) (contents-skip (x ∷ []) (xs ++ ys) v e)
        (omega (arith, size-put tx (peek rx 0), available-put (peek rx 0) w (omega arith))) in
    (
      left,
      moved
          ∙ ap (λ q. q ++ xs) (contents-put (peek rx 0) w (omega arith))
          ∙ append_assoc (contents tx) (peek rx 0 ∷ []) xs
          ∙ ap (λ b. contents tx ++ b ∷ xs) (peek-contents [] (xs ++ ys) x v e),
      v',
      w',
      size ∙ size-put tx (peek rx 0),
    )
