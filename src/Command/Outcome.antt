-- ===== src/Command/Outcome.antt =====
-- The whole of `trimCommand` of Firmware/LoRaSerial/Commands.ino.
use spark_fun_lo_ra_serial.Base.{
  ℕ, zero, suc, ◌+◌, ◌<◌, ◌≡◌, refl, sym, ap, ap₂, ◌∙◌, true, false, List, [], ◌∷◌, ◌++◌, some, ltb,
  arith, length,
}
use spark_fun_lo_ra_serial.Command.{remove_comment, remove_spaces_at, remove_spaces, trim_command}
use spark_fun_lo_ra_serial.Command.Trim.{
  before_comment, unspaced, unspaced_more, length-snoc, line, line-snoc, Starts, Skipped,
  remove_comment-Cut, remove_spaces_at-Skipped,
}

-- The second loop leaves the characters that are not white space.
abbrev Spaced : ℕ → List ℕ → List ℕ → List ℕ → Type 0
unfolding remove_spaces
Spaced rounds pre text t =
    (t2 : List ℕ) × (remove_spaces rounds (length pre) (line pre text t).0 (line pre text t).1
      ≡ some (line pre (unspaced text) t2))

Spaced-nil : (rounds : ℕ) (pre t : List ℕ) → Spaced (suc rounds) pre [] t
unfolding remove_spaces
Spaced-nil rounds pre t = (t, rw (done, remove_spaces) refl)
  where
    done : ltb (length pre) (length pre + 0) ≡ false
    done = ground arith

-- Nothing but white space was left.
Spaced-blank :
    (rounds : ℕ) (pre : List ℕ) (c : ℕ) (cs t t2 : List ℕ)
    → remove_spaces_at (suc rounds) (length pre) (line pre (c ∷ cs) t).0 (line pre (c ∷ cs) t).1
      ≡ some (line pre [] t2)
    → unspaced [] ≡ unspaced (c ∷ cs)
    → Spaced (suc (suc rounds)) pre (c ∷ cs) t
unfolding remove_spaces
Spaced-blank rounds pre c cs t t2 p same =
    (t2, rw (more, p, done, remove_spaces) (ap (λ u. some (line pre u t2)) same))
  where
    more : ltb (length pre) (length pre + length (c ∷ cs)) ≡ true
    more = ground arith

    done : ltb (length pre + 1) (length pre + 0) ≡ false
    done = ground arith

-- A character stays, and the loop goes on behind it.
Spaced-kept :
    (rounds : ℕ) (pre : List ℕ) (c : ℕ) (cs t : List ℕ) (d : ℕ) (ds t2 : List ℕ)
    → remove_spaces_at rounds (length pre) (line pre (c ∷ cs) t).0 (line pre (c ∷ cs) t).1
      ≡ some (line pre (d ∷ ds) t2)
    → unspaced (d ∷ ds) ≡ unspaced (c ∷ cs)
    → Starts (d ∷ ds)
    → Spaced rounds (pre ++ d ∷ []) ds t2
    → Spaced (suc rounds) pre (c ∷ cs) t
unfolding remove_spaces
Spaced-kept rounds pre c cs t d ds t2 p same start (t3, q) = (
  t3,
  rw (more, p, remove_spaces)
      (ap₂ (λ i l. remove_spaces rounds i l.0 l.1) next (sym (line-snoc pre d ds t2))
        ∙ q
        ∙ ap some (line-snoc pre d (unspaced ds) t3)
        ∙ ap (λ u. some (line pre u t3)) (sym (unspaced_more d ds start) ∙ same)),
)
  where
    more : ltb (length pre) (length pre + length (c ∷ cs)) ≡ true
    more = ground arith

    next : length pre + 1 ≡ length (pre ++ d ∷ [])
    next = omega (arith, length-snoc pre d)

Spaced-Skipped :
    (rounds : ℕ) (pre : List ℕ) (c : ℕ) (cs t : List ℕ)
    → ((d : ℕ) (ds t2 : List ℕ)
        → length ds < suc (length cs)
        → Spaced (suc rounds) (pre ++ d ∷ []) ds t2)
    → Skipped (suc rounds) pre (c ∷ cs) t
    → Spaced (suc (suc rounds)) pre (c ∷ cs) t
unfolding remove_spaces
Spaced-Skipped rounds pre c cs t ih ([], t2, p, same, short, start) =
    Spaced-blank rounds pre c cs t t2 p same
Spaced-Skipped rounds pre c cs t ih (d ∷ ds, t2, p, same, short, start) =
    Spaced-kept (suc rounds) pre c cs t d ds t2 p same start (ih d ds t2 (omega (arith, short)))

remove_spaces-Spaced :
    (rounds : ℕ) (pre text t : List ℕ) → length text + 1 < rounds → Spaced rounds pre text t
unfolding remove_spaces
remove_spaces-Spaced zero pre text t h = absurd (omega arith)
remove_spaces-Spaced (suc zero) pre text t h = absurd (omega arith)
remove_spaces-Spaced (suc (suc rounds)) pre [] t h = Spaced-nil (suc rounds) pre t
remove_spaces-Spaced (suc (suc rounds)) pre (c ∷ cs) t h =
    Spaced-Skipped rounds pre c cs t
      (λ d ds t2 k. remove_spaces-Spaced (suc rounds) (pre ++ d ∷ []) ds t2 (omega arith))
      (remove_spaces_at-Skipped (suc rounds) pre (c ∷ cs) t (omega arith))

-- For a line that a zero ends, trimCommand ends and leaves exactly the characters that are before
-- the first # and not white space, in order, again ended by a zero, with their number as the
-- length.
pub trim_command_lem :
    (text t : List ℕ)
    → (t2 : List ℕ) × (trim_command (text ++ 0 ∷ t) (length text)
        ≡ some (unspaced (before_comment text) ++ 0 ∷ t2, length (unspaced (before_comment text))))
unfolding trim_command
trim_command_lem text t =
    let (t1, p) = remove_comment-Cut [] text t in
    let (t2, q) = remove_spaces-Spaced (0 + length kept + 2) [] kept t1 (omega arith) in
    (
      t2,
      ap (λ l. remove_spaces (l.1 + 2) 0 l.0 l.1)
            (ap (λ n. remove_comment (length text) 0 (text ++ 0 ∷ t) n) (sym (nothing_before text))
              ∙ p)
          ∙ q
          ∙ ap (λ n. some (unspaced kept ++ 0 ∷ t2, n)) (nothing_before (unspaced kept)),
    )
  where
    kept : List ℕ
    kept = before_comment text

    nothing_before : (xs : List ℕ) → 0 + length xs ≡ length xs
    nothing_before xs = omega arith
