-- ===== src/Command/Trim.antt =====
-- What `trimCommand` of Firmware/LoRaSerial/Commands.ino leaves of a line.
use spark_fun_lo_ra_serial.Base.{
  ℕ, zero, suc, ◌+◌, ◌-◌, ◌≤◌, ◌<◌, ◌≡◌, refl, sym, ap, ap₂, ◌∙◌, inl, inr, true, false, List, [],
  ◌∷◌, ◌++◌, some, ◌==◌, arith, length, get_or, set, append_assoc, length-append, Bool-cases,
}
use spark_fun_lo_ra_serial.Command.{
  is_space, remove_comment, move_left, remove_char, remove_spaces_at,
}

-- The characters before the first `#`
abbrev pub before_comment : List ℕ → List ℕ
before_comment [] = []
before_comment (c ∷ cs) = elim (c == 35) [ true ↦ [] | false ↦ c ∷ before_comment cs ]

-- The characters that are not white space
abbrev pub unspaced : List ℕ → List ℕ
unspaced [] = []
unspaced (c ∷ cs) = elim (is_space c) [ true ↦ unspaced cs | false ↦ c ∷ unspaced cs ]

get_or-append : (pre : List ℕ) (x : ℕ) (xs : List ℕ) → get_or (pre ++ x ∷ xs) (length pre) 0 ≡ x
get_or-append [] x xs = refl
get_or-append (_ ∷ pre) x xs = get_or-append pre x xs

get_or-append_suc :
    (pre : List ℕ) (x y : ℕ) (ys : List ℕ) → get_or (pre ++ x ∷ y ∷ ys) (suc (length pre)) 0 ≡ y
get_or-append_suc [] x y ys = refl
get_or-append_suc (_ ∷ pre) x y ys = get_or-append_suc pre x y ys

set-append :
    (pre : List ℕ) (x v : ℕ) (xs : List ℕ) → set (pre ++ x ∷ xs) (length pre) v ≡ pre ++ v ∷ xs
set-append [] x v xs = refl
set-append (p ∷ pre) x v xs = ap (λ r. p ∷ r) (set-append pre x v xs)

pub length-snoc : (pre : List ℕ) (x : ℕ) → length (pre ++ x ∷ []) ≡ suc (length pre)
length-snoc pre x = omega (arith, length-append pre (x ∷ []))

move_left_lem :
    (pre : List ℕ) (x : ℕ) (rest t : List ℕ)
    → set
        (move_left (length rest) (length pre + 1) (pre ++ (x ∷ rest ++ t)))
        (length pre + length rest)
        0
      ≡ pre ++ (rest ++ 0 ∷ t)
unfolding move_left
move_left_lem pre x [] t = ap (λ i. set (pre ++ x ∷ t) i 0) end ∙ set-append pre x 0 t
  where
    end : length pre + 0 ≡ length pre
    end = omega arith
move_left_lem pre x (r ∷ rest) t =
    ap₂ (λ j b. set (move_left (length rest) (j + 1) b) (length pre + suc (length rest)) 0) next
      moved
    ∙ ap
        (λ i.
          set
            (move_left (length rest) (length (pre ++ r ∷ []) + 1)
              ((pre ++ r ∷ []) ++ (r ∷ rest ++ t)))
            i 0)
        end
    ∙ move_left_lem (pre ++ r ∷ []) r rest t
    ∙ append_assoc pre (r ∷ []) (rest ++ 0 ∷ t)
  where
    next : length pre + 1 ≡ length (pre ++ r ∷ [])
    next = omega (arith, length-snoc pre r)

    end : length pre + suc (length rest) ≡ length (pre ++ r ∷ []) + length rest
    end = omega (arith, length-snoc pre r)

    here : length pre + 1 - 1 ≡ length pre
    here = omega arith

    behind : length pre + 1 ≡ suc (length pre)
    behind = omega arith

    moved :
        set
          (pre ++ (x ∷ r ∷ rest ++ t))
          (length pre + 1 - 1)
          (get_or (pre ++ (x ∷ r ∷ rest ++ t)) (length pre + 1) 0)
        ≡ (pre ++ r ∷ []) ++ (r ∷ rest ++ t)
    moved =
        ap₂ (λ i j. set (pre ++ (x ∷ r ∷ rest ++ t)) i (get_or (pre ++ (x ∷ r ∷ rest ++ t)) j 0))
          here behind
        ∙ ap (λ v. set (pre ++ (x ∷ r ∷ rest ++ t)) (length pre) v)
            (get_or-append_suc pre x r (rest ++ t))
        ∙ set-append pre x r (r ∷ rest ++ t)
        ∙ sym (append_assoc pre (r ∷ []) (r ∷ rest ++ t))

remove_char_lem :
    (pre : List ℕ) (x : ℕ) (rest t : List ℕ)
    → remove_char (length pre) (pre ++ (x ∷ rest ++ t)) (length pre + length (x ∷ rest))
      ≡ pre ++ (rest ++ 0 ∷ t)
unfolding remove_char
remove_char_lem pre x rest t =
    ap₂ (λ k i. set (move_left k (length pre + 1) (pre ++ (x ∷ rest ++ t))) i 0) left end
    ∙ move_left_lem pre x rest t
  where
    left : length pre + length (x ∷ rest) - (length pre + 1) ≡ length rest
    left = omega arith

    end : length pre + length (x ∷ rest) - 1 ≡ length pre + length rest
    end = omega arith

comment_begins : (c : ℕ) (cs : List ℕ) → (c == 35) ≡ true → before_comment (c ∷ cs) ≡ []
comment_begins c cs e = rw (before_comment, e) refl

before_more :
    (c : ℕ) (cs : List ℕ) → (c == 35) ≡ false → before_comment (c ∷ cs) ≡ c ∷ before_comment cs
before_more c cs e = rw (before_comment, e) refl

unspaced_space : (c : ℕ) (cs : List ℕ) → is_space c ≡ true → unspaced (c ∷ cs) ≡ unspaced cs
unspaced_space c cs e = rw (unspaced, e) refl

pub unspaced_more : (c : ℕ) (cs : List ℕ) → is_space c ≡ false → unspaced (c ∷ cs) ≡ c ∷ unspaced cs
unspaced_more c cs e = rw (unspaced, e) refl

-- A line in the buffer, behind a part that is done: the array, and the length.
abbrev pub line : List ℕ → List ℕ → List ℕ → List ℕ × ℕ
line pre text t = (pre ++ (text ++ 0 ∷ t), length pre + length text)

pub line-snoc :
    (pre : List ℕ) (c : ℕ) (text t : List ℕ) → line (pre ++ c ∷ []) text t ≡ line pre (c ∷ text) t
line-snoc pre c text t =
    ap₂ (λ b n. (b, n)) (append_assoc pre (c ∷ []) (text ++ 0 ∷ t))
      (omega (arith, length-snoc pre c))

-- The first loop leaves the characters before a comment.
abbrev pub Cut : List ℕ → List ℕ → List ℕ → Type 0
unfolding remove_comment
Cut pre text t =
    (t2 : List ℕ) × (remove_comment (length text) (length pre) (line pre text t).0
        (line pre text t).1
      ≡ line pre (before_comment text) t2)

Cut-hash : (pre : List ℕ) (c : ℕ) (cs t : List ℕ) → (c == 35) ≡ true → Cut pre (c ∷ cs) t
unfolding remove_comment
Cut-hash pre c cs t e = (
  cs ++ 0 ∷ t,
  rw (get_or-append pre c (cs ++ 0 ∷ t), e, remove_comment)
      (ap₂ (λ b n. (b, n)) (set-append pre c 0 (cs ++ 0 ∷ t)) (omega arith)
        ∙ ap (λ b. line pre b (cs ++ 0 ∷ t)) (sym (comment_begins c cs e))),
)

Cut-more :
    (pre : List ℕ) (c : ℕ) (cs t : List ℕ)
    → (c == 35) ≡ false
    → Cut (pre ++ c ∷ []) cs t
    → Cut pre (c ∷ cs) t
unfolding remove_comment
Cut-more pre c cs t e (t2, p) = (
  t2,
  rw (get_or-append pre c (cs ++ 0 ∷ t), e, remove_comment)
      (ap₂ (λ i l. remove_comment (length cs) i l.0 l.1) next (sym (line-snoc pre c cs t))
        ∙ p
        ∙ line-snoc pre c (before_comment cs) t2
        ∙ ap (λ b. line pre b t2) (sym (before_more c cs e))),
)
  where
    next : length pre + 1 ≡ length (pre ++ c ∷ [])
    next = omega (arith, length-snoc pre c)

pub remove_comment-Cut : (pre text t : List ℕ) → Cut pre text t
unfolding remove_comment
remove_comment-Cut pre [] t = (t, refl)
remove_comment-Cut pre (c ∷ cs) t = elim (Bool-cases (c == 35)) [
  | inl e ↦ Cut-hash pre c cs t e
  | inr e ↦ Cut-more pre c cs t e (remove_comment-Cut (pre ++ c ∷ []) cs t)
]

-- A line that does not start with white space
abbrev pub Starts : List ℕ → Type 0
Starts [] = Unit {0}
Starts (c ∷ cs) = is_space c ≡ false

-- The inner loop leaves the line without the white space it starts with.
abbrev pub Skipped : ℕ → List ℕ → List ℕ → List ℕ → Type 0
unfolding remove_spaces_at
Skipped rounds pre text t =
    (left t2 : List ℕ) × (remove_spaces_at rounds (length pre) (line pre text t).0
        (line pre text t).1
      ≡ some (line pre left t2))
    × (unspaced left ≡ unspaced text)
    × (length left ≤ length text)
    × Starts left

Skipped-stop :
    (rounds : ℕ) (pre : List ℕ) (c : ℕ) (cs t : List ℕ)
    → is_space c ≡ false
    → Skipped (suc rounds) pre (c ∷ cs) t
unfolding remove_spaces_at
Skipped-stop rounds pre c cs t e = (
  c ∷ cs,
  t,
  rw (get_or-append pre c (cs ++ 0 ∷ t), e, remove_spaces_at) refl,
  refl,
  omega arith,
  e,
)

Skipped-space :
    (rounds : ℕ) (pre : List ℕ) (c : ℕ) (cs t : List ℕ)
    → is_space c ≡ true
    → Skipped rounds pre cs (0 ∷ t)
    → Skipped (suc rounds) pre (c ∷ cs) t
unfolding remove_spaces_at
Skipped-space rounds pre c cs t e (left, t2, p, same, short, start) = (
  left,
  t2,
  rw (get_or-append pre c (cs ++ 0 ∷ t), e, remove_spaces_at)
      (ap₂ (λ b n. remove_spaces_at rounds (length pre) b n) (remove_char_lem pre c cs (0 ∷ t))
          shorter
        ∙ p),
  same ∙ sym (unspaced_space c cs e),
  omega (arith, short),
  start,
)
  where
    shorter : length pre + length (c ∷ cs) - 1 ≡ length pre + length cs
    shorter = omega arith

pub remove_spaces_at-Skipped :
    (rounds : ℕ) (pre text t : List ℕ) → length text < rounds → Skipped rounds pre text t
unfolding remove_spaces_at
remove_spaces_at-Skipped zero pre text t h = absurd (omega arith)
remove_spaces_at-Skipped (suc rounds) pre [] t h =
    ([], t, rw (get_or-append pre 0 t, remove_spaces_at) refl, refl, omega arith, tt)
remove_spaces_at-Skipped (suc rounds) pre (c ∷ cs) t h = elim (Bool-cases (is_space c)) [
  | inl e ↦
      Skipped-space rounds pre c cs t e
        (remove_spaces_at-Skipped rounds pre cs (0 ∷ t) (omega arith))
  | inr e ↦ Skipped-stop rounds pre c cs t e
]
