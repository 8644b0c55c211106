-- ===== src/RadioV2/Terminal.antt =====
-- `readLoRaSerial` of Firmware/Tools/Terminal.c on a stream of bytes. The operating system's `read`
-- is a parameter: how many bytes the k-th call gives that is asked for n.
use spark_fun_lo_ra_serial.Base.{
  ℕ, zero, suc, ◌+◌, ◌-◌, ◌≤◌, ◌<◌, ◌≡◌, refl, sym, ap, ap₂, ◌∙◌, Bool, true, false, List, [], ◌∷◌,
  ◌++◌, Option, none, some, if◌then◌else◌, leb, ◌==◌, arith, length, get_or, take, drop,
  append_assoc, append-nil, length-append, length-drop, length-take, take-append-drop, u8,
}
use spark_fun_lo_ra_serial.RadioV2.{Station, transmit_datagram, xmit_vc_heartbeat}

module _ {ℓ} {A : Type ℓ} where
  take-append_le : (m : ℕ) (xs ys : List A) → m ≤ length xs → take m (xs ++ ys) ≡ take m xs
  take-append_le zero xs ys h = refl
  take-append_le (suc m) [] ys h = absurd (omega arith)
  take-append_le (suc m) (x ∷ xs) ys h = ap (λ r. x ∷ r) (take-append_le m xs ys (omega arith))

  drop-append_le : (m : ℕ) (xs ys : List A) → m ≤ length xs → drop m (xs ++ ys) ≡ drop m xs ++ ys
  drop-append_le zero xs ys h = refl
  drop-append_le (suc m) [] ys h = absurd (omega arith)
  drop-append_le (suc m) (x ∷ xs) ys h = drop-append_le m xs ys (omega arith)

-- `length - rxBytes`, as the size_t that `read` takes
abbrev pub bytes_left : ℕ → ℕ → ℕ
bytes_left n rx_bytes = if leb rx_bytes n then n - rx_bytes else n + 18446744073709551616 - rx_bytes

module _ (read : ℕ → ℕ → ℕ) where
  -- The loop of `readLoRaSerial`: the bytes read and the rest of the stream, or none if it still runs.
  pub read_rest : ℕ → ℕ → ℕ → List ℕ → List ℕ → Option (List ℕ × List ℕ)
  read_rest zero n k buffer stream = none
  read_rest (suc rounds) n k buffer stream = elim (n == length buffer) [
    | true ↦ some (buffer, stream)
    | false ↦
        read_rest rounds n (k + 1) (buffer ++ take (read k (bytes_left n (length buffer))) stream)
          (drop (read k (bytes_left n (length buffer))) stream)
  ]

  -- The type of the frame, the length byte, then the rest.
  pub read_lora_serial : ℕ → List ℕ → Option (List ℕ × List ℕ)
  unfolding read_rest
  read_lora_serial rounds stream =
      let type = take (read 0 1) stream in
      let behind = drop (read 0 1) stream in
      let buffer = type ++ take (read 1 1) behind in
      read_rest rounds (get_or buffer (length type) 0) 2 buffer (drop (read 1 1) behind)

  module _ (progress : (k n : ℕ) → 0 < n → (0 < read k n) × (read k n ≤ n)) where
    read_rest_lem :
        (rounds n k : ℕ) (buffer xs ys : List ℕ)
        → length buffer + length xs ≡ n
        → length xs < rounds
        → read_rest rounds n k buffer (xs ++ ys) ≡ some (buffer ++ xs, ys)
    unfolding read_rest
    read_rest_lem zero n k buffer xs ys e h = absurd (omega arith)
    read_rest_lem (suc rounds) n k buffer [] ys e h =
        rw (done, read_rest) (ap (λ b. some (b, ys)) (sym (append-nil buffer)))
      where
        done : (n == length buffer) ≡ true
        done = ground arith
    read_rest_lem (suc rounds) n k buffer (x ∷ xs) ys e h =
        rw (more, read_rest)
          (ap₂ (λ b s. read_rest rounds n (k + 1) (buffer ++ b) s)
              (take-append_le m (x ∷ xs) ys most) (drop-append_le m (x ∷ xs) ys most)
            ∙ read_rest_lem rounds n (k + 1) (buffer ++ take m (x ∷ xs)) (drop m (x ∷ xs)) ys
                (ground (
                  arith,
                  length-append buffer (take m (x ∷ xs)),
                  length-take m (x ∷ xs),
                  length-drop m (x ∷ xs),
                ))
                (ground (arith, length-drop m (x ∷ xs), some_bytes))
            ∙ ap (λ b. some (b, ys))
                (append_assoc buffer (take m (x ∷ xs)) (drop m (x ∷ xs))
                  ∙ ap (λ q. buffer ++ q) (take-append-drop m (x ∷ xs))))
      where
        m : ℕ
        m = read k (bytes_left n (length buffer))

        more : (n == length buffer) ≡ false
        more = ground arith

        asked : bytes_left n (length buffer) ≡ length (x ∷ xs)
        asked = ground arith

        some_bytes : 0 < m
        some_bytes = (progress k (bytes_left n (length buffer)) (omega (arith, asked))).0

        most : m ≤ length (x ∷ xs)
        most =
            omega
              (arith, asked, (progress k (bytes_left n (length buffer)) (omega (arith, asked))).1)

-- If each read gives at least a byte and no more than asked, in whatever pieces the bytes of a
-- heartbeat of xmitVcHeartbeat with a 16-byte ID come, readLoRaSerial ends within 18 rounds of its
-- loop and returns all but the last, which it leaves in the stream.
pub read_lora_serial_short :
    (read : ℕ → ℕ → ℕ) (sent : Bool) (now addr rounds : ℕ) (id rest : List ℕ) (s : Station)
    → ((k n : ℕ) → 0 < n → (0 < read k n) × (read k n ≤ n))
    → length id ≡ 16
    → 17 < rounds
    → let datagram = (xmit_vc_heartbeat sent now addr id s).tx_buffer in
      (read_lora_serial read rounds (datagram ++ rest)
        ≡ some (take 19 datagram, drop 19 datagram ++ rest))
      × (length (drop 19 datagram) ≡ 1)
unfolding read_lora_serial xmit_vc_heartbeat transmit_datagram
read_lora_serial_short read sent now addr rounds id rest s progress h r = (
  rw (first, second, read_lora_serial)
      (ap (λ q. read_rest read rounds n 2 (0 ∷ n ∷ []) (255 ∷ addr ∷ q))
          (ap (λ q. q ++ rest) (sym (take-append-drop 15 id))
            ∙ append_assoc (take 15 id) (drop 15 id) rest)
        ∙ read_rest_lem read progress rounds n 2 (0 ∷ n ∷ []) (255 ∷ addr ∷ take 15 id)
            (drop 15 id ++ rest) (ground (arith, length-take 15 id, h))
            (ground (arith, length-take 15 id, h))),
  omega (arith, length-drop 15 id, h),
)
  where
    n : ℕ
    n = u8 (length (0 ∷ 0 ∷ 255 ∷ addr ∷ id) - 1)

    first : read 0 1 ≡ 1
    first = omega (arith, (progress 0 1 (omega arith)).0, (progress 0 1 (omega arith)).1)

    second : read 1 1 ≡ 1
    second = omega (arith, (progress 1 1 (omega arith)).0, (progress 1 1 (omega arith)).1)
