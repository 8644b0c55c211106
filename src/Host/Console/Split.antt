-- ===== src/Host/Console/Split.antt =====
-- How `radioToHost` parts the stream.
use spark_fun_lo_ra_serial.Base.{
  ℕ, ◌+◌, ◌-◌, ◌≤◌, ◌<◌, ◌≡◌, ◌≢◌, ◌⊎◌, refl, sym, ap, ◌∙◌, inl, inr, Bool, true, false, List, [],
  ◌∷◌, ◌++◌, Option, some, if◌then◌else◌, ltb, ◌==◌, ◌||◌, ==_iff, arith, length, get_or, take,
  drop, length-append, length-take, get_or-take, length-drop, take-append-drop,
}
use spark_fun_lo_ra_serial.Serial.Vc.{start_of_vc_serial, vc_serial_header_bytes}
use spark_fun_lo_ra_serial.Host.Console.{
  Console, split_text, host_to_stdout, process_message, process_held, radio_to_host,
}

-- Text holds no start byte, and what follows it begins with one.
abbrev pub IsText : List ℕ → Type 0
IsText [] = Unit {0}
IsText (b ∷ bytes) = (b ≢ start_of_vc_serial) × IsText bytes

abbrev pub Starts : List ℕ → Type 0
Starts [] = Unit {0}
Starts (b ∷ bytes) = b ≡ start_of_vc_serial

abbrev Parted : List ℕ → List ℕ × List ℕ → Type 0
Parted bytes (debug, message) = (bytes ≡ debug ++ message) × IsText debug × Starts message

Parted-if :
    (bytes : List ℕ) (c : Bool) (x y : List ℕ × List ℕ)
    → (c ≡ true → Parted bytes x)
    → (c ≡ false → Parted bytes y)
    → Parted bytes (if c then x else y)
Parted-if bytes true x y p q = p refl
Parted-if bytes false x y p q = q refl

split_text-Parted : (bytes : List ℕ) → Parted bytes (split_text bytes)
unfolding split_text
split_text-Parted [] = (refl, tt, tt)
split_text-Parted (b ∷ bytes) =
    let (same, is_text, starts) = split_text-Parted bytes in
    Parted-if (b ∷ bytes) (b == start_of_vc_serial) ([], b ∷ bytes)
      (b ∷ (split_text bytes).0, (split_text bytes).1)
      (λ e. (refl, tt, (==_iff b start_of_vc_serial).0 e))
      (λ e. (ap (λ q. b ∷ q) same, ((λ q. ground arith), is_text), starts))

-- A message is whole if it has the bytes that its length byte, the second one, counts, and its
-- header.
pub record IsWhole (message : List ℕ) : Type 0 where
  pub starts : get_or message 0 0 ≡ start_of_vc_serial
  pub size : length message ≡ vc_serial_header_bytes + (get_or message 1 0 - 3)

-- What the buffer holds is text, then at most one message, and what is left.
pub record Splits (bytes : List ℕ) (c : Console) : Type 0 where
  pub debug : List ℕ
  pub message : List ℕ
  pub same : bytes ≡ debug ++ (message ++ c.held)
  pub is_text : IsText debug
  pub whole : (message ≡ []) ⊎ IsWhole message
  pub inside : c.start + length c.held ≤ length bytes

record Held (bytes : List ℕ) (c : Console) : Type 0 where
  message : List ℕ
  same : bytes ≡ message ++ c.held
  whole : (message ≡ []) ⊎ IsWhole message
  inside : c.start + length c.held ≤ length bytes

Held-if :
    (bytes : List ℕ) (b : Bool) (x y : Console)
    → Held bytes x
    → (b ≡ false → Held bytes y)
    → Held bytes (if b then x else y)
Held-if bytes true x y p q = p
Held-if bytes false x y p q = q refl

module _ (write : ℕ → ℕ → Option ℕ) (rounds : ℕ) where
  process_held-Held :
      (message : List ℕ) (c : Console)
      → get_or message 0 0 ≡ start_of_vc_serial
      → Held message (process_held write rounds message c)
  unfolding process_held
  process_held-Held message c front =
      Held-if message (ltb (length message) vc_serial_header_bytes || ltb (length message) (n + 1))
        (record c { start = 0; held = message })
        (record (process_message write rounds message n (record c { start = 0; held = message })) {
          start = size;
          held = drop size message;
        })
        (record { message = []; same = refl; whole = inl refl; inside = omega arith })
        (λ e. record {
          message = take size message;
          same = sym (take-append-drop size message);
          whole = inr (record {
            starts = get_or-take message size 0 0 (omega arith) ∙ front;
            size =
                whole_size e
                ∙ ap (λ k. 4 + (k - 3)) (sym (get_or-take message size 1 0 (omega arith)));
          });
          inside = ground (arith, length-drop size message);
        })
    where
      n : ℕ
      n = get_or message 1 0

      size : ℕ
      size = vc_serial_header_bytes + (n - 3)

      whole_size :
          (ltb (length message) vc_serial_header_bytes || ltb (length message) (n + 1)) ≡ false
          → length (take size message) ≡ size
      whole_size e = ground (arith, length-take size message)

  Splits-if :
      (bytes debug message : List ℕ) (c : Bool) (x y : Console)
      → bytes ≡ debug ++ message
      → IsText debug
      → c ≡ (length message == 0)
      → x.start ≡ 0
      → x.held ≡ []
      → (0 < length message → Held message y)
      → Splits bytes (if c then x else y)
  Splits-if bytes debug message true x y same is_text empty start held go = record {
    debug = debug;
    message = [];
    same = same ∙ ap (λ q. debug ++ q) (none_left message (sym empty) ∙ sym held);
    is_text = is_text;
    whole = inl refl;
    inside = omega (arith, ap length held);
  }
    where
      none_left : (m : List ℕ) → (length m == 0) ≡ true → m ≡ []
      none_left [] e = refl
      none_left (b ∷ m) e = absurd (ground arith)
  Splits-if bytes debug message false x y same is_text empty start held go =
      let left = go (ground arith) in
      record {
        debug = debug;
        message = left.message;
        same = same ∙ ap (λ q. debug ++ q) left.same;
        is_text = is_text;
        whole = left.whole;
        inside = omega (arith, left.inside, ap length same, length-append debug message);
      }

  front :
      (message : List ℕ)
      → 0 < length message
      → Starts message
      → get_or message 0 0 ≡ start_of_vc_serial
  front [] h e = absurd (omega arith)
  front (b ∷ message) h e = e

  -- Each read that gives bytes makes radioToHost part what the buffer then holds into text, at
  -- most one whole message, and the bytes that stay, in this order and with nothing lost; these
  -- stay inside the buffer.
  pub radio_to_host-Splits :
      (incoming : List ℕ) (c : Console)
      → 0 < length incoming
      → Splits (c.held ++ incoming) (radio_to_host write rounds (some incoming) c)
  unfolding radio_to_host
  radio_to_host-Splits [] c h = absurd (omega arith)
  radio_to_host-Splits (b ∷ incoming) c h =
      let bytes = c.held ++ b ∷ incoming in
      let (same, is_text, starts) = split_text-Parted bytes in
      let debug = (split_text bytes).0 in
      let message = (split_text bytes).1 in
      let shown =
        if ltb 0 (length debug) then host_to_stdout write rounds debug (length debug) c else c in
      Splits-if bytes debug message (length message == 0) (record shown { start = 0; held = [] })
        (process_held write rounds message shown) same is_text refl refl refl
        (λ some_left. process_held-Held message shown (front message some_left starts))
