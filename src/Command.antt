-- ===== src/Command.antt =====
-- The line of a command before it is looked up: `trimCommand` of Firmware/LoRaSerial/Commands.ino, on
-- the array `commandBuffer` of Firmware/LoRaSerial/LoRaSerial.ino.
pub mod Trim
pub mod Outcome
mod Tests
use spark_fun_lo_ra_serial.Base.{
  ℕ, zero, suc, ◌+◌, ◌-◌, Bool, true, false, ◌&&◌, ◌||◌, List, Option, none, some, ltb, leb, ◌==◌,
  get_or, set,
}

-- `isspace` of the C library: tab to carriage return, and the space
abbrev pub is_space : ℕ → Bool
is_space c = (leb 9 c && leb c 13) || (c == 32)

-- The first loop ends with its `break` or after as many rounds as there are characters left.
pub remove_comment : ℕ → ℕ → List ℕ → ℕ → List ℕ × ℕ
remove_comment zero index buffer length = (buffer, length)
remove_comment (suc rounds) index buffer length = elim (get_or buffer index 0 == 35) [
  | true ↦ (set buffer index 0, index)
  | false ↦ remove_comment rounds (index + 1) buffer length
]

-- The loop over `j`, from a first one, for a number of rounds.
pub move_left : ℕ → ℕ → List ℕ → List ℕ
move_left zero j buffer = buffer
move_left (suc rounds) j buffer = move_left rounds (j + 1) (set buffer (j - 1) (get_or buffer j 0))

-- The body of the `while` loop: the character at the index goes, and the line is one shorter.
pub remove_char : ℕ → List ℕ → ℕ → List ℕ
unfolding move_left
remove_char index buffer length =
    set (move_left (length - (index + 1)) (index + 1) buffer) (length - 1) 0

-- The `while` loop, or none if it still runs.
pub remove_spaces_at : ℕ → ℕ → List ℕ → ℕ → Option (List ℕ × ℕ)
unfolding remove_char
remove_spaces_at zero index buffer length = none
remove_spaces_at (suc rounds) index buffer length = elim (is_space (get_or buffer index 0)) [
  | true ↦ remove_spaces_at rounds index (remove_char index buffer length) (length - 1)
  | false ↦ some (buffer, length)
]

-- The loop over the characters that are left, or none if it still runs.
pub remove_spaces : ℕ → ℕ → List ℕ → ℕ → Option (List ℕ × ℕ)
unfolding remove_spaces_at
remove_spaces zero index buffer length = none
remove_spaces (suc rounds) index buffer length = elim (ltb index length) [
  | true ↦ elim (remove_spaces_at rounds index buffer length) [
    | none ↦ none
    | some (b, n) ↦ remove_spaces rounds (index + 1) b n
  ]
  | false ↦ some (buffer, length)
]

-- `commandBuffer` and `commandLength` after `trimCommand`.
pub trim_command : List ℕ → ℕ → Option (List ℕ × ℕ)
unfolding remove_comment remove_spaces
trim_command buffer length =
    let (b, n) = remove_comment length 0 buffer length in remove_spaces (n + 2) 0 b n
