-- ===== src/Ring.antt =====
-- The circular byte buffers of Firmware/LoRaSerial/Serial.ino. The firmware repeats one pattern for
-- each buffer (an array, a head index that is written and a tail index that is read); here it is
-- one record, and the operations take the buffer that they work on.
pub mod Unread
pub mod Inv
pub mod Queue
pub mod Copy
pub mod Blit
use spark_fun_lo_ra_serial.Base.{
  ℕ, ◌+◌, ◌-◌, ◌%◌, List, [], ◌∷◌, leb, ltb, if◌then◌else◌, length, get_or, set, take, drop, u16,
}

pub record Ring : Type 0 where
  pub buf : List ℕ
  pub size : ℕ  -- `sizeof` of the array
  pub head : ℕ  -- uint16_t
  pub tail : ℕ  -- uint16_t

-- The number of bytes that wait in the buffer.
unfoldable pub available : Ring → ℕ
available r = if leb r.tail r.head then u16 (r.head - r.tail) else u16 (r.size - r.tail + r.head)

-- `buffer[head++] = data; head %= sizeof(buffer);`
pub put : Ring → ℕ → Ring
put r x = record r { buf = set r.buf r.head x; head = u16 (r.head + 1) % r.size }

-- `data = buffer[tail++]; tail %= sizeof(buffer);`
pub get : Ring → ℕ × Ring
get r = (get_or r.buf r.tail 0, record r { tail = u16 (r.tail + 1) % r.size })

-- `memcpy(&buffer[i], data, length)`
unfoldable pub blit : List ℕ → ℕ → List ℕ → List ℕ
blit buf i [] = buf
blit buf i (x ∷ xs) = blit (set buf i x) (i + 1) xs

-- `&buffer[i]`, as the source of a `memcpy` of n bytes
abbrev pub slice : List ℕ → ℕ → ℕ → List ℕ
slice buf i n = take n (drop i buf)

-- The copy into the buffer, split where it meets the end of the array.
pub write : Ring → List ℕ → Ring
unfolding blit
write r bytes =
    let n = length bytes in
    let first = if ltb r.size (r.head + n) then r.size - r.head else 0 in
    let start = if ltb r.size (r.head + n) then 0 else r.head in
    record r {
      buf = blit (blit r.buf r.head (take first bytes)) start (drop first bytes);
      head = u16 (start + (n - first)) % r.size;
    }

-- The copy of the next n bytes out of the buffer, split in the same way: the two pieces that the
-- code copies one behind the other, and the buffer with its tail moved.
pub read : Ring → ℕ → List ℕ × List ℕ × Ring
read r n =
    let first = if ltb r.size (r.tail + n) then r.size - r.tail else 0 in
    let start = if ltb r.size (r.tail + n) then 0 else r.tail in
    (
      slice r.buf r.tail first,
      slice r.buf start (n - first),
      record r { tail = (start + (n - first)) % r.size },
    )
