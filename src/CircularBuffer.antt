-- ===== src/CircularBuffer.antt =====
-- `types::CircularBuffer` of palmyraOS/circularBuffer.h, for any BUFFER_SIZE. The front buffer is
-- what `get` answers.
pub mod Cells
pub mod Contents
mod Tests
use palmyra_os.Prelude.{
  ℕ, zero, suc, ◌+◌, ◌-◌, ◌%◌, Bool, true, false, List, [], ◌∷◌, ltb, leb, ◌==◌, if◌then◌else◌,
  length, drop,
}

pub record CircularBuffer : Type 0 where
  pub back_buffer : ℕ → ℕ
  pub first : ℕ
  pub last : ℕ

-- `backBuffer[i] = v`
abbrev pub write : (ℕ → ℕ) → ℕ → ℕ → ℕ → ℕ
write cells i v k = if k == i then v else cells k

module _ (buffer_size : ℕ) where
  abbrev pub advance : ℕ → ℕ
  advance i = (i + 1) % buffer_size

  -- `start` is `first` here, and `end` is `last`.
  pub clear : CircularBuffer → CircularBuffer
  clear b = record {
    back_buffer = λ k. if ltb k buffer_size then 0 else b.back_buffer k;
    first = 0;
    last = 0;
  }

  pub append_one : ℕ → CircularBuffer → CircularBuffer
  append_one ch b = record {
    back_buffer = write b.back_buffer b.last ch;
    first = if advance b.last == b.first then advance b.first else b.first;
    last = advance b.last;
  }

  -- The loop of `append`, which stops at a zero character.
  pub append_chars : List ℕ → CircularBuffer → CircularBuffer
  append_chars [] b = b
  append_chars (ch ∷ str) b =
      let rest = append_chars str (append_one ch b) in if ch == 0 then b else rest

  pub append : List ℕ → CircularBuffer → CircularBuffer
  append str b =
      append_chars
        (if ltb buffer_size (length str) then drop (length str - buffer_size) str else str) b

  pub backspace : CircularBuffer → CircularBuffer
  backspace b =
      if b.first == b.last
      then b
      else let before = if b.last == 0 then buffer_size - 1 else b.last - 1 in
        record b { last = before; back_buffer = write b.back_buffer before 0 }

  -- The loop of `get`, with fuel.
  pub get_from : ℕ → ℕ → CircularBuffer → List ℕ
  get_from zero current b = []
  get_from (suc fuel) current b =
      let rest = get_from fuel (advance current) b in
      if current == b.last then [] else b.back_buffer current ∷ rest

  -- The string that is answered, without its null character. No more characters than cells
  -- stand in the buffer, so that fuel is enough.
  pub get : CircularBuffer → List ℕ
  get b = get_from buffer_size b.first b

  pub size : CircularBuffer → ℕ
  size b = if leb b.first b.last then b.last - b.first else buffer_size - b.first + b.last
