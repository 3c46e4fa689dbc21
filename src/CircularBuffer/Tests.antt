-- ===== src/CircularBuffer/Tests.antt =====
-- A buffer of 4 cells, which holds "ab" around its end.
use palmyra_os.Prelude.{◌≡◌, refl, [], ◌∷◌, ◌++◌, ◌==◌, if◌then◌else◌, arith}
use palmyra_os.CircularBuffer.{CircularBuffer, append, append_chars, append_one, get, get_from}
use palmyra_os.CircularBuffer.Contents.{IsValid, last_of, before_null, get-append}

abbrev buffer : CircularBuffer
buffer = record { back_buffer = λ k. if k == 3 then 97 else 98; first = 3; last = 1 }

buffer-IsValid : IsValid 4 buffer
buffer-IsValid = record { first_in = omega arith; last_in = omega arith }

-- Of "ab" and "cdefg" the last three characters are kept, though there are four cells.
three_kept : get 4 (append 4 (99 ∷ 100 ∷ 101 ∷ 102 ∷ 103 ∷ []) buffer) ≡ 101 ∷ 102 ∷ 103 ∷ []
unfolding append append_chars append_one get get_from
three_kept = refl

append_example :
    IsValid 4 (append 4 (99 ∷ 100 ∷ []) buffer)
    × (get 4 (append 4 (99 ∷ 100 ∷ []) buffer)
        ≡ last_of 3 (get 4 buffer ++ before_null (last_of 4 (99 ∷ 100 ∷ []))))
append_example = get-append 4 (99 ∷ 100 ∷ []) buffer (omega arith) buffer-IsValid
