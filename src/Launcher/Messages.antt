-- ===== src/Launcher/Messages.antt =====
-- luncher/utils/Messages.h, and the comparison of a buffer with its texts. A text is a list of bytes.
use cezfuzzer.Base.{
  ℕ, zero, suc, ◌-◌, Bool, true, false, List, [], ◌∷◌, ◌++◌, if◌then◌else◌, ◌==◌, length, replicate,
}
use cezfuzzer.Wire.Stream.{max_msg_size}

-- START, RESTART and CRASH, without the byte 0 at the end.
abbrev pub start_text : List ℕ
start_text = b'S' ∷ b'T' ∷ b'A' ∷ b'R' ∷ b'T' ∷ []

abbrev pub restart_text : List ℕ
restart_text = b'R' ∷ b'E' ∷ b'S' ∷ b'T' ∷ b'A' ∷ b'R' ∷ b'T' ∷ []

abbrev pub crash_text : List ℕ
crash_text = b'C' ∷ b'R' ∷ b'A' ∷ b'S' ∷ b'H' ∷ []

-- A string literal in memory.
abbrev pub literal : List ℕ → List ℕ
literal text = text ++ 0 ∷ []

-- memset(buffer, 0, MAX_MSG_SIZE), then a message in its front.
unfoldable pub buffer_of : List ℕ → List ℕ
buffer_of msg = msg ++ replicate (max_msg_size - length msg) 0

-- strncmp(a, b, n) == 0. The texts are shorter than the buffers, so no read passes a buffer's end;
-- the end of a list is read as the byte 0.
unfoldable pub strncmp_eq : ℕ → List ℕ → List ℕ → Bool
strncmp_eq zero xs ys = true
strncmp_eq (suc n) [] [] = true
strncmp_eq (suc n) [] (y ∷ ys) = y == 0
strncmp_eq (suc n) (x ∷ xs) [] = x == 0
strncmp_eq (suc n) (x ∷ xs) (y ∷ ys) =
    let rest = strncmp_eq n xs ys in if x == y then (if x == 0 then true else rest) else false
