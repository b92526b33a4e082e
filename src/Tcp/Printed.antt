-- ===== src/Tcp/Printed.antt =====
-- proxy/src/TCPConnection.cpp: when the buffer of a thread can be printed as a string.
use cezfuzzer.Base.{
  ℕ, zero, suc, ◌≤◌, ◌<◌, ◌≡◌, ◌⊎◌, inl, inr, refl, List, [], ◌∷◌, ◌++◌, arith, true, false, length,
  take, drop, drop_all, length-replicate, replicate, length-take, elem, if◌then◌else◌,
}
use cezfuzzer.Fuzzer.Memory.{Block}
use cezfuzzer.Tcp.Relay.{relay_buffer_size}

abbrev pub zeros : List ℕ
zeros = replicate relay_buffer_size 0

-- A chunk that leaves a 0 in the buffer, or brings one.
abbrev pub IsPrintable : List ℕ → Type 0
IsPrintable bytes =
    (length bytes < relay_buffer_size) ⊎ (elem 0 (take relay_buffer_size bytes) ≡ true)

elem-drop-replicate : (n m : ℕ) → n < m → elem 0 (drop n (replicate m 0)) ≡ true
elem-drop-replicate n zero h = absurd (omega arith)
elem-drop-replicate zero (suc m) h = ground arith
elem-drop-replicate (suc n) (suc m) h = elem-drop-replicate n m (omega arith)

pub zeros_zero : elem 0 zeros ≡ true
unfolding relay_buffer_size
zeros_zero = elem-drop-replicate 0 relay_buffer_size (omega arith)

elem-join : (p : ℕ) (xs ys : List ℕ) → elem p (xs ++ ys) ≡ (if elem p xs then true else elem p ys)
elem-join p [] ys = refl
elem-join p (x ∷ xs) ys = ground (arith, elem-join p xs ys)

-- Zeros, then the bytes.
abbrev pub received : List ℕ → Block
received got = record { cap = relay_buffer_size; bytes = got ++ drop (length got) zeros }

pub received_zero :
    (bytes : List ℕ)
    → IsPrintable bytes
    → elem 0 (received (take relay_buffer_size bytes)).bytes ≡ true
received_zero bytes (inl short) =
    let got : List ℕ = take relay_buffer_size bytes in
    let fits : length got < relay_buffer_size =
      omega (arith, length-take relay_buffer_size bytes) in
    ground (
      arith,
      elem-join 0 got (drop (length got) zeros),
      elem-drop-replicate (length got) relay_buffer_size fits,
    )
received_zero bytes (inr found) =
    let got : List ℕ = take relay_buffer_size bytes in
    ground (arith, elem-join 0 got (drop (length got) zeros), found)

-- A chunk that fills the buffer and brings no 0.
abbrev pub IsUnprintable : List ℕ → Type 0
IsUnprintable bytes =
    (relay_buffer_size ≤ length bytes) × (elem 0 (take relay_buffer_size bytes) ≡ false)

pub received_no_zero :
    (bytes : List ℕ)
    → IsUnprintable bytes
    → elem 0 (received (take relay_buffer_size bytes)).bytes ≡ false
received_no_zero bytes (long, absent) =
    let got : List ℕ = take relay_buffer_size bytes in
    ground (
      arith,
      elem-join 0 got (drop (length got) zeros),
      absent,
      drop_all (length got) zeros (
          omega (
            arith,
            length-take relay_buffer_size bytes,
            length-replicate {A = ℕ} relay_buffer_size 0,
          )),
    )
