-- ===== src/Launcher/Sample.antt =====
-- Sockets that split what they move, for the launchers' tests.
use cezfuzzer.Base.{ℕ, suc, ◌≡◌, refl, some}
use cezfuzzer.Wire.Stream.{Kernel}

-- Three bytes at a time.
abbrev pub threes : Kernel
threes = record { accepts = λ i. some 3; offers = λ i. some 2 }

pub threes_offers : (i : ℕ) → (n : ℕ) × (threes.offers i ≡ some n)
threes_offers i = (2, refl)

pub threes_accepts : (i : ℕ) → (n : ℕ) × (threes.accepts i ≡ some (suc n))
threes_accepts i = (2, refl)
