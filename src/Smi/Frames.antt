-- ===== src/Smi/Frames.antt =====
-- The frames of the management interface as IEEE 802.3 has them in clause 22, beside the code.
use open_device.Base.{ℕ, zero, suc, ◌/◌, ◌%◌, ◌^◌, Bool, true, false, List, [], ◌∷◌, ◌++◌, ◌==◌}

-- The last `k` digits of a number, the highest first.
abbrev pub bits : ℕ → ℕ → List Bool
bits zero v = []
bits (suc k) v = (v / 2 ^ k % 2 == 1) ∷ bits k v

abbrev pub ones : ℕ → List Bool
ones zero = []
ones (suc n) = true ∷ ones n

abbrev pub address : ℕ → ℕ → List Bool
address phy reg = bits 5 phy ++ bits 5 reg

-- The preamble of `n` ones, the start 01, the code 01 of a write, the address, the turnaround 10
-- and the data.
abbrev pub write_frame : ℕ → ℕ → ℕ → ℕ → List Bool
write_frame n phy reg value =
    ones n ++ (false ∷ true ∷ false ∷ true ∷ (address phy reg ++ (true ∷ false ∷ bits 16 value)))

-- What the station sends of a read: the code is 10, and the address is the end.
abbrev pub read_header : ℕ → ℕ → ℕ → List Bool
read_header n phy reg = ones n ++ (false ∷ true ∷ true ∷ false ∷ address phy reg)
