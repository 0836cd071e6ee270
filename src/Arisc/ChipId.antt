-- ===== src/Arisc/ChipId.antt =====
-- The chip id that demo_hwmessagebox.c reads byte by byte from four words of the answer.
use open_device.Base.{ℕ, ◌+◌, ◌*◌, ◌<◌, ◌^◌, ◌≡◌, List, [], ◌∷◌, arith}
use open_device.Arisc.Box.{Message}
use open_device.Arisc.Requests.{chip_id_bytes}

-- Four bytes to a word, the low byte first; a rest of fewer than four is dropped.
pub words_of : List ℕ → List ℕ
words_of (a ∷ b ∷ c ∷ d ∷ rest) = (a + 0x100 * b + 0x10000 * c + 0x1000000 * d) ∷ words_of rest
words_of _ = []

-- The sixteen bytes that the request prints are the four parameter words of the answer, low byte
-- first, whatever the local array held before: put together again they give the words.
pub words_of-chip_id_bytes :
    (buf : ℕ → ℕ) (m : Message)
    → m.paras 0 < 2 ^ 32
    → m.paras 1 < 2 ^ 32
    → m.paras 2 < 2 ^ 32
    → m.paras 3 < 2 ^ 32
    → words_of (chip_id_bytes buf m) ≡ m.paras 0 ∷ m.paras 1 ∷ m.paras 2 ∷ m.paras 3 ∷ []
unfolding words_of chip_id_bytes
words_of-chip_id_bytes buf m h0 h1 h2 h3 = ground arith
