-- ===== src/Checksum/Tests.antt =====
-- Runs of the Internet checksum (libsponge/util/util.cc).
use cs.Prelude.{ℕ, ◌+◌, ◌-◌, ◌≡◌, false, List, [], ◌∷◌, arith}
use cs.Checksum.{init, add, value}
use cs.Checksum.Laws.{value-add, folded, words}

abbrev data_bytes : List ℕ
data_bytes = 255 ∷ 254 ∷ 3 ∷ []

value-add_example : value (add data_bytes (init 5)) ≡ 65535 - folded (5 + words false data_bytes)
value-add_example = value-add data_bytes 5 (omega arith) (omega arith)
