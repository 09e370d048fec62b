-- ===== src/Connection/ShortName.antt =====
-- crates/mlink-core/src/core/connection.rs, short_peer: the first four characters of a peer's name,
-- or all of it.
use Prim.Native.Nat.{ℕ, zero, suc}
use Prim.Native.String.{String, [], ◌∷◌}

abbrev first_chars : ℕ → String → String
first_chars zero s = []
first_chars (suc n) [] = []
first_chars (suc n) (c ∷ s) = c ∷ first_chars n s

unfoldable pub short_peer : String → String
short_peer id = first_chars 4 id
