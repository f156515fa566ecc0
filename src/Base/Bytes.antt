-- ===== src/Base/Bytes.antt =====
-- std::string as its list of bytes.
use Prim.Native.Nat.{ℕ}
use Prim.Native.Char.{code}
use Prim.Native.String.{String}
use mathlib.Core.Path.{◌≡◌}
use mathlib.Core.Logic.{◌↔◌}
use mathlib.Core.Bool.{Bool, true, false}
use mathlib.Core.List.{List, [], ◌∷◌}
use native.Mathlib.Omega.{arith}
use native.Mathlib.Decide.{ℕ_discrete}

abbrev pub Bytes : Type 0
Bytes = List ℕ

-- The bytes of an ASCII literal of the source.
unfoldable pub bytes : String → Bytes
bytes String.[] = []
bytes (String.◌∷◌ c s) = code c ∷ bytes s

-- `a == b` on std::string.
unfoldable pub bytes_discrete : Discrete Bytes
bytes_discrete = hlevel ℕ_discrete

-- The same as a truth value, for the program's `&&` and `||`.
abbrev pub is_eq : Bytes → Bytes → Bool
is_eq a b = elim (bytes_discrete a b) [ yes _ ↦ true | no _ ↦ false ]

pub is_eq_iff : (a b : Bytes) → (is_eq a b ≡ true) ↔ (a ≡ b)
is_eq_iff a b = ground arith
