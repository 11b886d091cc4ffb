-- ===== src/Prelude/Digests.antt =====
-- Digests as the program passes them round: 64 lowercase hexadecimal digits. SHA-256 itself is a
-- parameter `sha256 : List ℕ → String` (bytes to hexadecimal digits) of each component.
use Prim.Native.Nat.{ℕ}
use Prim.Native.String.{String}
use mathlib.Core.Bool.{Bool, ◌&&◌, ◌||◌}
use simplicio_fast.Prelude.Tests.{leb, nat_beq}
use simplicio_fast.Prelude.Lists.{length, all}
use simplicio_fast.Prelude.Json.{codes}

-- `"0" * 64`
abbrev pub zero_hash : String
zero_hash = "0000000000000000000000000000000000000000000000000000000000000000"

abbrev pub is_hex_digit : ℕ → Bool
is_hex_digit c = (leb b'0' c && leb c b'9') || (leb b'a' c && leb c b'f')

-- `re.compile(r"^[0-9a-f]{64}$").fullmatch(value) is not None`
unfoldable pub is_sha256 : String → Bool
is_sha256 s = nat_beq (length (codes s)) 64 && all is_hex_digit (codes s)
