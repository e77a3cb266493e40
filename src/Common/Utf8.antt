-- ===== src/Common/Utf8.antt =====
-- `str::as_bytes`: the bytes of a text in UTF-8.
use Prim.Native.Char.{code}
use Prim.Native.Nat.{ℕ, ◌+◌, ◌/◌, ◌%◌}
use Prim.Native.String.{String}
use mathlib.Core.List.{List, [], ◌∷◌, ◌++◌}
use replay_kit.Common.Tests.{ltb, if◌then◌else◌}

abbrev pub continuation : ℕ → ℕ
continuation n = 128 + n % 64

unfoldable pub char_bytes : ℕ → List ℕ
char_bytes n =
    if ltb n 128
    then n ∷ []
    else if ltb n 2048
    then (192 + n / 64) ∷ continuation n ∷ []
    else if ltb n 65536
    then (224 + n / 4096) ∷ continuation (n / 64) ∷ continuation n ∷ []
    else (240 + n / 262144) ∷ continuation (n / 4096) ∷ continuation (n / 64) ∷ continuation n ∷ []

unfoldable pub utf8 : String → List ℕ
utf8 String.[] = []
utf8 (String.◌∷◌ c s) = char_bytes (code c) ++ utf8 s
