-- ===== src/Common/Text.antt =====
-- What the source uses of `str`: trimming, prefixes, searching.
use Prim.Native.Char.{code}
use Prim.Native.Nat.{ℕ, zero, suc, ◌+◌, ◌-◌, ◌≤◌}
use Prim.Native.String.{String, [], ◌∷◌, ◌++◌}
use mathlib.Core.Bool.{Bool, true, false, ◌&&◌, ◌||◌}
use mathlib.Core.Logic.{inl, inr}
use mathlib.Core.Option.{Option, none, some}
use mathlib.Core.Path.{◌≡◌}
use native.Mathlib.Omega.{arith}
use text.Mathlib.Text.{◌==◌, starts_with}
use replay_kit.Common.Tests.{leb, nat_beq, if◌then◌else◌, Bool-cases, Option-cases}

-- `char::is_whitespace`, the Unicode property `White_Space`.
unfoldable pub is_whitespace : ℕ → Bool
is_whitespace c =
    leb 0x9 c && leb c 0xd
    || nat_beq c 0x20
    || nat_beq c 0x85
    || nat_beq c 0xa0
    || nat_beq c 0x1680
    || leb 0x2000 c && leb c 0x200a
    || nat_beq c 0x2028
    || nat_beq c 0x2029
    || nat_beq c 0x202f
    || nat_beq c 0x205f
    || nat_beq c 0x3000

unfoldable pub trim_start : String → String
unfolding is_whitespace
trim_start [] = []
trim_start (c ∷ s) = if is_whitespace (code c) then trim_start s else c ∷ s

unfoldable pub trim_end : String → String
unfolding is_whitespace
trim_end [] = []
trim_end (c ∷ s) =
    let rest = trim_end s in if rest == "" && is_whitespace (code c) then "" else c ∷ rest

unfoldable pub trim : String → String
unfolding trim_start trim_end
trim s = trim_end (trim_start s)

-- `s.trim().is_empty()`.
unfoldable pub is_blank : String → Bool
unfolding trim
is_blank s = trim s == ""

-- `s.contains(t)`.
unfoldable pub contains_text : String → String → Bool
contains_text [] t = starts_with [] t
contains_text (c ∷ s) t = starts_with (c ∷ s) t || contains_text s t

-- The text without its first `n` characters.
unfoldable pub drop_chars : ℕ → String → String
drop_chars zero s = s
drop_chars (suc n) [] = []
drop_chars (suc n) (c ∷ s) = drop_chars n s

-- `u8::is_ascii_hexdigit` at every byte.
unfoldable pub all_hex : String → Bool
all_hex [] = true
all_hex (c ∷ s) =
    let d = code c in
    (leb b'0' d && leb d b'9' || leb b'a' d && leb d b'f' || leb b'A' d && leb d b'F') && all_hex s

unfoldable pub char_count : String → ℕ
char_count [] = 0
char_count (c ∷ s) = suc (char_count s)

-- The first `n` characters of the text.
unfoldable pub take_chars : ℕ → String → String
take_chars zero s = []
take_chars (suc n) [] = []
take_chars (suc n) (c ∷ s) = c ∷ take_chars n s

-- The text starts with the character twice.
unfoldable pub starts_doubled : ℕ → String → Bool
starts_doubled b [] = false
starts_doubled b (c ∷ []) = false
starts_doubled b (c ∷ d ∷ s) = nat_beq (code c) b && nat_beq (code d) b

-- `s.find("{{")` and `s.find("}}")`: where a character first stands twice.
unfoldable pub find_doubled : ℕ → String → Option ℕ
find_doubled b [] = none
find_doubled b (c ∷ s) = elim (starts_doubled b (c ∷ s)) [
  | true ↦ some 0
  | false ↦ elim (find_doubled b s) [ none ↦ none | some i ↦ some (suc i) ]
]

-- `s.split_once('|')`.
unfoldable pub split_once : ℕ → String → Option (String × String)
split_once b [] = none
split_once b (c ∷ s) = elim (nat_beq (code c) b) [
  | true ↦ some ([], s)
  | false ↦ elim (split_once b s) [ none ↦ none | some parts ↦ some (c ∷ parts.0, parts.1) ]
]

unfoldable pub starts_white : String → Bool
unfolding is_whitespace
starts_white [] = false
starts_white (c ∷ s) = is_whitespace (code c)

-- `s.split_whitespace().collect::<Vec<_>>().join(" ")`: the words, with one space between them.
unfoldable pub squeeze : String → String
unfolding is_whitespace starts_white
squeeze [] = []
squeeze (c ∷ s) =
    let rest = squeeze s in
    if is_whitespace (code c)
    then rest
    else if rest == ""
    then c ∷ []
    else if starts_white s
    then c ∷ (" " ++ rest)
    else c ∷ rest

pub char_count-drop_chars : (n : ℕ) (s : String) → char_count (drop_chars n s) ≡ char_count s - n
unfolding char_count drop_chars
char_count-drop_chars zero s = omega arith
char_count-drop_chars (suc n) [] = omega arith
char_count-drop_chars (suc n) (c ∷ s) = omega (arith, char_count-drop_chars n s)

starts_doubled-count : (b : ℕ) (s : String) → starts_doubled b s ≡ true → 2 ≤ char_count s
unfolding starts_doubled char_count
starts_doubled-count b [] h = cc
starts_doubled-count b (c ∷ []) h = cc
starts_doubled-count b (c ∷ d ∷ s) h = omega arith

-- What is found lies within the text.
pub find_doubled-count : (b i : ℕ) (s : String) → find_doubled b s ≡ some i → i + 2 ≤ char_count s
unfolding find_doubled char_count
find_doubled-count b i [] h = cc
find_doubled-count b i (c ∷ s) h = elim (Bool-cases (starts_doubled b (c ∷ s))) [
  | inl t ↦ ground (arith, t, h, starts_doubled-count b (c ∷ s) t)
  | inr f ↦ elim (Option-cases (find_doubled b s)) [
    | inl e ↦ cc (rw (find_doubled, f, e) at h)
    | inr (j, e) ↦ ground (arith, f, e, h, find_doubled-count b j s e)
  ]
]
