-- ===== src/Receipt/Lines.antt =====
-- The functions on text that core/src/receipt.rs uses. A line is the list of its code points.
pub mod Tokens
use Prim.Native.Char.{code}
use Prim.Native.String as Text
use redsuite.Prelude.{
  ℕ, ◌+◌, ◌*◌, ◌-◌, Bool, ◌&&◌, ◌||◌, List, [], ◌∷◌, ◌++◌, Option, none, some, eqb, ltb, leb,
  String, if◌then◌else◌, u64_mod,
}

abbrev pub Line : Type 0
Line = List ℕ

abbrev pub codes : String → Line
codes Text.[] = []
codes (Text.◌∷◌ c s) = code c ∷ codes s

unfoldable pub strip_prefix : Line → Line → Option Line
strip_prefix [] s = some s
strip_prefix (c ∷ p) [] = none
strip_prefix (c ∷ p) (d ∷ s) = let rest = strip_prefix p s in if eqb c d then rest else none

-- `char::is_whitespace`
unfoldable pub is_whitespace : ℕ → Bool
is_whitespace c =
    eqb c 32
    || (leb 9 c && leb c 13)
    || eqb c 133
    || eqb c 160
    || eqb c 5760
    || (leb 8192 c && leb c 8202)
    || eqb c 8232
    || eqb c 8233
    || eqb c 8239
    || eqb c 8287
    || eqb c 12288

-- A text without its first characters, or its last, that a test takes.
unfoldable pub trim_start_by : (ℕ → Bool) → Line → Line
trim_start_by test [] = []
trim_start_by test (c ∷ s) = let rest = trim_start_by test s in if test c then rest else c ∷ s

unfoldable pub cons_unless : (ℕ → Bool) → ℕ → Line → Line
cons_unless test c [] = if test c then [] else c ∷ []
cons_unless test c (d ∷ s) = c ∷ d ∷ s

unfoldable pub trim_end_by : (ℕ → Bool) → Line → Line
unfolding cons_unless
trim_end_by test [] = []
trim_end_by test (c ∷ s) = cons_unless test c (trim_end_by test s)

unfoldable pub trim : Line → Line
unfolding trim_start_by trim_end_by is_whitespace
trim s = trim_end_by is_whitespace (trim_start_by is_whitespace s)

abbrev pub to_first : ℕ → List Line → List Line
to_first c [] = (c ∷ []) ∷ []
to_first c (s ∷ rest) = (c ∷ s) ∷ rest

-- `str::split` by a character
unfoldable pub split : ℕ → Line → List Line
split at [] = [] ∷ []
split at (c ∷ s) = let rest = split at s in if eqb c at then [] ∷ rest else to_first c rest

abbrev pub or_else : {A : Type 0} → Option A → Option A → Option A
or_else (some a) later = some a
or_else none later = later

-- What follows the first occurrence of a text: the second part of `str::split_once`.
unfoldable pub after_first : Line → Line → Option Line
unfolding strip_prefix
after_first p [] = strip_prefix p []
after_first p (c ∷ s) = or_else (strip_prefix p (c ∷ s)) (after_first p s)

abbrev pub digit : ℕ → Option ℕ
digit c = if leb 48 c && leb c 57 then some (c - 48) else none

abbrev pub below_max : ℕ → Option ℕ
below_max n = if ltb n u64_mod then some n else none

-- `u64::from_str`, past the sign
unfoldable pub parse_digits : ℕ → Line → Option ℕ
parse_digits n [] = below_max n
parse_digits n (c ∷ s) = elim (digit c) [ none ↦ none | some d ↦ parse_digits (n * 10 + d) s ]

unfoldable pub parse_u64 : Line → Option ℕ
unfolding parse_digits
parse_u64 [] = none
parse_u64 (c ∷ []) = parse_digits 0 (c ∷ [])
parse_u64 (c ∷ d ∷ s) = if eqb c 43 then parse_digits 0 (d ∷ s) else parse_digits 0 (c ∷ d ∷ s)

abbrev pub list_of : {A : Type 0} → Option A → List A
list_of none = []
list_of (some a) = a ∷ []

-- `filter_map` of a parser, on trimmed texts
unfoldable pub parse_all : {A : Type 0} → (Line → Option A) → List Line → List A
unfolding trim
parse_all parse [] = []
parse_all parse (t ∷ ts) = list_of (parse (trim t)) ++ parse_all parse ts
