-- ===== src/Base/Numbers.antt =====
-- parseInt of JavaScript on the codes of a text, and what a Uint8Array keeps of a number.
use Prim.Native.Nat.{ℕ, zero, suc, ◌+◌, ◌-◌, ◌*◌, ◌%◌}
use Prim.Native.String.{String}
use Prim.Native.Char.{code}
use mathlib.Core.Bool.{Bool, ◌&&◌, ◌||◌}
use mathlib.Core.Option.{Option, none, some}
use mathlib.Core.List.{List, [], ◌∷◌}
use auth_sso.Base.Tests.{leb, ltb, nat_eq, if◌then◌else◌}
use auth_sso.Base.Ints.{ℤ, pos, negsuc}

-- The code points of a text.
abbrev pub codes : String → List ℕ
codes String.[] = []
codes (String.◌∷◌ c s) = code c ∷ codes s

-- What `\s` matches, and what parseInt and trim skip.
abbrev pub is_space : ℕ → Bool
is_space c =
    nat_eq c 32
    || (leb 9 c && leb c 13)
    || nat_eq c 160
    || nat_eq c 0x1680
    || (leb 0x2000 c && leb c 0x200a)
    || nat_eq c 0x2028
    || nat_eq c 0x2029
    || nat_eq c 0x202f
    || nat_eq c 0x205f
    || nat_eq c 0x3000
    || nat_eq c 0xfeff

abbrev pub below : ℕ → ℕ → Option ℕ
below radix d = if ltb d radix then some d else none

abbrev pub digit : ℕ → ℕ → Option ℕ
digit radix c =
    if leb 48 c && leb c 57
    then below radix (c - 48)
    else if leb 65 c && leb c 90
    then below radix (c - 55)
    else if leb 97 c && leb c 122
    then below radix (c - 87)
    else none

abbrev pub appended : ℕ → Option ℕ → ℕ → ℕ
appended radix none d = d
appended radix (some n) d = n * radix + d

-- The longest run of digits; `none` is NaN.
unfoldable pub read_digits : ℕ → Option ℕ → List ℕ → Option ℕ
read_digits radix read [] = read
read_digits radix read (c ∷ cs) = elim (digit radix c) [
  | none ↦ read
  | some d ↦ read_digits radix (some (appended radix read d)) cs
]

unfoldable pub skip_spaces : List ℕ → List ℕ
skip_spaces [] = []
skip_spaces (c ∷ cs) = let rest = skip_spaces cs in if is_space c then rest else c ∷ cs

abbrev without_prefix : ℕ → List ℕ → List ℕ
without_prefix radix (z ∷ x ∷ cs) =
    if nat_eq radix 16 && (nat_eq z 48 && (nat_eq x 120 || nat_eq x 88)) then cs else z ∷ x ∷ cs
without_prefix radix cs = cs

abbrev pub positive : Option ℕ → Option ℤ
positive none = none
positive (some n) = some (pos n)

abbrev negative : Option ℕ → Option ℤ
negative none = none
negative (some zero) = some (pos 0)
negative (some (suc n)) = some (negsuc n)

abbrev pub signed : ℕ → List ℕ → Option ℤ
signed radix [] = none
signed radix (c ∷ cs) =
    if nat_eq c 45
    then negative (read_digits radix none (without_prefix radix cs))
    else if nat_eq c 43
    then positive (read_digits radix none (without_prefix radix cs))
    else positive (read_digits radix none (without_prefix radix (c ∷ cs)))

-- parseInt(text, radix)
unfoldable pub parse_int : ℕ → List ℕ → Option ℤ
unfolding skip_spaces read_digits
parse_int radix cs = signed radix (skip_spaces cs)

abbrev pub to_uint8 : Option ℤ → ℕ
to_uint8 none = 0
to_uint8 (some (pos n)) = n % 256
to_uint8 (some (negsuc n)) = 255 - n % 256
