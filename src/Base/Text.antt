-- ===== src/Base/Text.antt =====
-- Texts as lists of characters, and decimal numerals: `std::to_string`, `std::stoi`.
use Prim.Native.Nat.{ℕ, zero, suc, ◌+◌, ◌-◌, ◌*◌, ◌/◌, ◌%◌, ◌<◌}
use Prim.Native.Char.{code}
use Prim.Native.String.{String}
use mathlib.Core.Path.{◌≡◌, refl, ◌∙◌}
use mathlib.Core.Bool.{Bool, true, false, ◌&&◌, ◌||◌}
use mathlib.Core.Logic.{inl, inr}
use mathlib.Core.List.{List, [], ◌∷◌}
use native.Mathlib.Omega.{arith}
use goby3_examples.Base.Lists.{All}
use goby3_examples.Base.Tests.{Bool-cases, ltb, leb, ◌==◌, if◌then◌else◌}
use goby3_examples.Base.Int.{ℤ, pos, negsuc}

abbrev pub Text : Type 0
Text = List ℕ

abbrev pub codes : String → Text
codes String.[] = []
codes (String.◌∷◌ c s) = code c ∷ codes s

-- `==` of texts.
unfoldable pub text_eq : Text → Text → Bool
text_eq [] [] = true
text_eq [] (d ∷ t) = false
text_eq (c ∷ s) [] = false
text_eq (c ∷ s) (d ∷ t) = (c == d) && text_eq s t

pub text_eq_refl : (s : Text) → text_eq s s ≡ true
unfolding text_eq
text_eq_refl [] = refl
text_eq_refl (c ∷ s) = ground (arith, text_eq_refl s)

pub text_eq→eq : (s t : Text) → text_eq s t ≡ true → s ≡ t
unfolding text_eq
text_eq→eq [] [] h = refl
text_eq→eq [] (d ∷ t) h = cc
text_eq→eq (c ∷ s) [] h = cc
text_eq→eq (c ∷ s) (d ∷ t) h = ground (arith, text_eq→eq s t)

abbrev pub digit : ℕ → ℕ
digit n = b'0' + n % 10

-- The digits of a number in front of a text. A numeral has at most as many digits as the number
-- plus one, so that is fuel enough (`value-to_string` would fail at less).
pub digits : ℕ → ℕ → Text → Text
digits zero n out = out
digits (suc fuel) n out = elim (n / 10 == 0) [
  | true ↦ digit n ∷ out
  | false ↦ digits fuel (n / 10) (digit n ∷ out)
]

-- `std::to_string` of an unsigned number.
unfoldable pub to_string : ℕ → Text
unfolding digits
to_string n = digits (suc n) n []

-- `std::to_string` of an int.
unfoldable pub to_string_ℤ : ℤ → Text
unfolding to_string
to_string_ℤ (pos n) = to_string n
to_string_ℤ (negsuc n) = b'-' ∷ to_string (suc n)

unfoldable pub is_digit : ℕ → Bool
is_digit c = leb b'0' c && leb c b'9'

-- The white space that `strtol` skips: a blank, or one of the codes 9 to 13.
abbrev pub is_space : ℕ → Bool
is_space c = (c == b' ') || (leb 9 c && leb c 13)

unfoldable pub skip_space : Text → Text
skip_space [] = []
skip_space (c ∷ s) = if is_space c then skip_space s else c ∷ s

-- The number that the digits at the front of a text spell, after those read so far.
unfoldable pub scan : Text → ℕ → ℕ
unfolding is_digit
scan [] n = n
scan (c ∷ s) n = elim (is_digit c) [ true ↦ scan s (n * 10 + (c - b'0')) | false ↦ n ]

unfoldable pub starts_with_digit : Text → Bool
unfolding is_digit
starts_with_digit [] = false
starts_with_digit (c ∷ s) = is_digit c

-- What `std::stoi` returns or throws.
pub data Stoi : Type 0 where
  parsed : ℤ → Stoi
  invalid_argument out_of_range : Stoi

abbrev pub int_limit : ℕ
int_limit = 2147483648

-- A magnitude behind its sign, held against the range of an int.
pub in_range : Bool → ℕ → Stoi
in_range false n = if ltb n int_limit then parsed (pos n) else out_of_range
in_range true zero = parsed (pos 0)
in_range true (suc n) = if ltb n int_limit then parsed (negsuc n) else out_of_range

pub magnitude : Bool → Text → Stoi
unfolding scan starts_with_digit in_range
magnitude minus s = if starts_with_digit s then in_range minus (scan s 0) else invalid_argument

pub signed : Text → Stoi
unfolding magnitude
signed [] = invalid_argument
signed (c ∷ s) =
    if c == b'-'
    then magnitude true s
    else if c == b'+'
    then magnitude false s
    else magnitude false (c ∷ s)

-- `std::stoi`: white space, a sign, digits; what follows the digits is not read.
unfoldable pub stoi : Text → Stoi
unfolding skip_space signed
stoi s = signed (skip_space s)

stoi_runs :
    (stoi (codes " 42x") ≡ parsed (pos 42))
    × (stoi (codes "-7") ≡ parsed (negsuc 6))
    × (stoi (codes "modem") ≡ invalid_argument)
    × (stoi (codes "2147483648") ≡ out_of_range)
    × (stoi (codes "-2147483648") ≡ parsed (negsuc 2147483647))
    × (to_string_ℤ (negsuc 41) ≡ codes "-42")
unfolding stoi to_string_ℤ
stoi_runs = (refl, refl, refl, refl, refl, refl)

scan-digit : (n m : ℕ) (out : Text) → scan (digit n ∷ out) m ≡ scan out (m * 10 + n % 10)
unfolding scan
scan-digit n m out = ground arith

-- Reading the digits of a number gives the number: the fuel suffices.
scan-digits : (fuel n : ℕ) (out : Text) → n < fuel → scan (digits fuel n out) 0 ≡ scan out n
unfolding digits
scan-digits zero n out h = elim h [ ]
scan-digits (suc fuel) n out h = ground (
  arith,
  scan-digits fuel (n / 10) (digit n ∷ out),
  scan-digit n 0 out,
  scan-digit n (n / 10) out,
)

pub value-to_string : (n : ℕ) → scan (to_string n) 0 ≡ n
unfolding to_string scan
value-to_string n = scan-digits (suc n) n [] (omega arith)

-- Two numbers with one numeral are equal.
pub to_string_inj : (m n : ℕ) → to_string m ≡ to_string n → m ≡ n
to_string_inj m n h = cc (value-to_string m, value-to_string n)

starts-digit : (n : ℕ) (out : Text) → starts_with_digit (digit n ∷ out) ≡ true
unfolding starts_with_digit
starts-digit n out = ground arith

digits-starts :
    (fuel n : ℕ) (out : Text)
    → starts_with_digit out ≡ true
    → starts_with_digit (digits fuel n out) ≡ true
unfolding digits
digits-starts zero n out h = h
digits-starts (suc fuel) n out h =
    ground (arith, digits-starts fuel (n / 10) (digit n ∷ out), starts-digit n out)

to_string-starts : (n : ℕ) → starts_with_digit (to_string n) ≡ true
unfolding to_string digits
to_string-starts n = ground (arith, digits-starts n (n / 10) (digit n ∷ []), starts-digit n [])

stoi_unsigned : (s : Text) → starts_with_digit s ≡ true → stoi s ≡ in_range false (scan s 0)
unfolding stoi starts_with_digit scan
stoi_unsigned [] h = cc
stoi_unsigned (c ∷ s) h = ground arith

stoi_minus : (s : Text) → starts_with_digit s ≡ true → stoi (b'-' ∷ s) ≡ in_range true (scan s 0)
unfolding stoi
stoi_minus s h = rw h

abbrev pub IsInt : ℤ → Type 0
IsInt (pos n) = n < int_limit
IsInt (negsuc n) = n < int_limit

-- `std::stoi` reads back every int that `std::to_string` writes.
pub stoi-to_string : (z : ℤ) → IsInt z → stoi (to_string_ℤ z) ≡ parsed z
unfolding to_string_ℤ in_range
stoi-to_string (pos n) h =
    stoi_unsigned (to_string n) (to_string-starts n) ∙ rw (value-to_string n) (ground arith)
stoi-to_string (negsuc n) h =
    stoi_minus (to_string (suc n)) (to_string-starts (suc n))
    ∙ rw (value-to_string (suc n)) (ground arith)

digits-All :
    (P : ℕ → Type 0)
    → ((d : ℕ) → P (digit d))
    → (fuel n : ℕ) (out : Text) → All P out
    → All P (digits fuel n out)
unfolding digits
digits-All P h zero n out o = o
digits-All P h (suc fuel) n out o = elim (Bool-cases (n / 10 == 0)) [
  | inl e ↦ rw (e, All) (h n, o)
  | inr e ↦ rw (e, All) (digits-All P h fuel (n / 10) (digit n ∷ out) (h n, o))
]

-- What holds of the sign and of each digit holds of all that a numeral consists of.
pub to_string_ℤ-All :
    (P : ℕ → Type 0) → P b'-' → ((d : ℕ) → P (digit d)) → (z : ℤ) → All P (to_string_ℤ z)
unfolding to_string_ℤ to_string
to_string_ℤ-All P m h (pos n) = digits-All P h (suc n) n [] tt
to_string_ℤ-All P m h (negsuc n) = (m, digits-All P h (suc (suc n)) (suc n) [] tt)
