-- ===== src/Prelude/Text.antt =====
-- Rust's `String` is its UTF-8 bytes here: the bytes of a literal, the decimal digits that `format!`
-- prints for an unsigned integer, and the test of `str::from_utf8`.
use Prim.Native.Nat.{ℕ, zero, suc, ◌+◌, ◌-◌, ◌*◌, ◌/◌, ◌%◌, ◌<◌}
use Prim.Native.Char.{code}
use Prim.Native.String.{String}
use mathlib.Core.Path.{◌≡◌, refl, sym, ap, ◌∙◌}
use mathlib.Core.Logic.{inl, inr}
use mathlib.Core.Bool.{◌||◌, true, Bool, false, ◌&&◌}
use mathlib.Core.Option.{Option, none, some}
use mathlib.Core.List.{[], ◌∷◌, ◌++◌}
use native.Mathlib.Omega.{arith}
use veiled.Prelude.Tests.{ltb, leb, ◌==◌, if◌then◌else◌, Bool-cases}
use veiled.Prelude.Words.{Bytes}

-- The bytes of an ASCII literal.
abbrev pub codes : String → Bytes
codes String.[] = []
codes (String.◌∷◌ c s) = code c ∷ codes s

decimal_fuel : ℕ → ℕ → Bytes
decimal_fuel zero n = []
decimal_fuel (suc f) n =
    let front = decimal_fuel f (n / 10) in (if ltb n 10 then [] else front) ++ (b'0' + n % 10) ∷ []

-- `format!("{n}")`: a number has fewer than n + 1 digits.
unfoldable pub decimal : ℕ → Bytes
unfolding decimal_fuel
decimal n = decimal_fuel (suc n) n

read_decimal : ℕ → Bytes → ℕ
read_decimal acc [] = acc
read_decimal acc (b ∷ bs) = read_decimal (acc * 10 + (b - b'0')) bs

read_decimal-append :
    (acc : ℕ) (xs ys : Bytes) → read_decimal acc (xs ++ ys) ≡ read_decimal (read_decimal acc xs) ys
unfolding read_decimal
read_decimal-append acc [] ys = refl
read_decimal-append acc (x ∷ xs) ys = read_decimal-append (acc * 10 + (x - b'0')) xs ys

read_decimal-decimal_fuel : (f n : ℕ) → n < f → read_decimal 0 (decimal_fuel f n) ≡ n
unfolding decimal_fuel
read_decimal-decimal_fuel zero n h = elim h [ ]
read_decimal-decimal_fuel (suc f) n h = elim (Bool-cases (ltb n 10)) [
  | inl small ↦ rw small (unfold read_decimal in ground arith)
  | inr large ↦
      rw (large, read_decimal-append, read_decimal-decimal_fuel f (n / 10) (ground arith))
        (unfold read_decimal in omega arith)
]

-- Two numbers that print alike are equal.
pub decimal_injective : (m n : ℕ) → decimal m ≡ decimal n → m ≡ n
unfolding decimal
decimal_injective m n e =
    sym (read_decimal-decimal_fuel (suc m) m (omega arith))
    ∙ ap (read_decimal 0) e
    ∙ read_decimal-decimal_fuel (suc n) n (omega arith)

-- The state of the UTF-8 decoder: continuation bytes that are due, and the range of the next one.
record Due : Type 0 where
  count : ℕ
  low : ℕ
  high : ℕ

abbrev rest : ℕ → Due
rest n = record { count = n; low = 0x80; high = 0xbf }

within : ℕ → ℕ → ℕ → Bool
within lo hi b = leb lo b && leb b hi

-- A first byte.
lead : ℕ → Option Due
lead b =
    if ltb b 0x80
    then some (rest 0)
    else if within 0xc2 0xdf b
    then some (rest 1)
    else if b == 0xe0
    then some (record { count = 2; low = 0xa0; high = 0xbf })
    else if b == 0xed
    then some (record { count = 2; low = 0x80; high = 0x9f })
    else if within 0xe1 0xef b
    then some (rest 2)
    else if b == 0xf0
    then some (record { count = 3; low = 0x90; high = 0xbf })
    else if within 0xf1 0xf3 b
    then some (rest 3)
    else if b == 0xf4
    then some (record { count = 3; low = 0x80; high = 0x8f })
    else none

advance : Due → ℕ → Option Due
advance d b =
    if d.count == 0
    then lead b
    else if within d.low d.high b
    then some (rest (d.count - 1))
    else none

decode : Due → Bytes → Bool
decode d [] = d.count == 0
decode d (b ∷ bs) = elim (advance d b) [ none ↦ false | some d' ↦ decode d' bs ]

unfoldable pub is_utf8 : Bytes → Bool
unfolding decode advance lead within
is_utf8 bs = decode (rest 0) bs

-- `str::is_char_boundary`: the end of the text, or a byte that continues no character.
unfoldable pub is_char_boundary : Bytes → ℕ → Bool
is_char_boundary [] zero = true
is_char_boundary [] (suc n) = false
is_char_boundary (b ∷ bs) zero = ltb b 128 || leb 192 b
is_char_boundary (b ∷ bs) (suc n) = is_char_boundary bs n

-- `char::is_whitespace` of a character's bytes.
is_whitespace : Bytes → Bool
is_whitespace (b ∷ []) = within 9 13 b || (b == 32)
is_whitespace (a ∷ (b ∷ [])) = (a == 0xc2) && ((b == 0x85) || (b == 0xa0))
is_whitespace (a ∷ (b ∷ (d ∷ []))) =
    (((a == 0xe1) && (b == 0x9a)) && (d == 0x80))
    || ((((a == 0xe2) && (b == 0x80))
          && (within 0x80 0x8a d || ((d == 0xa8) || ((d == 0xa9) || (d == 0xaf)))))
        || ((((a == 0xe2) && (b == 0x81)) && (d == 0x9f))
            || (((a == 0xe3) && (b == 0x80)) && (d == 0x80))))
is_whitespace _ = false

-- The bytes since the last whitespace are `seen`.
blank_after : Bytes → Bytes → Bool
blank_after [] [] = true
blank_after (b ∷ seen) [] = false
blank_after seen (b ∷ bs) =
    let char = seen ++ b ∷ [] in blank_after (if is_whitespace char then [] else char) bs

-- `text.trim().is_empty()`
unfoldable pub is_blank : Bytes → Bool
unfolding blank_after is_whitespace within
is_blank text = blank_after [] text
