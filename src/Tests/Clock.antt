-- ===== src/Tests/Clock.antt =====
-- Texts of times from which the times can be read again: a sign and the bits of two numbers.
use Prim.Native.Char.{Char, code}
use ranger_ims_server.Prelude.{
  ℕ, zero, suc, ◌+◌, ◌*◌, ◌/◌, ◌%◌, ◌<◌, String, ◌≡◌, inl, inr, false, nat_eq, ◌==◌, if◌then◌else◌,
  arith, Bool-cases,
}
use ranger_ims_server.Model.Time.{ℤ, pos, negsuc, DateTime}
use ranger_ims_server.Codec.Json.{Json, text, Result, ok, err, value_error}

abbrev dot : Char
dot = "."

abbrev bit : ℕ → Char
bit n = if n % 2 == 0 then "0" else "1"

bits : ℕ → ℕ → String → String
bits zero n s = String.◌∷◌ dot s
bits (suc fuel) n s =
    let rest = bits fuel (n / 2) s in if n == 0 then String.◌∷◌ dot s else String.◌∷◌ (bit n) rest

add_bit : Char → String → ℕ × String → ℕ × String
add_bit c s (n, rest) =
    if code c == 46 then (0, s) else if code c == 48 then (2 * n, rest) else (2 * n + 1, rest)

read : String → ℕ × String
unfolding add_bit
read String.[] = (0, "")
read (String.◌∷◌ c s) = add_bit c s (read s)

add-bit_lem :
    (n : ℕ) (s rest : String) → (n == 0) ≡ false → add_bit (bit n) rest (n / 2, s) ≡ (n, s)
unfolding add_bit nat_eq
add-bit_lem n s rest h = elim (Bool-cases (n % 2 == 0)) [
  | inl even ↦ rw even (ground arith)
  | inr odd ↦ rw odd (ground arith)
]

read-bits : (fuel n : ℕ) (s : String) → n < fuel → read (bits fuel n s) ≡ (n, s)
unfolding bits read nat_eq
read-bits zero n s h = elim h [ ]
read-bits (suc fuel) n s h = elim (Bool-cases (n == 0)) [
  | inl none_left ↦ rw none_left (ground arith)
  | inr more ↦
      rw (more, read-bits fuel (n / 2) s (ground arith))
        (add-bit_lem n s (bits fuel (n / 2) s) more)
]

text_of : ℤ → ℕ → String
text_of (pos n) m = String.◌∷◌ "+" (bits (suc n) n (bits (suc m) m ""))
text_of (negsuc n) m = String.◌∷◌ "-" (bits (suc n) n (bits (suc m) m ""))

unfoldable pub iso_format : DateTime → String
unfolding text_of bits nat_eq
iso_format t = text_of t.second t.microsecond

time_from : Char → ℕ → ℕ → DateTime
time_from c n m = record { second = if code c == 43 then pos n else negsuc n; microsecond = m }

after_sign : Char → ℕ × String → DateTime
unfolding time_from
after_sign c (n, rest) = time_from c n (read rest).0

parse_text : String → Result DateTime
parse_text String.[] = err value_error
parse_text (String.◌∷◌ c s) = ok (after_sign c (read s))

unfoldable pub parse_iso : Json → Result DateTime
unfolding parse_text after_sign read nat_eq
parse_iso (text s) = parse_text s
parse_iso v = err value_error

parse-text_of :
    (z : ℤ) (m : ℕ) → parse_text (text_of z m) ≡ ok (record { second = z; microsecond = m })
unfolding parse_text text_of after_sign nat_eq
parse-text_of (pos n) m =
    rw (read-bits (suc n) n (bits (suc m) m "") (omega arith), read-bits (suc m) m "" (omega arith))
parse-text_of (negsuc n) m =
    rw (read-bits (suc n) n (bits (suc m) m "") (omega arith), read-bits (suc m) m "" (omega arith))

pub parse-format : (t : DateTime) → parse_iso (text (iso_format t)) ≡ ok t
unfolding iso_format parse_iso
parse-format t = parse-text_of t.second t.microsecond
