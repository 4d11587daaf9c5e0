-- ===== src/Model/Time.antt =====
-- model/_convert.py: `normalizeDateTime`. An aware `DateTime` is a count of whole seconds since the
-- UTC epoch, which may be negative, and a number of microseconds below a million.
use ranger_ims_server.Prelude.{
  ℕ, ◌+◌, ◌*◌, ◌/◌, ◌%◌, ◌≤◌, ◌<◌, ◌≡◌, Bool, true, false, nat_eq, ◌==◌, ltb, arith, if◌then◌else◌,
}

-- `negsuc n` is -(n + 1).
pub data ℤ : Type 0 where
  pos : ℕ → ℤ
  negsuc : ℕ → ℤ

pub record DateTime : Type 0 where
  pub second : ℤ
  pub microsecond : ℕ

same_second : ℤ → ℤ → Bool
same_second (pos a) (pos b) = a == b
same_second (negsuc a) (negsuc b) = a == b
same_second (pos a) (negsuc b) = false
same_second (negsuc a) (pos b) = false

earlier_second : ℤ → ℤ → Bool
earlier_second (pos a) (pos b) = ltb a b
earlier_second (negsuc a) (negsuc b) = ltb b a
earlier_second (pos a) (negsuc b) = false
earlier_second (negsuc a) (pos b) = true

unfoldable pub same : DateTime → DateTime → Bool
unfolding same_second
same a b = if same_second a.second b.second then a.microsecond == b.microsecond else false

unfoldable pub before : DateTime → DateTime → Bool
unfolding same_second earlier_second
before a b =
    if same_second a.second b.second
    then ltb a.microsecond b.microsecond
    else earlier_second a.second b.second

-- `round(n, -4)`: to the nearest multiple of 10000, and from the middle to the even one.
round_4 : ℕ → ℕ
round_4 n =
    let q = n / 10000 in
    if ltb (n % 10000) 5000
    then q * 10000
    else if ltb 5000 (n % 10000)
    then (q + 1) * 10000
    else if q % 2 == 0
    then q * 10000
    else (q + 1) * 10000

round_microsecond : ℕ → ℕ
unfolding round_4
round_microsecond n = if round_4 n == 1000000 then 990000 else round_4 n

unfoldable pub normalize : DateTime → DateTime
unfolding round_microsecond
normalize t = record t { microsecond = round_microsecond t.microsecond }

-- Of a time with microseconds below a million, normalizing keeps the second and gives a multiple of
-- ten milliseconds below a million, at most 5 milliseconds away, or less than 10 at the end of the
-- second.
pub normalize_bounds :
    (t : DateTime)
    → t.microsecond < 1000000
    → ((normalize t).second ≡ t.second)
      × ((normalize t).microsecond % 10000 ≡ 0)
      × ((normalize t).microsecond ≤ 990000)
      × (t.microsecond < (normalize t).microsecond + 10000)
      × ((normalize t).microsecond ≤ t.microsecond + 5000)
      × (t.microsecond ≤ 995000 → t.microsecond ≤ (normalize t).microsecond + 5000)
unfolding normalize
normalize_bounds t h = ground arith

-- Normalizing a second time changes nothing.
pub normalize_idempotent :
    (t : DateTime) → t.microsecond < 1000000 → normalize (normalize t) ≡ normalize t
unfolding normalize
normalize_idempotent t h = ground arith
