-- ===== src/Base/Strings.antt =====
-- Strings of the C library, as lists of bytes without the final 0, in the C locale.
use opx_sdi_sys.Base.{
  ℕ, ◌+◌, ◌-◌, ◌*◌, ◌%◌, ◌^◌, Bool, true, false, ◌&&◌, ◌||◌, List, [], ◌∷◌, ltb, leb, ◌==◌,
  if◌then◌else◌, Option, none, some,
}

-- The string at the start of a buffer.
unfoldable pub c_string : List ℕ → List ℕ
c_string [] = []
c_string (b ∷ bs) = let rest = c_string bs in if b == 0 then [] else b ∷ rest

-- `strcmp(s, t) == 0`
unfoldable pub same_string : List ℕ → List ℕ → Bool
same_string [] [] = true
same_string [] (y ∷ ys) = false
same_string (x ∷ xs) [] = false
same_string (x ∷ xs) (y ∷ ys) = x == y && same_string xs ys

-- memcmp and strncmp with a constant without a 0: the buffer begins with it.
unfoldable pub begins_with : List ℕ → List ℕ → Bool
begins_with [] bs = true
begins_with (x ∷ xs) [] = false
begins_with (x ∷ xs) (b ∷ bs) = x == b && begins_with xs bs

-- The string from the last occurrence of a character on.
unfoldable pub strrchr : List ℕ → ℕ → Option (List ℕ)
strrchr [] c = none
strrchr (x ∷ xs) c =
    let later = strrchr xs c in
    elim later [ some s ↦ some s | none ↦ if x == c then some (x ∷ xs) else none ]

abbrev pub isprint : ℕ → Bool
isprint c = leb 32 c && ltb c 127

-- The value of a character as a digit, 36 for one that is none.
unfoldable pub digit_of : ℕ → ℕ
digit_of c =
    if leb 48 c && leb c 57
    then c - 48
    else if leb 65 c && leb c 90
    then c - 55
    else if leb 97 c && leb c 122
    then c - 87
    else 36

unfoldable pub digits_of : ℕ → ℕ → List ℕ → ℕ
unfolding digit_of
digits_of base n [] = n
digits_of base n (c ∷ cs) =
    let rest = digits_of base (n * base + digit_of c) cs in
    if ltb (digit_of c) base then rest else n

-- ULONG_MAX where the value does not fit.
abbrev saturated : ℕ → ℕ
saturated n = if ltb n (2 ^ 64) then n else 2 ^ 64 - 1

-- What follows a leading 0: `x` and a hexadecimal digit, or octal digits.
unfoldable pub prefixed : List ℕ → ℕ
unfolding digits_of digit_of
prefixed [] = 0
prefixed (x ∷ []) = digits_of 8 0 (x ∷ [])
prefixed (x ∷ c ∷ cs) =
    if (x == 120 || x == 88) && ltb (digit_of c) 16
    then saturated (digits_of 16 0 (c ∷ cs))
    else saturated (digits_of 8 0 (x ∷ c ∷ cs))

unfoldable pub unsigned_of : List ℕ → ℕ
unfolding digits_of prefixed
unsigned_of [] = 0
unsigned_of (c ∷ cs) = if c == 48 then prefixed cs else saturated (digits_of 10 0 (c ∷ cs))

-- The sign; a value after a minus is negated in an unsigned long.
unfoldable pub signed_of : List ℕ → ℕ
unfolding unsigned_of
signed_of [] = 0
signed_of (c ∷ cs) =
    if c == 43
    then unsigned_of cs
    else if c == 45
    then (2 ^ 64 - unsigned_of cs) % 2 ^ 64
    else unsigned_of (c ∷ cs)

-- strtoul with base 0, after white space.
unfoldable pub strtoul : List ℕ → ℕ
unfolding signed_of
strtoul [] = 0
strtoul (c ∷ cs) =
    let rest = strtoul cs in if (leb 9 c && leb c 13) || c == 32 then rest else signed_of (c ∷ cs)
