-- ===== src/Onie/Text.antt =====
-- src/drivers/sdi_onie_eeprom.c: the strings that copy_bytes_to_string makes.
use opx_sdi_sys.Base.{
  ℕ, zero, suc, ◌-◌, ◌≤◌, ◌<◌, arith, inl, inr, Bool-cases, List, [], ◌∷◌, length, All, ◌==◌,
  Option, some, none,
}
use opx_sdi_sys.Base.Strings.{isprint}
use opx_sdi_sys.Onie.{prepend, string_or_empty, copy_printable, copy_bytes_to_string}

abbrev pub Printable : ℕ → Type 0
Printable c = (32 ≤ c) × (c < 127)

abbrev IsText : ℕ → Option (List ℕ) → Type 0
IsText n none = Unit {0}
IsText n (some s) = (length s ≤ n) × All Printable s

prepend-IsText :
    (n c : ℕ) (o : Option (List ℕ)) → Printable c → IsText n o → IsText (suc n) (prepend c o)
prepend-IsText n c none printable text = tt
prepend-IsText n c (some s) printable text = (omega (arith, text.0), (printable, text.1))

copy_printable-IsText : (n : ℕ) (src : List ℕ) → IsText n (copy_printable n src)
unfolding copy_printable
copy_printable-IsText zero src = (omega arith, tt)
copy_printable-IsText (suc n) [] = (omega arith, tt)
copy_printable-IsText (suc n) (c ∷ src) = elim (Bool-cases (c == 0)) [
  | inl e ↦ rw e (omega arith, tt)
  | inr e ↦ elim (Bool-cases (isprint c)) [
    | inl p ↦
        rw (e, p)
          (prepend-IsText n c (copy_printable n src) (ground arith, ground arith)
            (copy_printable-IsText n src))
    | inr p ↦ rw (e, p) tt
  ]
]

string_or_empty-IsText :
    (size : ℕ) (o : Option (List ℕ))
    → 0 < size
    → IsText (size - 1) o
    → (length (string_or_empty o) < size) × All Printable (string_or_empty o)
string_or_empty-IsText size none positive text = (positive, tt)
string_or_empty-IsText size (some s) positive text = (omega (arith, text.0), text.1)

-- For an array of at least one byte: the string that copy_bytes_to_string leaves in it is shorter than
-- the array and has only printable characters.
pub copy_bytes-fits :
    (dst_size : ℕ) (src : List ℕ)
    → 0 < dst_size
    → (length (copy_bytes_to_string dst_size src) < dst_size)
      × All Printable (copy_bytes_to_string dst_size src)
unfolding copy_bytes_to_string
copy_bytes-fits dst_size src positive =
    string_or_empty-IsText dst_size (copy_printable (dst_size - 1) src) positive
      (copy_printable-IsText (dst_size - 1) src)
