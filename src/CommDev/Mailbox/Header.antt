-- ===== src/CommDev/Mailbox/Header.antt =====
-- The header of a message: what its check accepts and rejects.
use opx_sdi_sys.Base.{
  ℕ, zero, suc, ◌+◌, ◌-◌, ◌*◌, ◌/◌, ◌%◌, ◌^◌, ◌<◌, ◌≡◌, ◌≢◌, refl, ap, ◌∙◌, arith, true, false,
  List, [], ◌∷◌, ◌++◌, ==_iff, length, take, bit_and-mask,
}
use opx_sdi_sys.Base.Strings.{c_string}
use opx_sdi_sys.CommDev.Control.{bytes_of}
use opx_sdi_sys.CommDev.Mailbox.{
  MailboxHeader, header_bytes, header_of, add_bytes, add_string, added_checksum, checksum_of,
  check_mailbox_header, strlen, add_mailbox_header,
}

-- The struct with its two words read back.
pub header_of-header_bytes :
    (h : MailboxHeader) → h.checksum < 2 ^ 16 → h.size < 2 ^ 16 → header_of (header_bytes h) ≡ h
unfolding header_bytes header_of bytes_of
header_of-header_bytes h c s =
    λ i. record { checksum = word h.checksum c i; size = word h.size s i }
  where
    word : (x : ℕ) → x < 2 ^ 16 → x % 2 ^ 8 + x / 2 ^ 8 % 2 ^ 8 * 2 ^ 8 ≡ x
    word x h = omega arith

pub added_checksum-lt : (p : List ℕ) (size : ℕ) → added_checksum p size < 2 ^ 16
unfolding added_checksum
added_checksum-lt p size = omega arith

abbrev pub sum : List ℕ → ℕ
sum [] = 0
sum (b ∷ bs) = b + sum bs

-- The wrapped sum is the sum, wrapped.
add_bytes-sum : (acc : ℕ) (bs : List ℕ) → acc < 2 ^ 16 → add_bytes acc bs ≡ (acc + sum bs) % 2 ^ 16
unfolding add_bytes
add_bytes-sum acc [] h = omega arith
add_bytes-sum acc (b ∷ bs) h = omega (arith, add_bytes-sum ((acc + b) % 2 ^ 16) bs (omega arith))

add_string-sum :
    (acc : ℕ) (bs : List ℕ) → acc < 2 ^ 16 → add_string acc bs ≡ (acc + sum bs) % 2 ^ 16
unfolding add_string
add_string-sum acc [] h = omega arith
add_string-sum acc (b ∷ bs) h = omega (arith, add_string-sum ((acc + b) % 2 ^ 16) bs (omega arith))

-- Both functions sum the same bytes.
checksums_agree : (p : List ℕ) (size : ℕ) → checksum_of p size ≡ added_checksum p size
unfolding checksum_of added_checksum
checksums_agree p size = omega (
  arith,
  add_bytes-sum 0 (take size p) (omega arith),
  add_string-sum 0 (take size p) (omega arith),
)

pub check-add_self : (p : List ℕ) → check_mailbox_header p (add_mailbox_header p) ≡ true
unfolding check_mailbox_header add_mailbox_header
check-add_self p = (==_iff _ _).1 (checksums_agree p _)

sums_to_zero :
    (p : List ℕ) (size : ℕ)
    → size < 2 ^ 16
    → (sum (take size p) + size % 2 ^ 8 + size / 2 ^ 8 + added_checksum p size) % 2 ^ 16 ≡ 0
unfolding added_checksum
sums_to_zero p size small =
    omega (arith, add_string-sum 0 (take size p) (omega arith), bit_and-mask 8 size)

size-lt : (p : List ℕ) → (strlen p + 1) % 2 ^ 16 < 2 ^ 16
size-lt p = omega arith

pub header-sent :
    (p : List ℕ) → header_of (header_bytes (add_mailbox_header p)) ≡ add_mailbox_header p
unfolding add_mailbox_header
header-sent p = header_of-header_bytes (add_mailbox_header p) (added_checksum-lt p _) (size-lt p)

strlen_lem : (p : List ℕ) → strlen p ≡ length (c_string p)
unfolding strlen c_string
strlen_lem [] = refl
strlen_lem (zero ∷ bs) = refl
strlen_lem (suc b ∷ bs) = ground (arith, strlen_lem bs)

-- For any string, of the header that add_mailbox_header makes of it, sent as four bytes and read back:
-- its size is that of the string with its null, modulo 2 ^ 16; the bytes that the size counts, the two
-- bytes of the size and the checksum add up to 0 modulo 2 ^ 16; and the header passes
-- check_mailbox_header, which has a loop of its own, with the string.
pub check-add :
    (p : List ℕ)
    → ((header_of (header_bytes (add_mailbox_header p))).size ≡ (length (c_string p) + 1) % 2 ^ 16)
      × ((sum (take (header_of (header_bytes (add_mailbox_header p))).size p)
              + (header_of (header_bytes (add_mailbox_header p))).size % 2 ^ 8
              + (header_of (header_bytes (add_mailbox_header p))).size / 2 ^ 8
              + (header_of (header_bytes (add_mailbox_header p))).checksum)
            % 2 ^ 16
          ≡ 0)
      × (check_mailbox_header p (header_of (header_bytes (add_mailbox_header p))) ≡ true)
unfolding add_mailbox_header
check-add p = (
  ap (λ (h : MailboxHeader). h.size) (header-sent p) ∙ ap (λ n. (n + 1) % 2 ^ 16) (strlen_lem p),
  ap
        (λ (h : MailboxHeader).
          (sum (take h.size p) + h.size % 2 ^ 8 + h.size / 2 ^ 8 + h.checksum) % 2 ^ 16)
        (header-sent p)
      ∙ sums_to_zero p _ (size-lt p),
  ap (check_mailbox_header p) (header-sent p) ∙ check-add_self p,
)

-- The sum of a prefix that holds the byte after `xs`.
sum-take :
    (n : ℕ) (xs ys : List ℕ) (b : ℕ)
    → length xs < n
    → sum (take n (xs ++ b ∷ ys)) ≡ sum xs + b + sum (take (n - (length xs + 1)) ys)
sum-take zero xs ys b h = absurd (omega arith)
sum-take (suc n) [] ys b h = omega (arith, ap (λ k. sum (take k ys)) (one_less n))
  where
    one_less : (n : ℕ) → suc n - (0 + 1) ≡ n
    one_less n = omega arith
sum-take (suc n) (x ∷ xs) ys b h =
    omega
      (arith, sum-take n xs ys b (omega arith), ap (λ k. sum (take k ys)) (one_less n (length xs)))
  where
    one_less : (n m : ℕ) → suc n - (suc m + 1) ≡ n - (m + 1)
    one_less n m = omega arith

checksum_differs :
    (n : ℕ) (xs ys : List ℕ) (a b : ℕ)
    → length xs < n
    → a < 256
    → b < 256
    → a ≢ b
    → checksum_of (xs ++ a ∷ ys) n ≢ checksum_of (xs ++ b ∷ ys) n
unfolding checksum_of
checksum_differs n xs ys a b h la lb ne = omega (
  arith,
  add_bytes-sum 0 (take n (xs ++ a ∷ ys)) (omega arith),
  add_bytes-sum 0 (take n (xs ++ b ∷ ys)) (omega arith),
  sum-take n xs ys a h,
  sum-take n xs ys b h,
)

-- A message of bytes that passes the check no longer does when one byte of those that the header's
-- size counts is replaced by another byte.
pub check-corrupted :
    (h : MailboxHeader) (xs ys : List ℕ) (a b : ℕ)
    → length xs < h.size
    → a < 256
    → b < 256
    → a ≢ b
    → check_mailbox_header (xs ++ a ∷ ys) h ≡ true
    → check_mailbox_header (xs ++ b ∷ ys) h ≡ false
unfolding check_mailbox_header
check-corrupted h xs ys a b inside la lb ne passed =
    let e : checksum_of (xs ++ a ∷ ys) h.size ≡ h.checksum = (==_iff _ _).0 passed in
    ground (arith, e, checksum_differs h.size xs ys a b inside la lb ne)
