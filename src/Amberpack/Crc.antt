-- ===== src/Amberpack/Crc.antt =====
-- CRC-32 with the Castagnoli polynomial, as hash/crc32 of the Go standard library computes it; the
-- record format of amberpack/record.go rests on it.
use Prim.Native.Nat.{bit_xor}
use amber_store.Prelude.{
  ℕ, zero, suc, ◌-◌, ◌/◌, ◌%◌, ◌^◌, ◌≡◌, refl, ◌∙◌, arith, [], ◌∷◌, ◌++◌, ◌==◌, if◌then◌else◌,
  Bytes, IsU32,
}

-- One bit of a table entry, in the reversed representation of the polynomial.
shift_bit : ℕ → ℕ
shift_bit c = if c % 2 == 1 then bit_xor (c / 2) 0x82f63b78 else c / 2

rounds : ℕ → ℕ → ℕ
rounds zero c = c
rounds (suc n) c = rounds n (shift_bit c)

-- `crc = tab[byte(crc)^v] ^ (crc >> 8)` on a uint32.
step : ℕ → ℕ → ℕ
step c v = bit_xor (rounds 8 (bit_xor (c % 256) v)) (c / 256) % 2 ^ 32

steps : ℕ → Bytes → ℕ
steps c [] = c
steps c (v ∷ vs) = steps (step c v) vs

-- ^crc on a uint32
invert : ℕ → ℕ
invert c = 2 ^ 32 - 1 - c

-- crc32.Update
unfoldable pub update : ℕ → Bytes → ℕ
unfolding steps step rounds shift_bit invert
update c bs = invert (steps (invert c) bs)

-- crc32.Checksum
unfoldable pub checksum : Bytes → ℕ
unfolding update
checksum bs = update 0 bs

steps-lt : (c : ℕ) (bs : Bytes) → IsU32 c → IsU32 (steps c bs)
unfolding steps step
steps-lt c [] h = h
steps-lt c (v ∷ vs) h = steps-lt (step c v) vs (omega arith)

steps-append : (c : ℕ) (xs ys : Bytes) → steps c (xs ++ ys) ≡ steps (steps c xs) ys
unfolding steps
steps-append c [] ys = refl
steps-append c (x ∷ xs) ys = steps-append (step c x) xs ys

invert-IsU32 : (c : ℕ) → IsU32 (invert c)
unfolding invert
invert-IsU32 c = omega arith

invert-invert : (c : ℕ) → IsU32 c → invert (invert c) ≡ c
unfolding invert
invert-invert c h = omega arith

update-IsU32 : (c : ℕ) (bs : Bytes) → IsU32 (update c bs)
unfolding update
update-IsU32 c bs = omega arith

-- Two updates in a row are one update on both parts.
update-append : (c : ℕ) (xs ys : Bytes) → IsU32 c → update c (xs ++ ys) ≡ update (update c xs) ys
unfolding update
update-append c xs ys h =
    rw (steps-append, invert-invert (steps (invert c) xs) (steps-lt (invert c) xs (invert-IsU32 c)))

-- A sum over three parts, as three updates take it.
pub checksum-append :
    (xs ys zs : Bytes) → checksum (xs ++ (ys ++ zs)) ≡ update (update (update 0 xs) ys) zs
unfolding checksum
checksum-append xs ys zs =
    update-append 0 xs (ys ++ zs) (omega arith)
    ∙ update-append (update 0 xs) ys zs (update-IsU32 0 xs)

pub checksum-IsU32 : (bs : Bytes) → IsU32 (checksum bs)
unfolding checksum
checksum-IsU32 bs = update-IsU32 0 bs

-- The check value of CRC-32C.
check_value : checksum (49 ∷ 50 ∷ 51 ∷ 52 ∷ 53 ∷ 54 ∷ 55 ∷ 56 ∷ 57 ∷ []) ≡ 0xe3069283
unfolding checksum
check_value = refl
