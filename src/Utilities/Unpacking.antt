-- ===== src/Utilities/Unpacking.antt =====
-- What `unpack` gives for a type of several bytes, wherever it reads.
use modbus_cpp.Prelude.{
  ℕ, ◌+◌, ◌/◌, ◌%◌, ◌≤◌, ◌<◌, ◌≡◌, ap, ◌∙◌, true, false, leb, some, [], ◌∷◌, ◌++◌, length, drop,
  take_exact, take_exact_gt, length-drop, arith,
}
use modbus_cpp.Types.{Packet}
use native.Mathlib.Nat.{div-eq_of_lt}
use modbus_cpp.Errors.{ok, throw, undefined, out_of_range}
use modbus_cpp.Frame.{word}
use modbus_cpp.Utilities.{Integral, uint16, uint32, network_to_host, unpack_wide, unpack}

-- The types of several bytes, with the size, the numbers and the big-endian bytes of each.
pub data IsWide : Integral → Type 0 where
  two : IsWide uint16
  four : IsWide uint32

abbrev pub width : {T : Integral} → IsWide T → ℕ
width two = 2
width four = 4

abbrev pub limit : {T : Integral} → IsWide T → ℕ
limit two = 65536
limit four = 4294967296

abbrev pub wire : {T : Integral} → IsWide T → ℕ → Packet
wire two n = word n []
wire four n = word (n / 65536) (word (n % 65536) [])

wide_past : (w k : ℕ) (p : Packet) (i : ℕ) → length p ≤ i → unpack_wide w k p i ≡ throw out_of_range
unfolding unpack_wide
wide_past w k p i h = let late : leb (length p) (i + k / w) ≡ true = ground arith in rw late

module _ (w : ℕ) (above : 4 < w) where
  two_none : 2 / w ≡ 0
  two_none = div-eq_of_lt (omega arith)

  four_none : 4 / w ≡ 0
  four_none = div-eq_of_lt (omega arith)

  wide_over :
      (k : ℕ) (p : Packet) (i : ℕ)
      → k / w ≡ 0
      → i < length p
      → length p < i + k
      → unpack_wide w k p i ≡ undefined
  unfolding unpack_wide
  wide_over k p i z h l =
      let early : leb (length p) (i + k / w) ≡ false = ground arith in
      let few : length (drop i p) < k = omega (arith, length-drop i p) in
      rw (early, take_exact_gt k (drop i p) few)

  wide_in :
      (k : ℕ) (p bytes : Packet) (i : ℕ)
      → k / w ≡ 0
      → i < length p
      → take_exact k (drop i p) ≡ some bytes
      → unpack_wide w k p i ≡ ok (network_to_host 0 bytes)
  unfolding unpack_wide
  wide_in k p bytes i z h e =
      let early : leb (length p) (i + k / w) ≡ false = ground arith in rw (early, e)

  two_bytes : (n : ℕ) → n < 65536 → network_to_host 0 (word n []) ≡ n
  unfolding network_to_host
  two_bytes n h = omega arith

  four_bytes :
      (n : ℕ) → n < 4294967296 → network_to_host 0 (word (n / 65536) (word (n % 65536) [])) ≡ n
  unfolding network_to_host
  four_bytes n h = omega arith

  nonempty : (p : Packet) (i b : ℕ) (rest : Packet) → drop i p ≡ b ∷ rest → i < length p
  nonempty p i b rest e = omega (arith, ap length e, length-drop i p)

  -- For a type of two or four bytes, `unpack` throws if it begins at the end of the packet or
  -- later, reads past the end if it begins in the packet with too few bytes left, and gives the
  -- number whose big-endian bytes stand there otherwise. Assumed: the platform's `size_type` has
  -- more than four bytes.
  pub unpack_lem :
      {T : Integral} (t : IsWide T) (p : Packet) (i : ℕ)
      → (length p ≤ i → unpack w T p i ≡ throw out_of_range)
        × (i < length p → length p < i + width t → unpack w T p i ≡ undefined)
        × ((n : ℕ) (rest : Packet)
            → n < limit t
            → drop i p ≡ wire t n ++ rest
            → unpack w T p i ≡ ok n)
  unfolding unpack
  unpack_lem two p i = (
    wide_past w 2 p i,
    wide_over 2 p i two_none,
    λ n rest h e.
        wide_in 2 p (word n []) i two_none (nonempty p i _ _ e) (rw e) ∙ ap ok (two_bytes n h),
  )
  unpack_lem four p i = (
    wide_past w 4 p i,
    wide_over 4 p i four_none,
    λ n rest h e.
        wide_in 4 p (wire four n) i four_none (nonempty p i _ _ e) (rw e) ∙ ap ok (four_bytes n h),
  )
