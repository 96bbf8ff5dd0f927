-- ===== src/Device/View.antt =====
-- The device that a table stands for.
use modbus_cpp.Prelude.{
  ℕ, zero, suc, ◌+◌, ◌-◌, ◌≤◌, ◌<◌, ◌≡◌, refl, sym, ap, ◌∙◌, inl, inr, true, false, leb, ltb,
  if◌then◌else◌, none, some, List, [], ◌∷◌, length, get_elem?, drop, take_exact, arith,
  take_exact_gt, length-drop,
}
use modbus_cpp.Block.{Block, with_container}
use modbus_cpp.Block.Range.{IsValid, InRange}
use modbus_cpp.Block.Cells.{Overwritten}
use modbus_cpp.Block.Kept.{mapped}
use modbus_cpp.Table.{Table}
use modbus_cpp.Device.{Space, Device, first_of, collect, store}
use mathlib.Core.Path.{fun_ext}
use native.Mathlib.Decide.{dec_le}
use native.Mathlib.Nat.{zero-add, suc-add}

abbrev pub cells : {A : Type 0} → Block A → Space A
cells b address =
    if leb b.starting_address address
    then get_elem? b.container (address - b.starting_address)
    else none

abbrev pub view : Table → Device
view t = record {
  coils = cells t.coils;
  discrete_inputs = cells t.discrete_inputs;
  holding_registers = cells t.holding_registers;
  input_registers = cells t.input_registers;
}

module _ {A : Type 0} where
  take_exact-step :
      (n i : ℕ) (xs : List A)
      → take_exact (suc n) (drop i xs) ≡ first_of (get_elem? xs i) (take_exact n (drop (suc i) xs))
  take_exact-step n zero [] = refl
  take_exact-step n zero (x ∷ xs) = refl
  take_exact-step n (suc i) [] = refl
  take_exact-step n (suc i) (x ∷ xs) = take_exact-step n i xs

  -- Reading address by address takes a part of the vector.
  pub collect-cells :
      (b : Block A) (address count : ℕ)
      → b.starting_address ≤ address
      → collect (cells b) address count
        ≡ take_exact count (drop (address - b.starting_address) b.container)
  unfolding collect
  collect-cells b address zero h = refl
  collect-cells b address (suc count) h =
      let above : leb b.starting_address address ≡ true = ground arith in
      let next : suc address - b.starting_address ≡ suc (address - b.starting_address) =
        omega arith in
      rw (above, collect-cells b (suc address) count (omega arith), next)
        (sym (take_exact-step count (address - b.starting_address) b.container))

  -- A nonempty range that does not lie in the block cannot be read.
  pub collect-cells_out :
      (b : Block A) (address count : ℕ)
      → IsValid b
      → 0 < count
      → ¬ InRange b address count
      → collect (cells b) address count ≡ none
  collect-cells_out b address zero v h out = elim h [ ]
  collect-cells_out b address (suc count) v h out = elim (dec_le b.starting_address address) [
    | yes above ↦
        collect-cells b address (suc count) above
        ∙ take_exact_gt (suc count) (drop (address - b.starting_address) b.container) (short above)
    | no below ↦
        let before : leb b.starting_address address ≡ false = ground arith in
        unfold collect in rw before
  ]
    where
      short :
          b.starting_address ≤ address
          → length (drop (address - b.starting_address) b.container) < suc count
      short above = elim (dec_le (address + suc count) (b.starting_address + b.capacity)) [
        | yes below ↦ absurd (out (record { some_cell = h; above = above; below = below }))
        | no past ↦ omega (arith, v.full, length-drop (address - b.starting_address) b.container)
      ]

  get_elem?-drop : (i j : ℕ) (xs : List A) → get_elem? (drop i xs) j ≡ get_elem? xs (i + j)
  get_elem?-drop zero j xs = rw zero-add
  get_elem?-drop (suc i) j [] = refl
  get_elem?-drop (suc i) j (x ∷ xs) = rw suc-add (get_elem?-drop i j xs)

  taken-get_elem? :
      (n j : ℕ) (xs ys : List A)
      → take_exact n xs ≡ some ys
      → j < n
      → get_elem? xs j ≡ get_elem? ys j
  taken-get_elem? zero j xs ys e h = elim h [ ]
  taken-get_elem? (suc n) j [] ys e h = absurd (cc)
  taken-get_elem? (suc n) zero (x ∷ xs) ys e h =
      let (zs, f, g) = mapped x ys (take_exact n xs) e in ap (λ vs. get_elem? vs 0) g
  taken-get_elem? (suc n) (suc j) (x ∷ xs) ys e h =
      let (zs, f, g) = mapped x ys (take_exact n xs) e in
      taken-get_elem? n j xs zs f (omega arith) ∙ ap (λ vs. get_elem? vs (suc j)) g

  -- After a write, the device holds the written values and keeps the others.
  cells-store_at :
      (b : Block A) (address : ℕ) (values ys : List A)
      → b.starting_address ≤ address
      → Overwritten (address - b.starting_address) values b.container ys
      → (x : ℕ) → cells (with_container b ys) x ≡ store address values (cells b) x
  unfolding store
  cells-store_at b address values ys h o x = elim (dec_le b.starting_address x) [
    | no before ↦
        let p : leb b.starting_address x ≡ false = ground arith in
        let q : leb address x ≡ false = ground arith in rw (p, q)
    | yes in_block ↦
        let p : leb b.starting_address x ≡ true = ground arith in
        elim (dec_le address x) [
          | no before ↦
              let q : leb address x ≡ false = ground arith in
              rw (p, q) (o.kept (x - b.starting_address) (inl (omega arith)))
          | yes after ↦
              let q : leb address x ≡ true = ground arith in
              elim (dec_le (address + length values) x) [
                | yes past ↦
                    let r : ltb x (address + length values) ≡ false = ground arith in
                    rw (p, q, r) (o.kept (x - b.starting_address) (inr (omega arith)))
                | no within ↦
                    let r : ltb x (address + length values) ≡ true = ground arith in
                    let i : x - b.starting_address ≡ address - b.starting_address + (x - address) =
                      omega arith in
                    rw (p, q, r, i)
                      (sym (get_elem?-drop (address - b.starting_address) (x - address) ys)
                        ∙ taken-get_elem? (length values) (x - address) _ values o.written
                            (omega arith))
              ]
        ]
  ]

  pub cells-store :
      (b : Block A) (address : ℕ) (values ys : List A)
      → b.starting_address ≤ address
      → Overwritten (address - b.starting_address) values b.container ys
      → cells (with_container b ys) ≡ store address values (cells b)
  cells-store b address values ys h o = fun_ext (cells-store_at b address values ys h o)
