-- ===== src/Nanopb/FieldDecoders/Allocate.antt =====
-- AppChat_Again/Pods/nanopb/pb_decode.c: the size that allocate_field asks for.
use app_chat_again.Prelude.{
  refl, inr, ◌≤◌, inl, ◌&&◌, false, true, Bool, arith, Bool-cases, ◌*◌, ◌/◌, leb, ◌||◌, ◌-◌, ◌==◌,
  ◌^◌, ltb, if◌then◌else◌, ◌<◌, ◌≡◌, ℕ,
}
use app_chat_again.Nanopb.FieldDecoders.{
  ℕ, allocate_field, after_realloc, load_pointer, return_error,
}
use app_chat_again.Nanopb.Memory.{Memory, Machine}
use app_chat_again.Nanopb.Types.{invalid_size, size_too_large}
use native.Mathlib.Nat.{div-lt_iff_lt-mul, mul_comm, mul-le-mul, mod-eq_of_lt}
use app_chat_again.Prelude.Words.{u64}

-- The test by division is that of the product.
division_test :
    (data_size array_size : ℕ)
    → 0 < array_size
    → ltb ((2 ^ 64 - 1) / array_size) data_size ≡ leb (2 ^ 64) (array_size * data_size)
division_test data_size array_size pos = ground (
  arith,
  div-lt_iff_lt-mul {k = array_size} {x = 2 ^ 64 - 1} {y = data_size} pos,
  mul_comm array_size data_size,
)

-- Two sizes below the limit of the shortcut.
small_product :
    (data_size array_size : ℕ)
    → (leb (2 ^ 32) data_size || leb (2 ^ 32) array_size) ≡ false
    → array_size * data_size < 2 ^ 64
small_product data_size array_size small =
    let below_data : data_size ≤ 2 ^ 32 - 1 = ground arith in
    let below_array : array_size ≤ 2 ^ 32 - 1 = ground arith in
    omega (arith, mul-le-mul below_array below_data)

large_product :
    (data_size array_size : ℕ)
    → leb (2 ^ 64) (array_size * data_size) ≡ true
    → (leb (2 ^ 32) data_size || leb (2 ^ 32) array_size) ≡ true
large_product data_size array_size large =
    elim (Bool-cases (leb (2 ^ 32) data_size || leb (2 ^ 32) array_size)) [
      | inl limit ↦ limit
      | inr small ↦ let h = small_product data_size array_size small in absurd (ground arith)
    ]

and_false : (b : Bool) → (b && false) ≡ false
and_false true = refl
and_false false = refl

-- allocate_field refuses a size of 0 and a product of 2 ^ 64 or more, and else asks for exactly the
-- product: the shortcut for small sizes lets no overflow through, and the multiplication never wraps.
pub allocate_field-product :
    (pb_realloc : ℕ → ℕ → Memory → ℕ × Memory) (p_data data_size array_size : ℕ) (s : Machine)
    → allocate_field pb_realloc p_data data_size array_size s ≡ (
        if data_size == 0 || array_size == 0
        then return_error invalid_size s
        else if leb (2 ^ 64) (array_size * data_size)
        then return_error size_too_large s
        else after_realloc p_data
            (pb_realloc (load_pointer p_data s.memory) (array_size * data_size) s.memory)
            s)
unfolding allocate_field
allocate_field-product pb_realloc p_data data_size array_size s =
    elim (Bool-cases (data_size == 0 || array_size == 0)) [
      | inl none_asked ↦ rw none_asked refl
      | inr asked ↦
          let pos : 0 < array_size = ground arith in
          elim (Bool-cases (leb (2 ^ 64) (array_size * data_size))) [
            | inl large ↦
                let limit = large_product data_size array_size large in
                rw (asked, limit, division_test data_size array_size pos, large) refl
            | inr fits ↦
                let exact : u64 (array_size * data_size) ≡ array_size * data_size =
                  mod-eq_of_lt (ground arith) in
                rw
                  (
                    asked,
                    division_test data_size array_size pos,
                    fits,
                    exact,
                    and_false (leb (2 ^ 32) data_size || leb (2 ^ 32) array_size),
                  )
                  refl
          ]
    ]
