-- ===== src/Recording/Quantizer.antt =====
-- `Quantizer` of src/asciinema/util.rs. An `i128` is an integer here: nothing leaves its range as
-- long as the step and the values stay below 2 ^ 126.
pub mod Drift
use rustion.Prelude.{ℕ, ◌-◌, ◌/◌, ◌%◌, ◌^◌, List, [], ◌∷◌, ltb, if◌then◌else◌}
use rustion.Prelude.Int.{ℤ, pos, negsuc, sub_ℕ, ◌+ℤ◌, ◌-ℤ◌, times, over}

pub record Quantizer : Type 0 where
  pub q : ℕ
  pub error : ℤ

unfoldable pub new_quantizer : ℕ → Quantizer
new_quantizer q = record { q = q; error = pos 0 }

-- `as i128` of a u128, and back.
unfoldable pub as_i128 : ℕ → ℤ
as_i128 n = if ltb n (2 ^ 127) then pos n else sub_ℕ n (2 ^ 128)

unfoldable pub as_u128 : ℤ → ℕ
as_u128 (pos n) = n % 2 ^ 128
as_u128 (negsuc n) = 2 ^ 128 - 1 - n % 2 ^ 128

unfoldable pub next : Quantizer → ℕ → ℕ × Quantizer
unfolding as_i128 as_u128 ◌+ℤ◌ ◌-ℤ◌ times over
next z value =
    let error_corrected_value = as_i128 value +ℤ z.error in
    let steps = over (error_corrected_value +ℤ pos (z.q / 2)) z.q in
    let quantized_value = times steps z.q in
    (as_u128 quantized_value, record z { error = error_corrected_value -ℤ quantized_value })

-- The values of a sequence, one after the other.
unfoldable pub quantize : Quantizer → List ℕ → List ℕ
quantize z [] = []
quantize z (v ∷ vs) = let (w, z') = next z v in w ∷ quantize z' vs
