-- ===== src/Recording/Quantizer/Drift.antt =====
-- How far the quantized values drift from the values.
use native.Mathlib.Nat.{div-add-mod', mod-lt, mod-eq_of_lt, mul-mod_left}
use rustion.Prelude.{
  ℕ, ◌+◌, ◌-◌, ◌*◌, ◌/◌, ◌%◌, ◌^◌, ◌≤◌, ◌<◌, ◌≡◌, refl, ap, List, [], ◌∷◌, arith, All,
}
use rustion.Prelude.Int.{ℤ, pos, pos_part, neg_part, sub_ℕ, ◌+ℤ◌, ◌-ℤ◌, times, over}
use rustion.Recording.Quantizer.{Quantizer, new_quantizer, as_i128, as_u128, next, quantize}

abbrev pub sum : List ℕ → ℕ
sum [] = 0
sum (x ∷ xs) = x + sum xs

-- The error is within half a step.
pub record IsNear (z : Quantizer) : Type 0 where
  pub step : 0 < z.q
  pub small : z.q < 2 ^ 126
  pub above : pos_part z.error ≤ z.q - 1 - z.q / 2
  pub under : neg_part z.error ≤ z.q / 2

-- One value: what is put out is a multiple of the step, and the error makes up for the difference.
pub record Moves (z : Quantizer) (value out : ℕ) (z' : Quantizer) : Type 0 where
  pub near : IsNear z'
  pub same_q : z'.q ≡ z.q
  pub whole : out % z.q ≡ 0
  pub balance :
      value + pos_part z.error + neg_part z'.error ≡ out + pos_part z'.error + neg_part z.error

as_i128-small : (v : ℕ) → v < 2 ^ 126 → as_i128 v ≡ pos v
unfolding as_i128
as_i128-small v lt = ground arith

-- The corrected value and half a step, where the error is no less than minus half a step.
shifted :
    (v h : ℕ) (e : ℤ) → neg_part e ≤ h → pos v +ℤ e +ℤ pos h ≡ pos (v + pos_part e + h - neg_part e)
unfolding ◌+ℤ◌
shifted v h e le = ground arith

-- What is left is what the division leaves, less half a step.
left_over :
    (v m h r : ℕ) (e : ℤ)
    → v + pos_part e + h ≡ m + r + neg_part e
    → pos v +ℤ e -ℤ pos m ≡ sub_ℕ r h
unfolding ◌+ℤ◌ ◌-ℤ◌
left_over v m h r e eq = ground arith

next-steps :
    (z : Quantizer) (v : ℕ)
    → IsNear z
    → v < 2 ^ 126
    → let n = v + pos_part z.error + z.q / 2 - neg_part z.error in
      next z v ≡ (n / z.q * z.q, record z { error = sub_ℕ (n % z.q) (z.q / 2) })
unfolding next as_u128 times over
next-steps z v h lt =
    let n = v + pos_part z.error + z.q / 2 - neg_part z.error in
    let split : n / z.q * z.q + n % z.q ≡ n = div-add-mod' n z.q in
    let same : v + pos_part z.error + z.q / 2 ≡ n / z.q * z.q + n % z.q + neg_part z.error =
      let u = h.under in omega arith in
    let fits : n / z.q * z.q < 2 ^ 128 = let s = h.small in let a = h.above in omega arith in
    rw
      (
        as_i128-small v lt,
        shifted v (z.q / 2) z.error h.under,
        left_over v (n / z.q * z.q) (z.q / 2) (n % z.q) z.error same,
        mod-eq_of_lt fits,
      )
      refl

pub next-Moves :
    (z : Quantizer) (v : ℕ) → IsNear z → v < 2 ^ 126 → Moves z v (next z v).0 (next z v).1
next-Moves z v h lt =
    let n = v + pos_part z.error + z.q / 2 - neg_part z.error in
    let split : n / z.q * z.q + n % z.q ≡ n = div-add-mod' n z.q in
    let rest : n % z.q < z.q = mod-lt n h.step in
    let s = h.step in
    let sm = h.small in
    let a = h.above in
    let u = h.under in
    rw (next-steps z v h lt) (record {
      near = record { step = s; small = sm; above = ground arith; under = ground arith };
      same_q = refl;
      whole = mul-mod_left (n / z.q) z.q;
      balance = ground arith;
    })

-- The same from any error.
drift_from :
    (z : Quantizer) (vs : List ℕ)
    → IsNear z
    → All (λ v. v < 2 ^ 126) vs
    → (sum (quantize z vs) + neg_part z.error ≤ sum vs + pos_part z.error + z.q / 2)
      × (sum vs + pos_part z.error ≤ sum (quantize z vs) + neg_part z.error + z.q / 2)
      × All (λ w. w % z.q ≡ 0) (quantize z vs)
unfolding quantize
drift_from z [] h all = let a = h.above in let u = h.under in (omega arith, omega arith, tt)
drift_from z (v ∷ vs) h all =
    let m = next-Moves z v h all.0 in
    let b = m.balance in
    let s = m.same_q in
    let (least, most, whole) = drift_from (next z v).1 vs m.near all.1 in
    let half : (next z v).1.q / 2 ≡ z.q / 2 = ap (λ (q : ℕ). q / 2) s in
    (omega arith, omega arith, (m.whole, rw s at whole))

-- Half a step is all that the quantized values drift from the values, at any point, and each is a
-- whole number of steps.
pub quantize-drift :
    (q : ℕ) (vs : List ℕ)
    → 0 < q
    → q < 2 ^ 126
    → All (λ v. v < 2 ^ 126) vs
    → (sum (quantize (new_quantizer q) vs) ≤ sum vs + q / 2)
      × (sum vs ≤ sum (quantize (new_quantizer q) vs) + q / 2)
      × All (λ w. w % q ≡ 0) (quantize (new_quantizer q) vs)
unfolding new_quantizer
quantize-drift q vs p s all =
    let near : IsNear (new_quantizer q) = record {
      step = p;
      small = s;
      above = omega arith;
      under = omega arith;
    } in
    let (least, most, whole) = drift_from (new_quantizer q) vs near all in
    (omega arith, omega arith, whole)
