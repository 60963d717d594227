-- ===== src/App/Fees.antt =====
-- How `calculate_base_fee` of crates/node/executor/src/revm.rs moves the base fee.
use kora.Base.{
  ℕ, ◌+◌, ◌-◌, ◌*◌, ◌/◌, ◌%◌, ◌^◌, ◌≤◌, ◌<◌, ◌≡◌, refl, subst, ◌⊎◌, inl, inr, min, max, arith, ltb,
  ◌==◌, saturating_add, u64_max, Bool-cases, ==→eq,
}
use native.Mathlib.Nat.{div-le_of_le-mul, mul-le-mul_left, mul_comm}
use kora.App.{fee_delta, calculate_base_fee, u128_max}

min_le : (a : ℕ) → min a u128_max ≤ a
min_le a = omega arith

≤-trans : {a b c : ℕ} → a ≤ b → b ≤ c → a ≤ c
≤-trans h k = omega arith

-- A part of the target moves the fee by at most an eighth.
fee_delta_le : (fee gas target : ℕ) → gas ≤ target → fee_delta fee gas target 8 ≤ fee / 8
fee_delta_le fee gas target h =
    let scaled : min (fee * gas) u128_max ≤ target * fee =
      subst (λ n. min (fee * gas) u128_max ≤ n) (mul_comm fee target)
        (≤-trans (min_le (fee * gas)) (mul-le-mul_left fee h)) in
    let part : min (fee * gas) u128_max / target ≤ fee = div-le_of_le-mul target scaled in
    omega arith

-- The specification of a base fee's move.
pub record Moves (fee gas limit next : ℕ) : Type 0 where
  pub at_most : next ≤ fee + max (fee / 8) 1
  pub at_least : fee ≤ next + fee / 8
  pub fits : next ≤ u64_max
  pub rises : limit / 2 < gas → fee < next ⊎ next ≡ u64_max
  pub falls : gas ≤ limit / 2 → next ≤ fee
  pub stays : gas ≡ limit / 2 → next ≡ fee

same-Moves : (fee gas limit : ℕ) → fee ≤ u64_max → gas ≡ limit / 2 → Moves fee gas limit fee
same-Moves fee gas limit h k = record {
  at_most = omega arith;
  at_least = omega arith;
  fits = h;
  rises = λ g. ground arith;
  falls = λ g. omega arith;
  stays = λ g. refl;
}

up-Moves :
    (fee gas limit d : ℕ)
    → fee ≤ u64_max
    → limit / 2 < gas
    → d ≤ fee / 8
    → Moves fee gas limit (saturating_add fee (max d 1 % 2 ^ 64))
unfolding saturating_add
up-Moves fee gas limit d h k m =
    let word : max d 1 % 2 ^ 64 ≡ max d 1 = omega arith in
    rw word (record {
      at_most = ground arith;
      at_least = ground arith;
      fits = ground arith;
      rises = λ g. ground arith;
      falls = λ g. ground arith;
      stays = λ g. ground arith;
    })

down-Moves :
    (fee gas limit d : ℕ)
    → fee ≤ u64_max
    → gas < limit / 2
    → d ≤ fee / 8
    → Moves fee gas limit (fee - d % 2 ^ 64)
down-Moves fee gas limit d h k m = record {
  at_most = omega arith;
  at_least = omega arith;
  fits = omega arith;
  rises = λ g. ground arith;
  falls = λ g. omega arith;
  stays = λ g. ground arith;
}

-- For a block within twice its gas target, the next base fee is at most the fee and an eighth more
-- (or one more, where that is greater), at least the fee less an eighth, and a word of 64 bits. It
-- rises, or is the greatest word, where more gas was used than the target, does not rise where it
-- was not more, and stays where the target was met.
pub calculate_base_fee-Moves :
    (fee gas limit : ℕ)
    → fee ≤ u64_max
    → gas ≤ 2 * (limit / 2)
    → Moves fee gas limit (calculate_base_fee 2 8 fee gas limit)
unfolding calculate_base_fee saturating_add
calculate_base_fee-Moves fee gas limit h k =
    let target = limit / 2 in
    elim (Bool-cases (gas == target)) [
      | inl same ↦ rw same (same-Moves fee gas limit h (==→eq gas target same))
      | inr other ↦ elim (Bool-cases (ltb target gas)) [
        | inl over ↦
            rw (other, over)
              (up-Moves fee gas limit _ h (ground arith)
                (fee_delta_le fee (gas - target) target (omega arith)))
        | inr under ↦
            rw (other, under)
              (down-Moves fee gas limit _ h (ground arith)
                (fee_delta_le fee (target - gas) target (omega arith)))
      ]
    ]
