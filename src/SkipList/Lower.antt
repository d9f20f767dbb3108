-- ===== src/SkipList/Lower.antt =====
-- moxt/skiplist/skiplist.hpp: the loop of `remove` that lowers the level of the list.
use native.Mathlib.Decide.{ℕ_discrete}
use mathlib.Core.Path.{subst}
use moxt_cpp.SkipList.{lower}
use moxt_cpp.SkipList.Heap.{Memory, get_forward}
use moxt_cpp.SkipList.Walk.{column, Slot, get_forward-Slot}
use moxt_cpp.Prelude.{◌≡◌, refl, ◌∙◌, ap, ℕ, zero, suc, ◌≤◌, ◌<◌, true, false, some, ◌==◌, arith}
use moxt_cpp.Prelude.Outcome.{Outcome, ok}

-- The level found: every level above it leads straight to the footer.
pub record Lowered (m : Memory) (header footer level level' : ℕ) : Type 0 where
  pub fits : level' ≤ level
  pub straight : (j : ℕ) → level' < j → j ≤ level → column m j header ≡ some footer

lower-zero : (header footer : ℕ) (m : Memory) → lower header footer zero m ≡ ok zero
unfolding lower
lower-zero header footer m = refl

lower-suc :
    (header footer level q : ℕ) (m : Memory)
    → get_forward header (suc level) m ≡ ok q
    → lower header footer (suc level) m ≡ elim (q == footer) as (λ b. Outcome ℕ) [
      | true ↦ lower header footer level m
      | false ↦ ok (suc level)
    ]
unfolding lower
lower-suc header footer level q m e = rw e refl

pub lower-Lowered :
    (m : Memory) (header footer level : ℕ) (after : ℕ → ℕ)
    → ((j : ℕ) → j ≤ level → Slot m j header)
    → ((j : ℕ) → j ≤ level → column m j header ≡ some (after j))
    → (level' : ℕ) × (lower header footer level m ≡ ok level')
      × Lowered m header footer level level'
lower-Lowered m header footer zero after s c = (
  zero,
  lower-zero header footer m,
  record { fits = omega arith; straight = λ j p q. absurd (omega arith) },
)
lower-Lowered m header footer (suc level) after s c =
    let e = lower-suc header footer level (after (suc level)) m (
      get_forward-Slot m (suc level) header (after (suc level)) (s (suc level) (omega arith))
        (c (suc level) (omega arith))) in
    elim (ℕ_discrete (after (suc level)) footer) [
      | yes f ↦
          let t : (after (suc level) == footer) ≡ true = ground arith in
          let r =
            lower-Lowered m header footer level after (λ j h. s j (omega arith))
              (λ j h. c j (omega arith)) in
          (
            r.0,
            e
                ∙ ap
                    (λ b. elim b as (λ b. Outcome ℕ) [
                      | true ↦ lower header footer level m
                      | false ↦ ok (suc level)
                    ])
                    t
                ∙ r.1,
            record {
              fits = omega (arith, r.2.fits);
              straight = λ j p q. elim (ℕ_discrete (suc level) j) [
                | yes d ↦
                    subst (λ j. column m j header ≡ some footer) d
                      (c (suc level) (omega arith) ∙ ap some f)
                | no d ↦ r.2.straight j p (omega arith)
              ];
            },
          )
      | no f ↦
          let t : (after (suc level) == footer) ≡ false = ground arith in
          (
            suc level,
            e
                ∙ ap
                    (λ b. elim b as (λ b. Outcome ℕ) [
                      | true ↦ lower header footer level m
                      | false ↦ ok (suc level)
                    ])
                    t,
            record { fits = omega arith; straight = λ j p q. absurd (omega arith) },
          )
    ]
