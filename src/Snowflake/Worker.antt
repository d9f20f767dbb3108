-- ===== src/Snowflake/Worker.antt =====
-- The worker number that is made of an IPv4 address.
use moxt_cpp.Prelude.{
  ℕ, suc, ◌+◌, ◌-◌, ◌*◌, ◌%◌, ◌^◌, ◌≤◌, ◌<◌, ◌≡◌, refl, Bytes, [], ◌∷◌, ◌++◌, arith, ◌==◌,
  if◌then◌else◌, ap,
}
use moxt_cpp.Snowflake.{char_u32, worker_loop, ip_to_worker_id}

abbrev pub dots : Bytes → ℕ
dots [] = 0
dots (c ∷ s) = if c == b'.' then suc (dots s) else dots s

loop_end : (w n : ℕ) (s : Bytes) → 3 ≤ n → worker_loop w n s ≡ w
unfolding worker_loop
loop_end w n [] h = refl
loop_end w n (c ∷ s) h = ground arith

loop_prefix :
    (w n : ℕ) (p d e : Bytes) → 3 ≤ n + dots p → worker_loop w n (p ++ d) ≡ worker_loop w n (p ++ e)
unfolding worker_loop
loop_prefix w n [] d e h = ground (arith, loop_end w n d, loop_end w n e)
loop_prefix w n (c ∷ p) d e h = ground (
  arith,
  loop_prefix w (n + 1) p d e,
  loop_prefix ((w * 10 + (char_u32 c + 2 ^ 32 - b'0')) % 2 ^ 32) n p d e,
)

-- A worker number is below 1024, and two addresses that agree up to the third dot get the same one,
-- whatever stands behind it.
pub ip_to_worker_id-prefix :
    (p d e : Bytes)
    → dots p ≡ 3
    → (ip_to_worker_id (p ++ d) < 1024) × (ip_to_worker_id (p ++ d) ≡ ip_to_worker_id (p ++ e))
unfolding ip_to_worker_id
ip_to_worker_id-prefix p d e h =
    (omega arith, ap (λ w. w % 1024) (loop_prefix 0 0 p d e (omega arith)))
