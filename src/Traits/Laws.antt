-- ===== src/Traits/Laws.antt =====
-- The largest number of replicas that an autoscaler asks for.
use rudr.Prelude.{◌+◌, ◌-◌, ◌^◌, ◌≤◌, ◌<◌, ◌≡◌, none, arith, unwrap_or, ltb, if◌then◌else◌}
use rudr.Prelude.Int.{ℤ, pos, negsuc, pos_part, neg_part, add_i32, as_i32}
use rudr.Traits.{Autoscaler}
use rudr.Traits.HpaObject.{to_horizontal_pod_autoscaler}

-- Ten more than a number, less 2 ^ 32 where that is beyond the range of `i32`.
abbrev pub ten_more : ℤ → ℤ
ten_more (pos n) = if ltb (n + 10) (2 ^ 31) then pos (n + 10) else negsuc (2 ^ 32 - (n + 10) - 1)
ten_more (negsuc n) = if ltb n 10 then pos (9 - n) else negsuc (n - 10)

add_i32-ten_more :
    (m : ℤ) → pos_part m < 2 ^ 31 → neg_part m ≤ 2 ^ 31 → add_i32 (pos 10) m ≡ ten_more m
unfolding add_i32 as_i32
add_i32-ten_more (pos n) h k = ground arith
add_i32-ten_more (negsuc n) h k = ground arith

-- An autoscaler without a maximum asks for at most ten replicas more than its minimum, whichever
-- `i32` that is, and for at most ten where it has no minimum either; where the sum is no `i32` it
-- wraps to a negative number.
pub max_replicas_default :
    (self : Autoscaler)
    → self.maximum ≡ none
    → pos_part (unwrap_or self.minimum (pos 0)) < 2 ^ 31
    → neg_part (unwrap_or self.minimum (pos 0)) ≤ 2 ^ 31
    → (to_horizontal_pod_autoscaler self).max_replicas ≡ ten_more (unwrap_or self.minimum (pos 0))
unfolding to_horizontal_pod_autoscaler
max_replicas_default self absent above below =
    rw (to_horizontal_pod_autoscaler, absent)
      (add_i32-ten_more (unwrap_or self.minimum (pos 0)) above below)
