-- ===== src/Listener/Times.antt =====
-- `listenerObservationTimeCoherent` of internal/model/listener_absence.go.
use route_doc.Common.{
  ℕ, zero, suc, ◌+◌, ◌-◌, ◌^◌, ◌<◌, ◌≤◌, ◌≡◌, ◌↔◌, ◌⊎◌, inl, inr, true, false, Bool, ℤ, pos, negsuc,
  is_negative, leb, if◌then◌else◌, arith, Bool-cases,
}
use route_doc.Model.Ids.{Time}
use route_doc.Model.Runs.{Policy}

-- A `time.Duration` is a signed 64-bit number of nanoseconds.
abbrev pub max_duration : ℕ
max_duration = 2 ^ 63 - 1

abbrev at_most : ℕ → ℕ → ℕ
at_most bound n = if leb n bound then n else bound

-- `t.Sub(u)` of Go's `time`, which stops at the ends of the range of durations
unfoldable pub time_sub : Time → Time → ℤ
time_sub t u =
    if leb u t
    then pos (at_most max_duration (t - u))
    else negsuc (at_most max_duration (u - t - 1))

-- `-d`, which leaves the least duration as it is
unfoldable pub negate : ℤ → ℤ
negate (pos zero) = pos zero
negate (pos (suc n)) = negsuc n
negate (negsuc n) = if leb max_duration n then negsuc n else pos (suc n)

-- `d <= e`
unfoldable pub duration_le : ℤ → ℤ → Bool
duration_le (pos m) (pos n) = leb m n
duration_le (pos m) (negsuc n) = false
duration_le (negsuc m) (pos n) = true
duration_le (negsuc m) (negsuc n) = leb n m

unfoldable pub time_coherent : Policy → Time → Time → Bool
time_coherent policy observed_at assessed_at =
    if is_negative policy.coherence_window_ns
    then false
    else let delta = time_sub observed_at assessed_at in
      duration_le (if is_negative delta then negate delta else delta) policy.coherence_window_ns

-- For a window below the longest duration, an observation and an assessment are coherent exactly
-- when neither is later than the other by more than the window, or the observation is earlier by
-- 2 ^ 63 nanoseconds or more.
pub time_coherent_iff :
    (w : ℕ) (observed_at assessed_at : Time)
    → w < max_duration
    → (time_coherent (record { coherence_window_ns = pos w }) observed_at assessed_at ≡ true) ↔ (
        ((observed_at ≤ assessed_at + w) × (assessed_at ≤ observed_at + w))
        ⊎ (observed_at + 2 ^ 63 ≤ assessed_at))
unfolding time_coherent time_sub negate duration_le is_negative
time_coherent_iff w o a fits = elim (Bool-cases (leb a o)) [
  | inl e ↦ elim (Bool-cases (leb (o - a) max_duration)) [
    | inl k ↦ rw (e, k) ground arith
    | inr k ↦ rw (e, k) ground arith
  ]
  | inr e ↦ elim (Bool-cases (leb (a - o - 1) max_duration)) [
    | inl k ↦
        rw (e, k)
          (elim (Bool-cases (leb max_duration (a - o - 1))) [
            | inl j ↦ rw j ground arith
            | inr j ↦ rw j ground arith
          ])
    | inr k ↦ rw (e, k) ground arith
  ]
]
