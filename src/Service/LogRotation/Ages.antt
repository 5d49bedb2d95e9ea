-- ===== src/Service/LogRotation/Ages.antt =====
-- src/service/log_rotation.rs: `older_than` is a comparison of times.
use app_salmon.Base.{
  ℕ, ◌<◌, ◌≤◌, ◌+◌, ◌-◌, Bool-cases, ◌≡◌, ◌⊎◌, inl, inr, refl, true, false, none, some,
  if◌then◌else◌, leb, arith,
}
use app_salmon.Base.Int.{pos, pos_part, neg_part, +ℤ_parts, ◌+ℤ◌, ◌≤ℤ◌, ◌<ℤ◌}
use app_salmon.Containers.{Duration}
use app_salmon.Ports.Filesystem.{SystemTime}
use app_salmon.Service.LogRotation.{older_than, duration_since, is_some_and}

reached-cases :
    (a b d : ℕ)
    → ((is_some_and (leb d) (if leb a b then some (b - a) else none) ≡ true) × (a + d ≤ b))
      ⊎ ((is_some_and (leb d) (if leb a b then some (b - a) else none) ≡ false) × (b < a + d))
reached-cases a b d = elim (Bool-cases (leb a b)) [
  | inl h ↦ rw (h) (ground arith)
  | inr h ↦ rw (h) (inr (refl, (ground arith)))
]

pub older_than-cases :
    (modified now : SystemTime) (d : Duration)
    → ((older_than modified now d ≡ true) × (modified +ℤ pos d ≤ℤ now))
      ⊎ ((older_than modified now d ≡ false) × (now <ℤ modified +ℤ pos d))
unfolding older_than duration_since
older_than-cases modified now d =
    elim (reached-cases (pos_part modified + neg_part now) (pos_part now + neg_part modified) d) [
      | inl h ↦ inl (h.0, ground (arith, +ℤ_parts modified (pos d), h.1))
      | inr h ↦ inr (h.0, ground (arith, +ℤ_parts modified (pos d), h.1))
    ]
