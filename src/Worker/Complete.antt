-- ===== src/Worker/Complete.antt =====
-- What `readComplete` returns, and that it ends: internal/worker/evaluation.go.
use mathlib.Core.Path.{subst}
use aero_arc_conformance.Prelude.{
  ℕ, zero, suc, ◌-◌, ◌≤◌, ◌<◌, ◌≡◌, ◌≢◌, refl, ap, ◌∙◌, inl, inr, Bool, not, ◌&&◌, string_eq, List,
  [], ◌∷◌, ◌++◌, keep_if, Result, ok, err, ◌>>=◌, Bool-cases, arith, >>=-eq-ok, ltb→lt,
}
use aero_arc_conformance.Domain.Time.{Time, after, before}
use aero_arc_conformance.Domain.Assignment.{Observation}
use aero_arc_conformance.Worker.Claim.{WorkerError}
use aero_arc_conformance.Worker.Split.{
  ReadResult, SplitError, out_of_fuel, middle_of, deduplicate, joined, read_complete, is_saturated,
  as_split,
}
use aero_arc_conformance.Worker.Frames.{deduplicate_early, deduplicate_late}

middle_inside :
    (start end : ℕ)
    → start < middle_of start end
    → middle_of start end < end
    → (middle_of start end - start < end - start) × (end - middle_of start end < end - start)
middle_inside start end h k = omega arith

bind-out_of_fuel :
    (m n : Result SplitError ReadResult)
    → m ≢ err out_of_fuel
    → n ≢ err out_of_fuel
    → (m >>= λ left. n >>= λ right. ok (joined left right)) ≢ err out_of_fuel
bind-out_of_fuel (ok l) (ok r) h k e = cc
bind-out_of_fuel (ok l) (err x) h k e = k (cc)
bind-out_of_fuel (err x) n h k e = h (cc)

as_split-fueled : (r : Result WorkerError ReadResult) → as_split r ≢ err out_of_fuel
as_split-fueled (ok r) e = cc
as_split-fueled (err x) e = cc

module _ (read_positions : Time → Time → Result WorkerError ReadResult) where
  -- The halving ends: with more fuel than the window has nanoseconds it never runs out, so every
  -- read ends with a result or with an error of the reader.
  pub read_complete_total :
      (fuel start end : ℕ)
      → end - start < fuel
      → read_complete read_positions fuel start end ≢ err out_of_fuel
  unfolding read_complete
  read_complete_total zero start end h = absurd (omega arith)
  read_complete_total (suc fuel) start end h =
      let m = middle_of start end in
      elim (Bool-cases (is_saturated (read_positions start end))) [
        | inr unsaturated ↦ rw unsaturated (as_split-fueled (read_positions start end))
        | inl saturated ↦ rw saturated (elim (Bool-cases (after m start)) [
          | inr low ↦ rw low (λ e. cc)
          | inl above ↦ rw above (elim (Bool-cases (after end m)) [
            | inr high ↦ rw high (λ e. cc)
            | inl below ↦
                let inside = middle_inside start end (ltb→lt start m above) (ltb→lt m end below) in
                rw below (
                  bind-out_of_fuel (read_complete read_positions fuel start m)
                    (read_complete read_positions fuel m end)
                    (read_complete_total fuel start m (omega arith))
                    (read_complete_total fuel m end (omega arith)))
          ])
        ])
      ]

-- The telemetry of a window: at or after `start`, before `end`.
abbrev pub in_window : Time → Time → Observation → Bool
in_window start end o = not (before o.observed_at start) && before o.observed_at end

-- Event times do not fall, from `t` on.
abbrev pub Rising : Time → List Observation → Type 0
Rising t [] = Unit
Rising t (o ∷ os) = (t ≤ o.observed_at) × Rising o.observed_at os

window_empty :
    (s m e : Time) (os : List Observation) (t : Time)
    → m ≤ t
    → Rising t os
    → keep_if (in_window s m) os ≡ []
window_empty s m e [] t h k = refl
window_empty s m e (o ∷ os) t h k =
    ground (arith, window_empty s m e os o.observed_at (omega arith) k.1)

windows_join :
    (s m e : Time) (os : List Observation) (t : Time)
    → s ≤ m
    → m ≤ e
    → Rising t os
    → keep_if (in_window s m) os ++ keep_if (in_window m e) os ≡ keep_if (in_window s e) os
windows_join s m e [] t h k r = refl
windows_join s m e (o ∷ os) t h k r =
    ground (arith, windows_join s m e os o.observed_at h k r.1, window_empty s m e os o.observed_at)

-- A reader over fixed telemetry, in event-time order: what it returns for a window is the telemetry
-- of that window, the first observation of each frame only.
pub record ReadsWindows (read_positions : Time → Time → Result WorkerError ReadResult)
    (telemetry : List Observation) : Type 0 where
  pub rising : Rising 0 telemetry
  pub faithful :
      (start end : Time) (r : ReadResult)
      → read_positions start end ≡ ok r
      → r.observations ≡ deduplicate [] (keep_if (in_window start end) telemetry)

as_split-eq-ok : (m : Result WorkerError ReadResult) (r : ReadResult) → as_split m ≡ ok r → m ≡ ok r
as_split-eq-ok (ok x) r h = cc
as_split-eq-ok (err e) r h = cc

module _ (read_positions : Time → Time → Result WorkerError ReadResult)
    (telemetry : List Observation) (reads : ReadsWindows read_positions telemetry) where
  joined-window :
      (start m end : Time) (left right : ReadResult)
      → start ≤ m
      → m ≤ end
      → left.observations ≡ deduplicate [] (keep_if (in_window start m) telemetry)
      → right.observations ≡ deduplicate [] (keep_if (in_window m end) telemetry)
      → (joined left right).observations ≡ deduplicate [] (keep_if (in_window start end) telemetry)
  unfolding joined
  joined-window start m end left right h k l r =
      rw (l, r)
        (deduplicate_early [] [] (keep_if (in_window start m) telemetry) _ (λ f e. e)
          ∙ deduplicate_late [] (keep_if (in_window start m) telemetry)
              (keep_if (in_window m end) telemetry)
          ∙ ap (deduplicate []) (windows_join start m end telemetry 0 h k reads.rising))

  -- However often a saturated window is halved, a read that succeeds returns the telemetry of the
  -- whole window, in its order, the first observation of each frame only: no observation is lost at
  -- a boundary between halves and none is returned twice.
  pub read_complete_window :
      (fuel start end : ℕ) (r : ReadResult)
      → read_complete read_positions fuel start end ≡ ok r
      → r.observations ≡ deduplicate [] (keep_if (in_window start end) telemetry)
  unfolding read_complete
  read_complete_window zero start end r h = cc
  read_complete_window (suc fuel) start end r h =
      let m = middle_of start end in
      elim (Bool-cases (is_saturated (read_positions start end))) [
        | inr unsaturated ↦
            reads.faithful start end r
              (as_split-eq-ok (read_positions start end) r (rw unsaturated at h))
        | inl saturated ↦ elim (Bool-cases (after m start)) [
          | inr low ↦ cc (rw (saturated, low) at h)
          | inl above ↦ elim (Bool-cases (after end m)) [
            | inr high ↦ cc (rw (saturated, above, high) at h)
            | inl below ↦
                let (left, l, h1) =
                  >>=-eq-ok (read_complete read_positions fuel start m) _
                    (rw (saturated, above, below) at h) in
                let (right, r2, h2) = >>=-eq-ok (read_complete read_positions fuel m end) _ h1 in
                let s_le = ltb→lt start m above in
                let m_le = ltb→lt m end below in
                let e : joined left right ≡ r = cc in
                subst
                  (λ (x : ReadResult).
                    x.observations ≡ deduplicate [] (keep_if (in_window start end) telemetry))
                  e
                  (joined-window start m end left right (omega arith) (omega arith)
                    (read_complete_window fuel start m left l)
                    (read_complete_window fuel m end right r2))
          ]
        ]
      ]
