-- ===== src/Evaluator/Samples.antt =====
-- Samples in a row of one violation: `advance` of internal/evaluator/evaluator.go.
use mathlib.Core.Path.{subst}
use aero_arc_conformance.Prelude.{
  inl, inr, sym, String, false, ℕ, pos, suc, ◌+◌, ◌<◌, ◌≡◌, ◌⊎◌, refl, Bool, true, Option, none,
  some, List, [], ◌∷◌, ◌++◌, length, All, arith,
}
use aero_arc_conformance.Domain.Float.{Float64, zero_float}
use aero_arc_conformance.Domain.Types.{ViolationType, IncidentPhase, Transition}
use aero_arc_conformance.Domain.Assignment.{Observation}
use aero_arc_conformance.Domain.Incident.{IncidentState, IncidentTransition}
use aero_arc_conformance.Evaluator.Policy.{Policy}
use aero_arc_conformance.Evaluator.Advance.{advance, transition_at, cleared}

-- One sample of a violation: what the loop of `Evaluate` hands to `advance`.
pub record Sample : Type 0 where
  pub breached : Bool
  pub deviation : Float64
  pub observation : Observation

abbrev prepended : Option IncidentTransition → List IncidentTransition → List IncidentTransition
prepended none ts = ts
prepended (some t) ts = t ∷ ts

module _ (policy : Policy) (v : ViolationType) where
  abbrev pub step : IncidentState → Sample → IncidentState × Option IncidentTransition
  step s x = advance policy v s x.breached x.deviation x.observation

  -- The samples of one violation in a row, and the transitions that they emit.
  unfoldable pub run_samples : IncidentState → List Sample → IncidentState × List IncidentTransition
  unfolding advance
  run_samples s [] = (s, [])
  run_samples s (x ∷ xs) = let r = run_samples (step s x).0 xs in (r.0, prepended (step s x).1 r.1)

  abbrev pub IsQuiet : IncidentState → Type 0
  IsQuiet s = (s.phase ≡ IncidentPhase.unset) ⊎ (s.phase ≡ IncidentPhase.clear)

  -- A suspected incident below the threshold, after `n` samples outside.
  pub record IsSuspected (n : ℕ) (first : ℕ) (s : IncidentState) : Type 0 where
    pub phase_suspected : s.phase ≡ IncidentPhase.suspected
    pub outside : s.consecutive_outside ≡ n
    pub first_at : s.first_suspected_at ≡ first

  suspect_first :
      (s : IncidentState) (x : Sample) (k : ℕ)
      → policy.open_after_samples ≡ pos (suc (suc k))
      → IsQuiet s
      → s.consecutive_outside ≡ 0
      → x.breached ≡ true
      → IsSuspected 1 x.observation.observed_at (step s x).0 × ((step s x).1 ≡ none)
  unfolding advance
  suspect_first s x k p q z b = ground arith

  suspect_more :
      (s : IncidentState) (x : Sample) (n k first : ℕ)
      → policy.open_after_samples ≡ pos k
      → IsSuspected n first s
      → n + 1 < k
      → x.breached ≡ true
      → IsSuspected (suc n) first (step s x).0 × ((step s x).1 ≡ none)
  unfolding advance
  suspect_more s x n k first p q z b = ground arith

  open_last :
      (s : IncidentState) (x : Sample) (n first : ℕ)
      → policy.open_after_samples ≡ pos (suc n)
      → IsSuspected n first s
      → x.breached ≡ true
      → ((step s x).0.phase ≡ IncidentPhase.opened)
        × ((step s x).0.opened_at ≡ first)
        × ((step s x).0.opening_frame_id ≡ x.observation.frame_id)
        × ((step s x).1
            ≡ some (
                transition_at v Transition.opened x.observation.frame_id x.deviation x.observation))
  unfolding advance
  open_last s x n first p q b = ground arith

  abbrev pub IsBreached : Sample → Type 0
  IsBreached x = x.breached ≡ true

  IsSuspected-run :
      (xs : List Sample) (s : IncidentState) (n k first : ℕ)
      → policy.open_after_samples ≡ pos k
      → IsSuspected n first s
      → All IsBreached xs
      → n + length xs < k
      → IsSuspected (n + length xs) first (run_samples s xs).0 × ((run_samples s xs).1 ≡ [])
  unfolding run_samples
  IsSuspected-run [] s n k first p q bs h = (ground arith, refl)
  IsSuspected-run (x ∷ xs) s n k first p q bs h =
      let m = suspect_more s x n k first p q (omega arith) bs.0 in
      let r = IsSuspected-run xs (step s x).0 (suc n) k first p m.0 bs.1 (omega arith) in
      (ground arith, ground arith)

  run-append :
      (s : IncidentState) (xs ys : List Sample)
      → ((run_samples s (xs ++ ys)).0 ≡ (run_samples (run_samples s xs).0 ys).0)
        × ((run_samples s (xs ++ ys)).1
            ≡ (run_samples s xs).1 ++ (run_samples (run_samples s xs).0 ys).1)
  unfolding run_samples
  run-append s [] ys = (refl, refl)
  run-append s (x ∷ xs) ys = let r = run-append (step s x).0 xs ys in (r.0, ground arith)

  open_at_once :
      (s : IncidentState) (x : Sample)
      → policy.open_after_samples ≡ pos 1
      → IsQuiet s
      → s.consecutive_outside ≡ 0
      → x.breached ≡ true
      → ((step s x).0.phase ≡ IncidentPhase.opened)
        × ((step s x).0.opened_at ≡ x.observation.observed_at)
        × ((step s x).1
            ≡ some (
                transition_at v Transition.opened x.observation.frame_id x.deviation x.observation))
  unfolding advance
  open_at_once s x p q z b = ground arith

  abbrev pub first_time : List Sample → Sample → ℕ
  first_time [] x = x.observation.observed_at
  first_time (y ∷ ys) x = y.observation.observed_at

  pub opens_from :
      (s : IncidentState) (xs : List Sample) (x : Sample)
      → policy.open_after_samples ≡ pos (suc (length xs))
      → IsQuiet s
      → s.consecutive_outside ≡ 0
      → All IsBreached xs
      → x.breached ≡ true
      → let r = run_samples s (xs ++ x ∷ []) in
        ((run_samples s xs).1 ≡ [])
        × (r.1
            ≡ transition_at v Transition.opened x.observation.frame_id x.deviation x.observation
              ∷ [])
        × (r.0.phase ≡ IncidentPhase.opened)
        × (r.0.opened_at ≡ first_time xs x)
  unfolding run_samples
  opens_from s [] x p q z bs b = ground (arith, open_at_once s x p q z b)
  opens_from s (y ∷ ys) x p q z bs b =
      let start = suspect_first s y (length ys) p q z bs.0 in
      let middle =
        IsSuspected-run ys (step s y).0 1 (suc (suc (length ys))) y.observation.observed_at p
          start.0 bs.1 (omega arith) in
      let end =
        open_last (run_samples (step s y).0 ys).0 x (suc (length ys)) y.observation.observed_at p
          (ground arith) b in
      ground (arith, start, middle, end, run-append (step s y).0 ys (x ∷ []))

  -- An open incident that recovers: `n` samples inside in a row so far.
  pub record IsRecovering (n : ℕ) (opening : String) (s : IncidentState) : Type 0 where
    pub phase_open : (s.phase ≡ IncidentPhase.opened) ⊎ (s.phase ≡ IncidentPhase.recovering)
    pub inside : s.consecutive_inside ≡ n
    pub opening_frame : s.opening_frame_id ≡ opening

  recover_more :
      (s : IncidentState) (x : Sample) (n k : ℕ) (opening : String)
      → policy.recover_after_samples ≡ pos k
      → IsRecovering n opening s
      → n + 1 < k
      → x.breached ≡ false
      → IsRecovering (suc n) opening (step s x).0 × ((step s x).1 ≡ none)
  unfolding advance
  recover_more s x n k opening p q z b = ground arith

  resolve_last :
      (s : IncidentState) (x : Sample) (n : ℕ) (opening : String)
      → policy.recover_after_samples ≡ pos (suc n)
      → IsRecovering n opening s
      → x.breached ≡ false
      → ((step s x).0 ≡ cleared x.observation)
        × ((step s x).1
            ≡ some (transition_at v Transition.resolved opening zero_float x.observation))
  unfolding advance
  resolve_last s x n opening p q b = ground arith

  abbrev pub IsInside : Sample → Type 0
  IsInside x = x.breached ≡ false

  IsRecovering-run :
      (xs : List Sample) (s : IncidentState) (n k : ℕ) (opening : String)
      → policy.recover_after_samples ≡ pos k
      → IsRecovering n opening s
      → All IsInside xs
      → n + length xs < k
      → IsRecovering (n + length xs) opening (run_samples s xs).0 × ((run_samples s xs).1 ≡ [])
  unfolding run_samples
  IsRecovering-run [] s n k opening p q bs h = (ground arith, refl)
  IsRecovering-run (x ∷ xs) s n k opening p q bs h =
      let m = recover_more s x n k opening p q (omega arith) bs.0 in
      let r = IsRecovering-run xs (step s x).0 (suc n) k opening p m.0 bs.1 (omega arith) in
      (ground arith, ground arith)

  pub resolves_from :
      (s : IncidentState) (xs : List Sample) (x : Sample)
      → policy.recover_after_samples ≡ pos (suc (length xs))
      → IsRecovering 0 s.opening_frame_id s
      → All IsInside xs
      → x.breached ≡ false
      → let r = run_samples s (xs ++ x ∷ []) in
        ((run_samples s xs).1 ≡ [])
        × (r.1
            ≡ transition_at v Transition.resolved s.opening_frame_id zero_float x.observation ∷ [])
        × (r.0 ≡ cleared x.observation)
  unfolding run_samples
  resolves_from s xs x p q bs b =
      let middle =
        IsRecovering-run xs s 0 (suc (length xs)) s.opening_frame_id p q bs (omega arith) in
      let end =
        resolve_last (run_samples s xs).0 x (length xs) s.opening_frame_id p (ground arith) b in
      ground (arith, middle, end, run-append s xs (x ∷ []))

  -- A sample inside before the incident opens, and a breached one before it resolves.
  interrupted_suspicion :
      (s : IncidentState) (y : Sample)
      → IsQuiet s ⊎ (s.phase ≡ IncidentPhase.suspected)
      → y.breached ≡ false
      → IsQuiet (step s y).0 × ((step s y).1 ≡ none)
  unfolding advance
  interrupted_suspicion s y q b = ground arith

  interrupted_recovery :
      (s : IncidentState) (y : Sample)
      → (s.phase ≡ IncidentPhase.opened) ⊎ (s.phase ≡ IncidentPhase.recovering)
      → y.breached ≡ true
      → ((step s y).0.phase ≡ IncidentPhase.opened)
        × ((step s y).0.opening_frame_id ≡ s.opening_frame_id)
        × ((step s y).1 ≡ none)
  unfolding advance
  interrupted_recovery s y q b = ground arith

  pub starts_over :
      (s : IncidentState) (xs : List Sample) (y : Sample)
      → policy.open_after_samples ≡ pos (suc (length xs))
      → IsQuiet s
      → s.consecutive_outside ≡ 0
      → All IsBreached xs
      → y.breached ≡ false
      → IsQuiet (run_samples s (xs ++ y ∷ [])).0 × ((run_samples s (xs ++ y ∷ [])).1 ≡ [])
  unfolding run_samples
  starts_over s [] y p q z bs b = ground (arith, interrupted_suspicion s y (inl q) b)
  starts_over s (x ∷ xs) y p q z bs b =
      let start = suspect_first s x (length xs) p q z bs.0 in
      let middle =
        IsSuspected-run xs (step s x).0 1 (suc (suc (length xs))) x.observation.observed_at p
          start.0 bs.1 (omega arith) in
      let last : IncidentState = (run_samples (step s x).0 xs).0 in
      let end = interrupted_suspicion last y (inr middle.0.phase_suspected) b in
      let joined = run-append (step s x).0 xs (y ∷ []) in
      (subst IsQuiet (sym joined.0) end.0, ground (arith, start, middle, end, joined))

  pub breaks_recovery :
      (s : IncidentState) (xs : List Sample) (y : Sample)
      → policy.recover_after_samples ≡ pos (suc (length xs))
      → IsRecovering 0 s.opening_frame_id s
      → All IsInside xs
      → y.breached ≡ true
      → ((run_samples s (xs ++ y ∷ [])).0.phase ≡ IncidentPhase.opened)
        × ((run_samples s (xs ++ y ∷ [])).0.opening_frame_id ≡ s.opening_frame_id)
        × ((run_samples s (xs ++ y ∷ [])).1 ≡ [])
  unfolding run_samples
  breaks_recovery s xs y p q bs b =
      let middle =
        IsRecovering-run xs s 0 (suc (length xs)) s.opening_frame_id p q bs (omega arith) in
      let last : IncidentState = (run_samples s xs).0 in
      let end = interrupted_recovery last y middle.0.phase_open b in
      let opening = middle.0.opening_frame in
      let joined = run-append s xs (y ∷ []) in ground (arith, middle, opening, end, joined)
