-- ===== src/Evaluator/Occurrences.antt =====
-- The transitions of a violation open and resolve its incidents in turn: internal/evaluator/
-- evaluator.go, against a ledger of the occurrence that is open.
use aero_arc_conformance.Prelude.{
  ◌≡◌, refl, ◌∙◌, inl, inr, Bool, true, false, Option, none, some, List, [], ◌∷◌, ◌++◌, String,
  keep_if, ◌==◌, string_eq, eq_self, if◌then◌else◌, ok, Bool-cases, arith,
}
use aero_arc_conformance.Prelude.{keep_if-append}
use aero_arc_conformance.Domain.Float.{Float64, Arithmetic}
use aero_arc_conformance.Domain.Types.{
  ViolationType, IncidentPhase, Transition, same_violation, same_violation_iff,
}
use aero_arc_conformance.Domain.Assignment.{Assignment, Observation}
use aero_arc_conformance.Domain.Incident.{
  IncidentState, EvaluatorState, IncidentTransition, Evaluation, lookup, store, or_empty,
}
use aero_arc_conformance.Evaluator.Policy.{Policy}
use aero_arc_conformance.Evaluator.Advance.{advance}
use aero_arc_conformance.Evaluator.Spatial.{Evidence, EvidenceByType, evidence_by_type}
use aero_arc_conformance.Evaluator.Evaluate.{
  Progress, appended, advance_known, advance_stored, advance_all, mark_unknown, next_state,
  evaluation_of,
}
use aero_arc_conformance.Evaluator.Batch.{batch_loop, evaluate_batch}
use aero_arc_conformance.Evaluator.Accepted.{batch_loop-Stepped, evaluate_batch-Started}

-- The frame that opened the occurrence which is open.
abbrev pub occurrence_of : IncidentPhase → String → Option String
occurrence_of IncidentPhase.opened frame = some frame
occurrence_of IncidentPhase.recovering frame = some frame
occurrence_of _ frame = none

abbrev pub occurrence : IncidentState → Option String
occurrence s = occurrence_of s.phase s.opening_frame_id

-- The open occurrence of a violation.
abbrev pub open_occurrence : EvaluatorState → ViolationType → Option String
open_occurrence s v = occurrence (or_empty (lookup s v))

-- The ledger: an opening needs that none is open and names its own frame; a resolution names the
-- frame that opened the occurrence; nothing else is accepted.
abbrev pub ledger : Option String → Transition → String → String → Option (Option String)
ledger none Transition.opened frame opening = if frame == opening then some (some opening) else none
ledger (some f) Transition.resolved frame opening = if f == opening then some none else none
ledger _ _ frame opening = none

abbrev and_then :
    Option (Option String) → (Option String → Option (Option String)) → Option (Option String)
and_then none k = none
and_then (some m) k = k m

abbrev pub ledger_of : Option String → List IncidentTransition → Option (Option String)
ledger_of o [] = some o
ledger_of o (t ∷ ts) =
    and_then (ledger o t.transition t.frame_id t.opening_frame_id) λ m. ledger_of m ts

abbrev pub of_violation : ViolationType → List IncidentTransition → List IncidentTransition
of_violation v ts = keep_if (λ t. same_violation t.violation v) ts

ledger_step-append :
    (m : Option String) (xs ys : List IncidentTransition) (r : Option (Option String))
    → ((o : Option String) → ledger_of o xs ≡ some m → ledger_of o (xs ++ ys) ≡ ledger_of m ys)
    → and_then r (λ o. ledger_of o xs) ≡ some m
    → and_then r (λ o. ledger_of o (xs ++ ys)) ≡ ledger_of m ys
ledger_step-append m xs ys none ih h = cc
ledger_step-append m xs ys (some o) ih h = ih o h

ledger_of-append :
    (o m : Option String) (xs ys : List IncidentTransition)
    → ledger_of o xs ≡ some m
    → ledger_of o (xs ++ ys) ≡ ledger_of m ys
ledger_of-append o m [] ys h = ground arith
ledger_of-append o m (x ∷ xs) ys h =
    ledger_step-append m xs ys (ledger o x.transition x.frame_id x.opening_frame_id)
      (λ k. ledger_of-append k m xs ys) h

-- One call of `advance` keeps the ledger.
abbrev pub Keeps :
    ViolationType → Option String → IncidentState × Option IncidentTransition → Type 0
Keeps v o (s, none) = occurrence s ≡ o
Keeps v o (s, some t) =
    (ledger o t.transition t.frame_id t.opening_frame_id ≡ some (occurrence s)) × (t.violation ≡ v)

pub advance-Keeps :
    (policy : Policy) (v : ViolationType) (s : IncidentState) (b : Bool) (d : Float64)
    (o : Observation)
    → Keeps v (occurrence s) (advance policy v s b d o)
unfolding advance
advance-Keeps policy v s b d o = ground (arith, eq_self o.frame_id, eq_self s.opening_frame_id)

-- What holds of a violation's state and of the transitions so far.
abbrev Consistent : ViolationType → Option String → Progress → Type 0
Consistent w o (s, ts) = ledger_of o (of_violation w ts) ≡ some (open_occurrence s w)

same_self : (v : ViolationType) → same_violation v v ≡ true
same_self v = ground arith

own_step :
    (v : ViolationType) (o : Option String) (t : IncidentTransition) (i : IncidentState)
    → Keeps v o (i, some t)
    → ledger_of o (of_violation v (t ∷ [])) ≡ some (occurrence i)
own_step v o t i k = ground (arith, same_self v)

other_step :
    (v w : ViolationType) (o : Option String) (t : IncidentTransition) (i : IncidentState)
    → Keeps v o (i, some t)
    → same_violation v w ≡ false
    → of_violation w (t ∷ []) ≡ []
other_step v w o t i k h = ground arith

open_occurrence-store :
    (s : EvaluatorState) (v w : ViolationType) (i : IncidentState)
    → open_occurrence (store s v (some i)) w
      ≡ (if same_violation v w then occurrence i else open_occurrence s w)
open_occurrence-store s ViolationType.lateral w i = ground arith
open_occurrence-store s _ w i = ground arith

stored-Consistent :
    (v w : ViolationType) (o : Option String) (s : EvaluatorState) (ts : List IncidentTransition)
    (i : IncidentState) (mt : Option IncidentTransition)
    → Keeps v (open_occurrence s v) (i, mt)
    → Consistent w o (s, ts)
    → Consistent w o (store s v (some i), appended ts mt)
stored-Consistent v w o s ts i none k c =
    ground (arith, open_occurrence-store s v w i, same_violation_iff v w)
stored-Consistent v w o s ts i (some t) k c = elim (Bool-cases (same_violation v w)) [
  | inl e ↦ rw (keep_if-append (λ x. same_violation x.violation w) ts (t ∷ [])) (
      ledger_of-append o (open_occurrence s w) (of_violation w ts) (of_violation w (t ∷ [])) c
      ∙ ground (
        arith,
        open_occurrence-store s v w i,
        same_violation_iff v w,
        own_step v (open_occurrence s v) t i k,
      ))
  | inr e ↦ rw (keep_if-append (λ x. same_violation x.violation w) ts (t ∷ [])) (
      ledger_of-append o (open_occurrence s w) (of_violation w ts) (of_violation w (t ∷ [])) c
      ∙ ground (arith, open_occurrence-store s v w i, other_step v w (open_occurrence s v) t i k))
]

advance_known-Consistent :
    (policy : Policy) (obs : Observation) (v w : ViolationType) (e : Option Evidence)
    (o : Option String) (p : Progress)
    → Consistent w o p
    → Consistent w o (advance_known policy obs v e p)
advance_known-Consistent policy obs v w none o p c = c
advance_known-Consistent policy obs v w (some e) o (s, ts) c = elim (Bool-cases e.known) [
  | inr no_evidence ↦ rw no_evidence c
  | inl evidence ↦ rw evidence (
      unfold advance_stored in
      (stored-Consistent v w o s ts
        (advance policy v (or_empty (lookup s v)) e.breached e.deviation obs).0
        (advance policy v (or_empty (lookup s v)) e.breached e.deviation obs).1
        (advance-Keeps policy v (or_empty (lookup s v)) e.breached e.deviation obs) c))
]

mark_unknown-occurrence :
    (e : EvidenceByType) (s : EvaluatorState) (v w : ViolationType)
    → open_occurrence (mark_unknown e s v) w ≡ open_occurrence s w
unfolding mark_unknown
mark_unknown-occurrence e s ViolationType.lateral w = ground arith
mark_unknown-occurrence e s _ w = ground arith

advance_all-Consistent :
    (policy : Policy) (obs : Observation) (e : EvidenceByType) (s : EvaluatorState)
    (w : ViolationType)
    → Consistent w (open_occurrence s w) (advance_all policy obs e s)
unfolding advance_all
advance_all-Consistent policy obs e s w =
    advance_known-Consistent policy obs ViolationType.temporal w _ _ _ (
      advance_known-Consistent policy obs ViolationType.vertical w _ _ _
        (advance_known-Consistent policy obs ViolationType.lateral w _ _ (s, []) refl))

module _ (ar : Arithmetic) (policy : Policy) (a : Assignment) (w : ViolationType) where
  next_state-Consistent :
      (obs : Observation) (s : EvaluatorState)
      → Consistent w (open_occurrence s w) (next_state ar policy a obs s)
  unfolding next_state
  next_state-Consistent obs s =
      let e = evidence_by_type ar policy a obs in
      let s1 = mark_unknown e s ViolationType.lateral in
      let same =
        mark_unknown-occurrence e s1 ViolationType.vertical w
        ∙ mark_unknown-occurrence e s ViolationType.lateral w in
      rw (← same) (advance_all-Consistent policy obs e (mark_unknown e s1 ViolationType.vertical) w)

  -- What an accepted evaluation says of the violation.
  abbrev Accounts : Option String → Evaluation → Type 0
  Accounts o r = ledger_of o (of_violation w r.transitions) ≡ some (open_occurrence r.state w)

  evaluation_of-Accounts :
      (obs : Observation) (s : EvaluatorState)
      → Accounts (open_occurrence s w) (evaluation_of ar policy a obs s)
  unfolding evaluation_of
  evaluation_of-Accounts obs s = next_state-Consistent obs s

  batch_loop-Accounts :
      (o : Option String) (last : Observation) (ts : List IncidentTransition) (r : Evaluation)
      (os : List Observation) (m : Evaluation)
      → ledger_of o (of_violation w ts) ≡ some (open_occurrence r.state w)
      → batch_loop ar policy a last ts r os ≡ ok m
      → Accounts o m
  unfolding batch_loop
  batch_loop-Accounts o last ts r [] m c h = ground arith
  batch_loop-Accounts o last ts r (x ∷ os) m c h =
      let st = batch_loop-Stepped ar policy a last ts r x os m h in
      batch_loop-Accounts o x (ts ++ st.next.transitions) st.next os m
        (rw (keep_if-append (λ t. same_violation t.violation w) ts st.next.transitions) (
          ledger_of-append o (open_occurrence r.state w) (of_violation w ts)
            (of_violation w st.next.transitions) c
          ∙ rw st.accepted.result (evaluation_of-Accounts x r.state)))
        st.rest

  -- In every batch that is accepted, the transitions of each violation, in their order, open and
  -- resolve its incidents in turn: an opening comes only while none is open and names its own frame,
  -- a resolution names the frame that opened the occurrence, no other transition is emitted, and
  -- the occurrence left open is the one of the final state.
  pub evaluate_batch-ledger :
      (observations : List Observation) (previous : EvaluatorState) (r : Evaluation)
      → evaluate_batch ar policy a observations previous ≡ ok r
      → ledger_of (open_occurrence previous w) (of_violation w r.transitions)
        ≡ some (open_occurrence r.state w)
  unfolding evaluate_batch
  evaluate_batch-ledger [] previous r h = cc
  evaluate_batch-ledger (o ∷ os) previous r h =
      let st = evaluate_batch-Started ar policy a o os previous r h in
      rw st.result (
        batch_loop-Accounts (open_occurrence previous w) o st.first.transitions st.first os st.last
          (rw st.accepted.result (evaluation_of-Accounts o previous)) st.loop)
