-- ===== src/Evaluator/Conditions.antt =====
-- The condition of an evaluation: the loop over the incidents in `Evaluate` of
-- internal/evaluator/evaluator.go, which ranges over a map and so in any order.
use mathlib.Core.List.{foldl, Perm, Permᴰ}
use mathlib.Core.Logic.{∥∥₁_elim}
use aero_arc_conformance.Prelude.{◌≡◌, refl, ap, ◌∙◌, Bool, ◌||◌, List, if◌then◌else◌, arith}
use aero_arc_conformance.Domain.Types.{Condition, ViolationType, IncidentPhase}
use aero_arc_conformance.Domain.Incident.{IncidentState, EvaluatorState, entries, lookup, or_empty}
use aero_arc_conformance.Evaluator.Advance.{is_phase}
use aero_arc_conformance.Evaluator.Evaluate.{raise_condition, condition_of}

abbrev Entry : Type 0
Entry = ViolationType × IncidentState

raise_comm :
    (c : Condition) (x y : Entry)
    → raise_condition (raise_condition c x) y ≡ raise_condition (raise_condition c y) x
unfolding raise_condition
raise_comm c x y = ground arith

Condition-set : IsSet Condition
Condition-set = hlevel

foldl-perm :
    {xs ys : List Entry}
    → Permᴰ xs ys
    → (c : Condition) → foldl raise_condition c xs ≡ foldl raise_condition c ys
foldl-perm Permᴰ.nil c = refl
foldl-perm (Permᴰ.cons {a = x} {l₂ = l} e p) c =
    foldl-perm p (raise_condition c x) ∙ ap (λ y. foldl raise_condition (raise_condition c y) l) e
foldl-perm (Permᴰ.swap {a = x} {b = y} {l = l} e f) c =
    ap (λ d. foldl raise_condition d l) (cc (raise_comm c x y))
foldl-perm (Permᴰ.trans p q) c = foldl-perm p c ∙ foldl-perm q c

condition_of-perm : (xs ys : List Entry) → Perm xs ys → condition_of xs ≡ condition_of ys
unfolding condition_of
condition_of-perm xs ys p = ∥∥₁_elim p (Condition-set _ _) (λ q. foldl-perm q Condition.conforming)

-- Some violation but telemetry loss is in the phase.
abbrev pub any_in : IncidentPhase → EvaluatorState → Bool
any_in p s =
    is_phase (or_empty (lookup s ViolationType.lateral)).phase p
    || is_phase (or_empty (lookup s ViolationType.vertical)).phase p
    || is_phase (or_empty (lookup s ViolationType.temporal)).phase p

-- The worst phase decides.
abbrev pub worst_condition : EvaluatorState → Condition
worst_condition s =
    if any_in IncidentPhase.opened s
    then Condition.non_conforming
    else if any_in IncidentPhase.suspected s
    then Condition.suspected
    else if any_in IncidentPhase.recovering s
    then Condition.recovering
    else Condition.conforming

condition_of-entries : (s : EvaluatorState) → condition_of (entries s) ≡ worst_condition s
unfolding condition_of
condition_of-entries s = ground arith

-- Whatever the order in which the map of incidents is ranged over, the condition is the one of the
-- worst phase among the lateral, vertical and temporal incidents: non-conforming if one is open,
-- else suspected if one is suspected, else recovering if one recovers, else conforming.
pub condition_of_any_order :
    (s : EvaluatorState) (order : List (ViolationType × IncidentState))
    → Perm order (entries s)
    → condition_of order ≡ worst_condition s
condition_of_any_order s order p = condition_of-perm order (entries s) p ∙ condition_of-entries s
