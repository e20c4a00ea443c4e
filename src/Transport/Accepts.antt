-- ===== src/Transport/Accepts.antt =====
-- What an accepted assignment passes later on: `assignmentFromProto` of
-- internal/transport/grpc/assignment_handler.go, the store's and the engine's validation.
use mathlib.Core.Path.{subst}
use aero_arc_conformance.Prelude.{
  ◌≡◌, refl, sym, ap, inl, inr, Bool, true, false, not, ◌||◌, ◌==◌, nat_eq, string_eq, ltb, Option,
  none, some, List, [], ◌∷◌, length, String, is_blank, not_blank-ne, suc, ok, ◌>>=◌, ◌>>◌, fail_if,
  >>=-eq-ok, err-not_ok, Bool-cases, arith, ==→eq,
}
use aero_arc_conformance.Domain.Float.{Float64, float_lt}
use aero_arc_conformance.Domain.Time.{Time, after, supported_unix_nanoseconds}
use aero_arc_conformance.Domain.Types.{AltitudeReference}
use aero_arc_conformance.Domain.Assignment.{Point, Volume, Assignment}
use aero_arc_conformance.Evaluator.Policy.{
  Policy, validate_points, validate_volumes, validate_assignment, valid_coordinate, finite,
}
use aero_arc_conformance.Store.Lifecycle.Prepare.{is_invalid_envelope}
use aero_arc_conformance.Transport.Messages.{PointMessage, VolumeMessage, AssignmentMessage}
use aero_arc_conformance.Transport.Convert.{
  ConvertError, valid_geographic_coordinate, valid_assignment_generation, valid_time,
  point_from_proto, convert_all, check_volume, volume_of, volume_from_message, volume_from_proto,
  is_bad_assignment, assignment_of, checked_assignment, assignment_from_message,
  assignment_from_proto, is_missing,
}

coordinate-valid :
    (lat lon : Float64)
    → valid_geographic_coordinate lat lon ≡ true
    → valid_coordinate lat lon ≡ true
unfolding valid_geographic_coordinate valid_coordinate finite
coordinate-valid lat lon h = ground arith

point_from_proto-valid :
    (x : Option PointMessage) (p : Point)
    → point_from_proto x ≡ ok p
    → valid_coordinate p.latitude p.longitude ≡ true
point_from_proto-valid none p h = absurd (err-not_ok _ p h)
point_from_proto-valid (some x) p h = ground (arith, coordinate-valid x.latitude x.longitude)

pub points-valid :
    (xs : List (Option PointMessage)) (ps : List Point)
    → convert_all point_from_proto xs ≡ ok ps
    → (validate_points ps ≡ ok tt) × (length ps ≡ length xs)
unfolding validate_points
points-valid [] ps h =
    let same : [] ≡ ps = cc in
    subst (λ qs. (validate_points qs ≡ ok tt) × (length qs ≡ 0)) same (refl, refl)
points-valid (x ∷ xs) ps h =
    let (p, first, h1) =
      >>=-eq-ok (point_from_proto x) (λ y. convert_all point_from_proto xs >>= λ ys. ok (y ∷ ys))
        h in
    let (qs, rest, h2) = >>=-eq-ok (convert_all point_from_proto xs) (λ ys. ok (p ∷ ys)) h1 in
    let valid = point_from_proto-valid x p first in
    let more = points-valid xs qs rest in
    let same : p ∷ qs ≡ ps = cc in
    subst (λ qs. (validate_points qs ≡ ok tt) × (length qs ≡ length (x ∷ xs))) same
      (rw valid more.0, ap suc more.1)

-- The tests of the engine on one volume, but for its points.
abbrev volume_fits : Volume → Bool
volume_fits v = not (
    v.id == ""
    || ltb (length v.polygon) 3
    || not (after v.ends_at v.starts_at)
    || float_lt v.altitude_upper_m v.altitude_lower_m
    || not (finite v.altitude_lower_m)
    || not (finite v.altitude_upper_m))

check_volume-fits :
    (v : VolumeMessage) (starts ends : Time) (r : AltitudeReference) (ps : List Point)
    → check_volume v starts ends ≡ ok r
    → length ps ≡ length v.polygon
    → volume_fits (volume_of v starts ends r ps) ≡ true
unfolding check_volume finite
check_volume-fits v starts ends r ps h same = ground (arith, not_blank-ne v.volume_id, same)

volume_from_proto-fits :
    (x : Option VolumeMessage) (v : Volume)
    → volume_from_proto x ≡ ok v
    → (volume_fits v ≡ true) × (validate_points v.polygon ≡ ok tt)
unfolding volume_from_message
volume_from_proto-fits none v h = absurd (err-not_ok _ v h)
volume_from_proto-fits (some m) v h =
    let polygon = λ (starts ends : Time) (r : AltitudeReference).
      convert_all point_from_proto m.polygon >>= λ ps. ok (volume_of m starts ends r ps) in
    let checked = λ (starts ends : Time). check_volume m starts ends >>= polygon starts ends in
    let ending =
      λ (starts : Time). valid_time ConvertError.bad_volume_times m.ends_at >>= checked starts in
    let (starts, _, h1) =
      >>=-eq-ok (valid_time ConvertError.bad_volume_times m.starts_at) ending h in
    let (ends, _, h2) =
      >>=-eq-ok (valid_time ConvertError.bad_volume_times m.ends_at) (checked starts) h1 in
    let (r, accepted, h3) = >>=-eq-ok (check_volume m starts ends) (polygon starts ends) h2 in
    let (ps, converted, h4) =
      >>=-eq-ok (convert_all point_from_proto m.polygon) (λ ps. ok (volume_of m starts ends r ps))
        h3 in
    let points = points-valid m.polygon ps converted in
    let same : volume_of m starts ends r ps ≡ v = cc in
    subst (λ w. (volume_fits w ≡ true) × (validate_points w.polygon ≡ ok tt)) same
      (check_volume-fits m starts ends r ps accepted points.1, points.0)

volumes_step :
    (v : Volume) (vs : List Volume)
    → volume_fits v ≡ true
    → validate_points v.polygon ≡ ok tt
    → validate_volumes vs ≡ ok tt
    → validate_volumes (v ∷ vs) ≡ ok tt
unfolding validate_volumes
volumes_step v vs fits points rest = ground arith

checked-good :
    (policy_version : String) (a b : Assignment)
    → checked_assignment policy_version a ≡ ok b
    → (a ≡ b) × (is_bad_assignment b policy_version ≡ false)
checked-good policy_version a b h = elim (Bool-cases (is_bad_assignment a policy_version)) [
  | inl bad ↦ absurd (err-not_ok _ b (rw bad at h))
  | inr good ↦
      let same : a ≡ b = cc (rw good at h) in
      (same, subst (λ c. is_bad_assignment c policy_version ≡ false) same good)
]

message_type_named : is_blank "assignment_prepared" ≡ false
unfolding is_blank
message_type_named = refl

same_version : (s t : String) → is_blank t ≡ false → (s == t) ≡ true → is_blank s ≡ false
same_version s t h e = subst (λ u. is_blank u ≡ false) (sym (==→eq s t e)) h

good-envelope :
    (a : Assignment) (source message_id policy_version : String)
    → is_blank source ≡ false
    → is_blank message_id ≡ false
    → is_blank policy_version ≡ false
    → is_bad_assignment a policy_version ≡ false
    → is_invalid_envelope (record {
      source = source;
      message_id = message_id;
      message_type = "assignment_prepared";
      assignment = a;
    })
      ≡ false
unfolding is_bad_assignment is_invalid_envelope valid_assignment_generation
good-envelope a source message_id policy_version h k n good =
    ground (arith, message_type_named, same_version a.policy_version policy_version n)

good-engine :
    (a : Assignment) (policy : Policy)
    → is_bad_assignment a policy.version ≡ false
    → validate_volumes a.volumes ≡ ok tt
    → validate_assignment a policy ≡ ok tt
unfolding is_bad_assignment validate_assignment valid_assignment_generation
    supported_unix_nanoseconds
good-engine a policy good volumes = ground (
  arith,
  not_blank-ne a.id,
  not_blank-ne a.aircraft_id,
  not_blank-ne a.agent_id,
  not_blank-ne a.flight_id,
  not_blank-ne a.intent_id,
)

volumes-valid :
    (xs : List (Option VolumeMessage)) (vs : List Volume)
    → convert_all volume_from_proto xs ≡ ok vs
    → validate_volumes vs ≡ ok tt
unfolding validate_volumes
volumes-valid [] vs h =
    let same : [] ≡ vs = cc in subst (λ ws. validate_volumes ws ≡ ok tt) same refl
volumes-valid (x ∷ xs) vs h =
    let (v, first, h1) =
      >>=-eq-ok (volume_from_proto x) (λ y. convert_all volume_from_proto xs >>= λ ys. ok (y ∷ ys))
        h in
    let (ws, rest, h2) = >>=-eq-ok (convert_all volume_from_proto xs) (λ ys. ok (v ∷ ys)) h1 in
    let fits = volume_from_proto-fits x v first in
    let more = volumes-valid xs ws rest in
    let same : v ∷ ws ≡ vs = cc in
    subst (λ us. validate_volumes us ≡ ok tt) same (volumes_step v ws fits.0 fits.1 more)

-- How a message came to an assignment.
pub record Converted (p : AssignmentMessage) (policy_version : String) (a : Assignment)
    : Type 0 where
  pub from : Time
  pub until : Time
  pub volumes : List Volume
  pub volumes_converted : convert_all volume_from_proto p.volumes ≡ ok volumes
  pub built : assignment_of p from until volumes ≡ a
  pub good : is_bad_assignment a policy_version ≡ false

pub assignment_from_message-Converted :
    (p : AssignmentMessage) (policy_version : String) (a : Assignment)
    → assignment_from_message p policy_version ≡ ok a
    → Converted p policy_version a
unfolding assignment_from_message
assignment_from_message-Converted p policy_version a h =
    let build = λ (from until : Time) (vs : List Volume).
      checked_assignment policy_version (assignment_of p from until vs) in
    let volumes =
      λ (from until : Time). convert_all volume_from_proto p.volumes >>= build from until in
    let ending = λ (from : Time).
      valid_time ConvertError.bad_effective_until p.effective_until >>= volumes from in
    let (from, _, h1) =
      >>=-eq-ok
        (fail_if (is_missing p.effective_from || is_missing p.effective_until)
            ConvertError.missing_assignment
          >> valid_time ConvertError.bad_effective_from p.effective_from)
        ending h in
    let (until, _, h2) =
      >>=-eq-ok (valid_time ConvertError.bad_effective_until p.effective_until) (volumes from) h1 in
    let (vs, converted, h3) =
      >>=-eq-ok (convert_all volume_from_proto p.volumes) (build from until) h2 in
    let (same, good) = checked-good policy_version (assignment_of p from until vs) a h3 in
    record {
      from = from;
      until = until;
      volumes = vs;
      volumes_converted = converted;
      built = same;
      good = good;
    }

-- An assignment that the handler accepts is valid to the store and to the engine: a command with a
-- source and a message identity is no invalid envelope, and the engine of the handler's policy
-- version validates the assignment.
pub assignment_from_proto-validate_assignment :
    (p : Option AssignmentMessage) (a : Assignment) (source message_id : String) (policy : Policy)
    → is_blank source ≡ false
    → is_blank message_id ≡ false
    → is_blank policy.version ≡ false
    → assignment_from_proto p policy.version ≡ ok a
    → (is_invalid_envelope (record {
      source = source;
      message_id = message_id;
      message_type = "assignment_prepared";
      assignment = a;
    })
        ≡ false)
      × (validate_assignment a policy ≡ ok tt)
unfolding assignment_from_proto
assignment_from_proto-validate_assignment none a source message_id policy h k n e =
    absurd (err-not_ok _ a e)
assignment_from_proto-validate_assignment (some p) a source message_id policy h k n e =
    let c = assignment_from_message-Converted p policy.version a e in
    let vs = volumes-valid p.volumes c.volumes c.volumes_converted in
    (
      good-envelope a source message_id policy.version h k n c.good,
      good-engine a policy c.good (subst (λ b. validate_volumes b.volumes ≡ ok tt) c.built vs),
    )
