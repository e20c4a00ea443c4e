-- ===== src/Transport/RoundTrip.antt =====
-- Assignments through messages and back: `assignmentToProto` and `assignmentFromProto` of
-- internal/transport/grpc/assignment_handler.go.
use mathlib.Core.Path.{subst}
use aero_arc_conformance.Prelude.{
  suc, ◌<◌, ◌≡◌, refl, ap, Bool, true, false, not, ◌&&◌, ◌||◌, nat_eq, string_eq, ltb, Option, none,
  some, List, [], ◌∷◌, length, map, All, String, is_blank, Result, ok, ◌>>=◌, >>=-eq-ok, err-not_ok,
  arith,
}
use aero_arc_conformance.Domain.Float.{float_lt}
use aero_arc_conformance.Domain.Time.{Time, after, supported_unix_nanoseconds}
use aero_arc_conformance.Domain.Types.{AltitudeReference}
use aero_arc_conformance.Domain.Assignment.{Point, Volume, Assignment}
use aero_arc_conformance.Transport.Messages.{
  Timestamp, PointMessage, VolumeMessage, AssignmentMessage,
}
use aero_arc_conformance.Transport.Convert.{
  ConvertError, valid_geographic_coordinate, valid_time, point_from_proto, point_to_proto,
  convert_all, is_infinite_or_nan, check_volume, volume_of, volume_from_message, volume_from_proto,
  volume_to_proto, is_bad_assignment, assignment_from_message, assignment_from_proto,
  assignment_to_proto, reference_from_proto, reference_to_proto,
}
use aero_arc_conformance.Transport.Accepts.{assignment_from_message-Converted, points-valid}

module _ {ℓ} {Source Target Failure : Type ℓ} (f : Source → Result Failure Target) where
  convert_all-All :
      (P : Target → Type ℓ)
      → ((x : Source) (y : Target) → f x ≡ ok y → P y)
      → (xs : List Source) (ys : List Target) → convert_all f xs ≡ ok ys
      → All P ys
  convert_all-All P k [] ys h = let same : [] ≡ ys = cc in subst (All P) same tt
  convert_all-All P k (x ∷ xs) ys h =
      let (y, first, h1) = >>=-eq-ok (f x) (λ y. convert_all f xs >>= λ ys. ok (y ∷ ys)) h in
      let (rest, more, h2) = >>=-eq-ok (convert_all f xs) (λ ys. ok (y ∷ ys)) h1 in
      let same : y ∷ rest ≡ ys = cc in
      subst (All P) same (k x y first, convert_all-All P k xs rest more)

  convert_all-map :
      (P : Target → Type ℓ) (g : Target → Source)
      → ((y : Target) → P y → f (g y) ≡ ok y)
      → (ys : List Target) → All P ys
      → convert_all f (map g ys) ≡ ok ys
  convert_all-map P g k [] h = refl
  convert_all-map P g k (y ∷ ys) h = rw (k y h.0) (rw (convert_all-map P g k ys h.1) refl)

abbrev IsPoint : Point → Type 0
IsPoint p = valid_geographic_coordinate p.latitude p.longitude ≡ true

abbrev year_10000 : Time
year_10000 = 315537897600000000000

-- timestamppb.New gives a valid timestamp of the same time, up to the year 9999.
abbrev pub KeepsTimes : (Time → Timestamp) → Type 0
KeepsTimes new_timestamp =
    (t : Time)
    → t < year_10000
    → ((new_timestamp t).is_valid ≡ true) × ((new_timestamp t).as_time ≡ t)

abbrev pub HasTimes : Volume → Type 0
HasTimes v = (v.starts_at < year_10000) × (v.ends_at < year_10000)

-- The tests of `check_volume`, on the volume.
abbrev volume_good : Volume → Bool
volume_good v =
    not (is_infinite_or_nan v.altitude_lower_m || is_infinite_or_nan v.altitude_upper_m)
    && not (
        is_blank v.id
        || ltb (length v.polygon) 3
        || not (after v.ends_at v.starts_at)
        || float_lt v.altitude_upper_m v.altitude_lower_m)

record IsVolume (v : Volume) : Type 0 where
  good : volume_good v ≡ true
  points : All IsPoint v.polygon

check_volume-good :
    (m : VolumeMessage) (starts ends : Time) (r : AltitudeReference) (ps : List Point)
    → check_volume m starts ends ≡ ok r
    → length ps ≡ length m.polygon
    → volume_good (volume_of m starts ends r ps) ≡ true
unfolding check_volume
check_volume-good m starts ends r ps h same = ground (arith, same)

good_times :
    (a : Assignment) (policy_version : String)
    → is_bad_assignment a policy_version ≡ false
    → (a.effective_from < year_10000) × (a.effective_until < year_10000)
unfolding is_bad_assignment supported_unix_nanoseconds
good_times a policy_version good = ground arith

point-IsPoint : (x : Option PointMessage) (p : Point) → point_from_proto x ≡ ok p → IsPoint p
point-IsPoint none p h = absurd (err-not_ok _ p h)
point-IsPoint (some x) p h = ground arith

volume_from_message-IsVolume :
    (m : VolumeMessage) (v : Volume) → volume_from_message m ≡ ok v → IsVolume v
unfolding volume_from_message check_volume
volume_from_message-IsVolume m v h =
    let polygon = λ (starts ends : Time) (r : AltitudeReference).
      convert_all point_from_proto m.polygon >>= λ ps. ok (volume_of m starts ends r ps) in
    let checked = λ (starts ends : Time). check_volume m starts ends >>= polygon starts ends in
    let ending =
      λ (starts : Time). valid_time ConvertError.bad_volume_times m.ends_at >>= checked starts in
    let (starts, _, h1) =
      >>=-eq-ok (valid_time ConvertError.bad_volume_times m.starts_at) ending h in
    let (ends, _, h2) =
      >>=-eq-ok (valid_time ConvertError.bad_volume_times m.ends_at) (checked starts) h1 in
    let (r, accepted, h3) = >>=-eq-ok (check_volume m starts ends) (polygon starts ends) h2 in
    let (ps, converted, h4) =
      >>=-eq-ok (convert_all point_from_proto m.polygon) (λ ps. ok (volume_of m starts ends r ps))
        h3 in
    let size = points-valid m.polygon ps converted in
    let same : volume_of m starts ends r ps ≡ v = cc in
    subst IsVolume same (record {
      good = check_volume-good m starts ends r ps accepted size.1;
      points = convert_all-All point_from_proto IsPoint point-IsPoint m.polygon ps converted;
    })

volume_from_proto-IsVolume :
    (x : Option VolumeMessage) (v : Volume) → volume_from_proto x ≡ ok v → IsVolume v
volume_from_proto-IsVolume none v h = absurd (err-not_ok _ v h)
volume_from_proto-IsVolume (some m) v h = volume_from_message-IsVolume m v h

abbrev CanReturn : Volume → Type 0
CanReturn v = IsVolume v × HasTimes v

both : (vs : List Volume) → All IsVolume vs → All HasTimes vs → All CanReturn vs
both [] h k = tt
both (v ∷ vs) h k = ((h.0, k.0), both vs h.1 k.1)

reference_round_trip : (r : AltitudeReference) → reference_from_proto (reference_to_proto r) ≡ ok r
reference_round_trip AltitudeReference.msl = refl
reference_round_trip AltitudeReference.agl = refl

length-map {ℓ} : {A B : Type ℓ} (f : A → B) (xs : List A) → length (map f xs) ≡ length xs
length-map f [] = refl
length-map f (x ∷ xs) = ap suc (length-map f xs)

module _ (new_timestamp : Time → Timestamp) (keeps : KeepsTimes new_timestamp) where
  point_round_trip :
      (p : Point) → IsPoint p → point_from_proto (point_to_proto new_timestamp p) ≡ ok p
  point_round_trip p h = rw h refl

  time_round_trip :
      (e : ConvertError) (t : Time) → t < year_10000 → valid_time e (some (new_timestamp t)) ≡ ok t
  time_round_trip e t h = let (valid, same) = keeps t h in rw valid (rw same refl)

  check_round_trip :
      (v : Volume)
      → volume_good v ≡ true
      → check_volume (volume_to_proto new_timestamp v) v.starts_at v.ends_at
        ≡ ok v.altitude_reference
  unfolding check_volume volume_to_proto
  check_round_trip v h = ground (
    arith,
    length-map (point_to_proto new_timestamp) v.polygon,
    reference_round_trip v.altitude_reference,
  )

  volume_round_trip :
      (v : Volume) → CanReturn v → volume_from_proto (some (volume_to_proto new_timestamp v)) ≡ ok v
  unfolding volume_from_message volume_to_proto
  volume_round_trip v (is, (starts, ends)) =
      rw (time_round_trip ConvertError.bad_volume_times v.starts_at starts) (
        rw (time_round_trip ConvertError.bad_volume_times v.ends_at ends) (
          rw (check_round_trip v is.good) (
            rw
              (convert_all-map point_from_proto IsPoint (point_to_proto new_timestamp)
                point_round_trip v.polygon is.points)
              refl)))

  rebuilt :
      (a : Assignment) (policy_version : String)
      → is_bad_assignment a policy_version ≡ false
      → All CanReturn a.volumes
      → assignment_from_message (assignment_to_proto new_timestamp a) policy_version ≡ ok a
  unfolding assignment_from_message assignment_to_proto
  rebuilt a policy_version good h =
      let times = good_times a policy_version good in
      rw (time_round_trip ConvertError.bad_effective_from a.effective_from times.0) (
        rw (time_round_trip ConvertError.bad_effective_until a.effective_until times.1) (
          rw
            (convert_all-map volume_from_proto CanReturn
              (λ v. some (volume_to_proto new_timestamp v)) volume_round_trip a.volumes h)
            (rw good refl)))

-- An assignment that `assignmentFromProto` has accepted, written as a message by
-- `assignmentToProto` and read again, is the same assignment, provided that the times of its volumes
-- are before the year 10000 and that timestamppb.New keeps such times.
pub assignment_from_proto-assignment_to_proto :
    (new_timestamp : Time → Timestamp)
    → KeepsTimes new_timestamp
    → (p : Option AssignmentMessage) (policy_version : String) (a : Assignment)
    → assignment_from_proto p policy_version ≡ ok a
    → All HasTimes a.volumes
    → assignment_from_proto (some (assignment_to_proto new_timestamp a)) policy_version ≡ ok a
unfolding assignment_from_proto
assignment_from_proto-assignment_to_proto new_timestamp keeps none policy_version a e h =
    absurd (err-not_ok _ a e)
assignment_from_proto-assignment_to_proto new_timestamp keeps (some p) policy_version a e h =
    let c = assignment_from_message-Converted p policy_version a e in
    let are =
      convert_all-All volume_from_proto IsVolume volume_from_proto-IsVolume p.volumes c.volumes
        c.volumes_converted in
    rebuilt new_timestamp keeps a policy_version c.good
      (both a.volumes (subst (λ b. All IsVolume b.volumes) c.built are) h)
