-- ===== src/Service/Start.antt =====
-- Which starts succeed, and what a start that fails leaves open: `New` of
-- internal/conformance/conformance.go with the configuration of internal/config/config.go.
use Prim.Native.String.{◌++◌}
use text.Mathlib.TextEquality.{eq_iff}
use text.Mathlib.TextLemmas.{append-ne-nil_of_right_ne-nil}
use aero_arc_conformance.Prelude.{
  pos, ◌≡◌, refl, inl, inr, Bool, true, false, ◌||◌, ◌==◌, string_eq, ltb_ℤ, List, [], ◌∷◌, Option,
  none, some, String, is_blank, not_blank-ne, Result, ok, err, if◌then◌else◌, arith, Bool-cases,
}
use aero_arc_conformance.Settings as Settings
use aero_arc_conformance.Evaluator.Policy as Evaluator
use aero_arc_conformance.Worker.Claim as Worker
use aero_arc_conformance.Registry.Publisher as Publisher
use aero_arc_conformance.Service.Wiring.{
  Resource, store, reader, registry_connection, Event, opened, closed, StartError,
  credentials_failed, store_failed, client_failed, connection_failed, Externals, publisher_config,
  engine_policy, worker_config, new,
}

module _ (c : Settings.Config) where
  -- What a valid configuration says to the parts.
  pub record Suits : Type 0 where
    pub named : is_blank c.policy.version ≡ false
    pub chunked :
        (ltb_ℤ c.influx.aircraft_batch_size (pos 1) || ltb_ℤ c.influx.max_rows (pos 1)) ≡ false
    pub publisher : Publisher.validate (publisher_config c) ≡ ok tt
    pub engine : Evaluator.validate (engine_policy c) ≡ ok tt
    pub worker : Worker.validate (worker_config c) ≡ ok tt

  validate-named : Settings.validate c ≡ ok tt → is_blank c.policy.version ≡ false
  unfolding Settings.validate
  validate-named h = ground arith

  validate-chunked :
      Settings.validate c ≡ ok tt
      → (ltb_ℤ c.influx.aircraft_batch_size (pos 1) || ltb_ℤ c.influx.max_rows (pos 1)) ≡ false
  unfolding Settings.validate
  validate-chunked h = ground arith

  validate-engine : Settings.validate c ≡ ok tt → Evaluator.validate (engine_policy c) ≡ ok tt
  unfolding Settings.validate Settings.finite_nonnegative Evaluator.validate
      Evaluator.finite_nonnegative Evaluator.finite engine_policy
  validate-engine h = ground (arith, not_blank-ne c.policy.version)

  validate-worker : Settings.validate c ≡ ok tt → Worker.validate (worker_config c) ≡ ok tt
  unfolding Settings.validate Worker.validate worker_config
  validate-worker h = ground (arith, not_blank-ne c.worker.id)

  registry_name : (c.worker.id ++ ":registry" == "") ≡ false
  registry_name = elim (Bool-cases (c.worker.id ++ ":registry" == "")) [
    | inr differs ↦ differs
    | inl empty ↦
        absurd (append-ne-nil_of_right_ne-nil c.worker.id (λ e. cc) ((eq_iff _ "").0 empty))
  ]

  validate-publisher : Settings.validate c ≡ ok tt → Publisher.validate (publisher_config c) ≡ ok tt
  unfolding Settings.validate Publisher.validate publisher_config
  validate-publisher h = ground (arith, registry_name)

  validate-Suits : Settings.validate c ≡ ok tt → Suits
  validate-Suits h = record {
    named = validate-named h;
    chunked = validate-chunked h;
    publisher = validate-publisher h;
    engine = validate-engine h;
    worker = validate-worker h;
  }

abbrev connection_result : Option String → Result StartError (Unit {0})
connection_result none = ok tt
connection_result (some e) = err (connection_failed e)

abbrev client_result : Externals → Option String → Result StartError (Unit {0})
client_result x none = connection_result x.connection_error
client_result x (some e) = err (client_failed e)

abbrev store_result : Externals → Option String → Result StartError (Unit {0})
store_result x none = client_result x x.client_error
store_result x (some e) = err (store_failed e)

abbrev credentials_result : Externals → Option String → Result StartError (Unit {0})
credentials_result x none = store_result x x.store_error
credentials_result x (some e) = err (credentials_failed e)

-- The first of the packages' errors, in the order in which they are called.
abbrev pub external_result : Externals → Result StartError (Unit {0})
external_result x = credentials_result x x.credentials_error

abbrev same_resource : Resource → Resource → Bool
same_resource store store = true
same_resource reader reader = true
same_resource registry_connection registry_connection = true
same_resource _ _ = false

abbrev released : Resource → List Resource → List Resource
released r [] = []
released r (q ∷ rs) = if same_resource r q then rs else q ∷ released r rs

-- The resources that are open after the events: the last one opened is the first.
abbrev pub still_open : List Resource → List Event → List Resource
still_open rs [] = rs
still_open rs (opened r ∷ events) = still_open (r ∷ rs) events
still_open rs (closed r ∷ events) = still_open (released r rs) events

abbrev pub kept_by : Result StartError (Unit {0}) → List Resource
kept_by (ok u) = registry_connection ∷ reader ∷ store ∷ []
kept_by (err StartError.reader_invalid) = reader ∷ []
kept_by (err e) = []

new-validate_engine :
    (p : Evaluator.Policy)
    → Evaluator.validate p ≡ ok tt
    → Evaluator.new p ≡ ok (record { policy = p })
unfolding Evaluator.new
new-validate_engine p h = rw h refl

-- With a valid configuration the service starts unless a package that it calls fails, and the error
-- is then that package's: the handler, the reader, the publisher, the engine and the worker accept
-- what they are built from.
pub new-validate :
    (x : Externals) (c : Settings.Config)
    → Settings.validate c ≡ ok tt
    → (new x c).0 ≡ external_result x
unfolding new
new-validate x c h =
    let s = validate-Suits c h in
    let n = s.named in
    let k = s.chunked in
    let p = s.publisher in
    let e = new-validate_engine (engine_policy c) s.engine in let w = s.worker in ground arith

-- With whatever configuration, a start that succeeds holds the store, the client of the reader and the
-- Registry connection, and one that fails has closed everything that it opened, except where it fails
-- because the reader rejects its sizes: then the reader's client stays open.
pub new-still_open :
    (x : Externals) (c : Settings.Config) → still_open [] (new x c).1 ≡ kept_by (new x c).0
unfolding new
new-still_open x c = ground arith
