-- ===== src/Service/Probes.antt =====
-- core/kogitoservice/probe.go: the health checks of a service's container.
pub mod Laws
use kogito_operator.Common.{
  String, ℕ, zero, suc, ℤ, pos, negsuc, ◌<◌, ap, ◌∙◌, ◌⊎◌, ◌≡◌, refl, ◌≢◌, Bool, true, false, ◌&&◌,
  ◌||◌, Option, none, some, nat_eq, ◌==◌, is_empty, if◌then◌else◌, arith, Bool-cases, inl, inr,
  eq_iff,
}
use kogito_operator.Api.Workloads.{Probe, ProbeHandler, HttpGetAction}
use kogito_operator.Service.Instance.{KogitoService}

pub data ProbeType : Type 0 where
  liveness_probe_type readiness_probe_type startup_probe_type : ProbeType

-- The type is that of the liveness or of the startup probe.
abbrev is_live_or_startup : ProbeType → Bool
is_live_or_startup liveness_probe_type = true
is_live_or_startup readiness_probe_type = false
is_live_or_startup startup_probe_type = true

-- api.SpringBootRuntimeType
abbrev pub spring_boot_runtime_type : String
spring_boot_runtime_type = "springboot"

-- framework.DefaultExposedPort and corev1.URISchemeHTTP
abbrev pub default_exposed_port : ℕ
default_exposed_port = 8080

abbrev pub uri_scheme_http : String
uri_scheme_http = "HTTP"

unfoldable pub get_default_http_path : String → ProbeType → String
get_default_http_path runtime kind =
    if runtime == spring_boot_runtime_type
    then (if is_live_or_startup kind
        then "/actuator/health/liveness"
        else "/actuator/health/readiness")
    else if is_live_or_startup kind
    then "/q/health/live"
    else "/q/health/ready"

unfoldable pub get_default_http_get_action : String → ProbeType → HttpGetAction
get_default_http_get_action runtime kind = record {
  path = get_default_http_path runtime kind;
  port = default_exposed_port;
  scheme = uri_scheme_http;
}

abbrev is_nil : {A : Type 0} → Option A → Bool
is_nil none = true
is_nil (some a) = false

unfoldable pub is_probe_handler_empty : ProbeHandler → Bool
is_probe_handler_empty h = is_nil h.http_get && (is_nil h.exec && is_nil h.tcp_socket)

abbrev or_text : String → String → String
or_text s d = if is_empty s then d else s

-- A number below 0 is kept.
abbrev or_number : ℤ → ℕ → ℤ
or_number (pos zero) d = pos d
or_number (pos (suc n)) d = pos (suc n)
or_number (negsuc n) d = negsuc n

unfoldable pub set_default_http_get_values : String → ProbeType → HttpGetAction → HttpGetAction
set_default_http_get_values runtime kind g = record g {
  path = or_text g.path (get_default_http_path runtime kind);
  scheme = or_text g.scheme uri_scheme_http;
}

-- The numbers of defaultProbeValues: 1, 10, 1 and 3.
unfoldable pub set_default_probe_values : Probe → Probe
set_default_probe_values p = record p {
  timeout_seconds = or_number p.timeout_seconds 1;
  period_seconds = or_number p.period_seconds 10;
  success_threshold = or_number p.success_threshold 1;
  failure_threshold = or_number p.failure_threshold 3;
}

with_defaults : String → ProbeType → ProbeHandler → ProbeHandler
with_defaults runtime kind h = elim h.http_get [
  | none ↦ h
  | some g ↦ record h { http_get = some (set_default_http_get_values runtime kind g) }
]

-- The handler that `getProbe` gives a probe.
unfoldable pub probe_handler : String → ProbeType → ProbeHandler → ProbeHandler
unfolding with_defaults
probe_handler runtime kind h =
    if is_probe_handler_empty h
    then record {
      http_get = some (get_default_http_get_action runtime kind);
      exec = none;
      tcp_socket = none;
      grpc = none;
    }
    else with_defaults runtime kind h

once : ProbeType → Probe → Probe
once kind p = if is_live_or_startup kind then record p { success_threshold = pos 1 } else p

unfoldable pub get_probe : String → ProbeType → Probe → Probe
unfolding once
get_probe runtime kind p =
    once kind
      (set_default_probe_values (record p { handler = probe_handler runtime kind p.handler }))

-- `healthCheckProbe`
pub record HealthCheckProbe : Type 0 where
  pub readiness : Probe
  pub liveness : Probe
  pub startup : Probe

unfoldable pub get_probe_for_kogito_service : KogitoService → HealthCheckProbe
get_probe_for_kogito_service service = record {
  readiness = get_probe service.runtime readiness_probe_type service.readiness_probe;
  liveness = get_probe service.runtime liveness_probe_type service.liveness_probe;
  startup = get_probe service.runtime startup_probe_type service.startup_probe;
}
