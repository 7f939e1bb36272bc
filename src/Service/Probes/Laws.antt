-- ===== src/Service/Probes/Laws.antt =====
-- What a completed probe has.
use kogito_operator.Common.{
  String, ℕ, zero, suc, ℤ, pos, negsuc, ◌≢◌, ap, ◌∙◌, ◌⊎◌, ◌≡◌, refl, Bool, true, false, Option,
  none, some, is_empty, if◌then◌else◌, Bool-cases, inl, inr,
}
use kogito_operator.Api.Workloads.{Probe, ProbeHandler, HttpGetAction}
use kogito_operator.Service.Probes.{
  ProbeType, liveness_probe_type, readiness_probe_type, startup_probe_type, or_number, or_text,
  set_default_probe_values, set_default_http_get_values, get_default_http_path, uri_scheme_http,
  default_exposed_port, get_default_http_get_action, is_probe_handler_empty, with_defaults,
  probe_handler, once, get_probe,
}

-- A number that was not set has the default, any other is kept.
abbrev pub IsFilled : ℤ → ℕ → ℤ → Type 0
IsFilled n d m = ((n ≡ pos 0) × (m ≡ pos d)) ⊎ ((n ≢ pos 0) × (m ≡ n))

-- Liveness and startup probes succeed at once.
abbrev pub IsThreshold : ProbeType → ℤ → ℤ → Type 0
IsThreshold liveness_probe_type n m = m ≡ pos 1
IsThreshold readiness_probe_type n m = IsFilled n 1 m
IsThreshold startup_probe_type n m = m ≡ pos 1

-- The numbers of a probe against those of the completed one.
abbrev pub HasNumbers : ProbeType → Probe → Probe → Type 0
HasNumbers kind p q =
    IsFilled p.timeout_seconds 1 q.timeout_seconds
    × IsFilled p.period_seconds 10 q.period_seconds
    × IsFilled p.failure_threshold 3 q.failure_threshold
    × IsThreshold kind p.success_threshold q.success_threshold
    × (q.initial_delay_seconds ≡ p.initial_delay_seconds)

or_number-IsFilled : (n : ℤ) (d : ℕ) → IsFilled n d (or_number n d)
or_number-IsFilled (negsuc n) d = inr (λ e. cc, refl)
or_number-IsFilled (pos zero) d = inl (refl, refl)
or_number-IsFilled (pos (suc n)) d = inr (λ e. cc, refl)

get_probe-HasNumbers :
    (runtime : String) (kind : ProbeType) (p : Probe) → HasNumbers kind p (get_probe runtime kind p)
unfolding get_probe set_default_probe_values once
get_probe-HasNumbers runtime liveness_probe_type p = (
  or_number-IsFilled p.timeout_seconds 1,
  or_number-IsFilled p.period_seconds 10,
  or_number-IsFilled p.failure_threshold 3,
  refl,
  refl,
)
get_probe-HasNumbers runtime readiness_probe_type p = (
  or_number-IsFilled p.timeout_seconds 1,
  or_number-IsFilled p.period_seconds 10,
  or_number-IsFilled p.failure_threshold 3,
  or_number-IsFilled p.success_threshold 1,
  refl,
)
get_probe-HasNumbers runtime startup_probe_type p = (
  or_number-IsFilled p.timeout_seconds 1,
  or_number-IsFilled p.period_seconds 10,
  or_number-IsFilled p.failure_threshold 3,
  refl,
  refl,
)

or_text_idem : (s d : String) → or_text (or_text s d) d ≡ or_text s d
or_text_idem s d = elim (Bool-cases (is_empty s)) [
  | inl e ↦ rw e (same (is_empty d))
  | inr e ↦ rw (e, e) refl
]
  where
    same : (b : Bool) → (if b then d else d) ≡ d
    same true = refl
    same false = refl

set_default_http_get_values_idem :
    (runtime : String) (kind : ProbeType) (g : HttpGetAction)
    → set_default_http_get_values runtime kind (set_default_http_get_values runtime kind g)
      ≡ set_default_http_get_values runtime kind g
unfolding set_default_http_get_values
set_default_http_get_values_idem runtime kind g =
    rw
      (
        or_text_idem g.path (get_default_http_path runtime kind),
        or_text_idem g.scheme uri_scheme_http,
      )
      refl

default_action_idem :
    (runtime : String) (kind : ProbeType)
    → set_default_http_get_values runtime kind (get_default_http_get_action runtime kind)
      ≡ get_default_http_get_action runtime kind
unfolding set_default_http_get_values get_default_http_get_action
default_action_idem runtime kind =
    ap (λ x. record { path = x; port = default_exposed_port; scheme = uri_scheme_http })
      (same (is_empty (get_default_http_path runtime kind)))
  where
    same :
        (b : Bool)
        → (if b then get_default_http_path runtime kind else get_default_http_path runtime kind)
          ≡ get_default_http_path runtime kind
    same true = refl
    same false = refl

abbrev handler_of :
    Option HttpGetAction → Option String → Option String → Option String → ProbeHandler
handler_of g e t r = record { http_get = g; exec = e; tcp_socket = t; grpc = r }

by_fields :
    (runtime : String) (kind : ProbeType) (g : Option HttpGetAction) (e t r : Option String)
    → probe_handler runtime kind (probe_handler runtime kind (handler_of g e t r))
      ≡ probe_handler runtime kind (handler_of g e t r)
unfolding probe_handler with_defaults is_probe_handler_empty
by_fields runtime kind none none none r =
    ap (λ x. handler_of (some x) none none none) (default_action_idem runtime kind)
by_fields runtime kind none none (some t) r = refl
by_fields runtime kind none (some e) t r = refl
by_fields runtime kind (some g) e t r =
    ap (λ x. handler_of (some x) e t r) (set_default_http_get_values_idem runtime kind g)

probe_handler_idem :
    (runtime : String) (kind : ProbeType) (h : ProbeHandler)
    → probe_handler runtime kind (probe_handler runtime kind h) ≡ probe_handler runtime kind h
probe_handler_idem runtime kind h = by_fields runtime kind h.http_get h.exec h.tcp_socket h.grpc

handler_fields :
    (runtime : String) (kind : ProbeType) (g : Option HttpGetAction) (e t r : Option String)
    → (is_probe_handler_empty (probe_handler runtime kind (handler_of g e t r)) ≡ false)
      × ((probe_handler runtime kind (handler_of g e t r)).grpc
          ≡ (if is_probe_handler_empty (handler_of g e t r) then none else r))
unfolding probe_handler with_defaults is_probe_handler_empty
handler_fields runtime kind none none none r = (refl, refl)
handler_fields runtime kind none none (some t) r = (refl, refl)
handler_fields runtime kind none (some e) t r = (refl, refl)
handler_fields runtime kind (some g) e t r = (refl, refl)

handler-once : (kind : ProbeType) (p : Probe) → (once kind p).handler ≡ p.handler
unfolding once
handler-once liveness_probe_type p = refl
handler-once readiness_probe_type p = refl
handler-once startup_probe_type p = refl

or_number_idem : (n : ℤ) (d : ℕ) → or_number (or_number n d) d ≡ or_number n d
or_number_idem (negsuc n) d = refl
or_number_idem (pos zero) zero = refl
or_number_idem (pos zero) (suc d) = refl
or_number_idem (pos (suc n)) d = refl

get_probe_idem :
    (runtime : String) (kind : ProbeType) (p : Probe)
    → get_probe runtime kind (get_probe runtime kind p) ≡ get_probe runtime kind p
unfolding get_probe set_default_probe_values once
get_probe_idem runtime liveness_probe_type p =
    rw
      (
        probe_handler_idem runtime liveness_probe_type p.handler,
        or_number_idem p.timeout_seconds 1,
        or_number_idem p.period_seconds 10,
        or_number_idem p.failure_threshold 3,
      )
      refl
get_probe_idem runtime readiness_probe_type p =
    rw
      (
        probe_handler_idem runtime readiness_probe_type p.handler,
        or_number_idem p.timeout_seconds 1,
        or_number_idem p.period_seconds 10,
        or_number_idem p.success_threshold 1,
        or_number_idem p.failure_threshold 3,
      )
      refl
get_probe_idem runtime startup_probe_type p =
    rw
      (
        probe_handler_idem runtime startup_probe_type p.handler,
        or_number_idem p.timeout_seconds 1,
        or_number_idem p.period_seconds 10,
        or_number_idem p.failure_threshold 3,
      )
      refl

-- In a completed probe each number that was not set has its default and each other is kept, but
-- the success threshold of liveness and startup probes is 1, and the initial delay is kept; a handler
-- is there that the test for an empty handler knows, and the gRPC handler is dropped where the probe
-- had no handler that the test knows; and completing the probe again changes nothing.
pub get_probe_lem :
    (runtime : String) (kind : ProbeType) (p : Probe)
    → let q = get_probe runtime kind p in
      HasNumbers kind p q
      × (is_probe_handler_empty q.handler ≡ false)
      × (get_probe runtime kind q ≡ q)
      × (q.handler.grpc ≡ (if is_probe_handler_empty p.handler then none else p.handler.grpc))
unfolding get_probe set_default_probe_values
get_probe_lem runtime kind p =
    let h = p.handler in
    let (full, kept) = handler_fields runtime kind h.http_get h.exec h.tcp_socket h.grpc in
    let same =
      handler-once kind
        (set_default_probe_values (record p { handler = probe_handler runtime kind h })) in
    (
      get_probe-HasNumbers runtime kind p,
      ap is_probe_handler_empty same ∙ full,
      get_probe_idem runtime kind p,
      ap (λ x. x.grpc) same ∙ kept,
    )
