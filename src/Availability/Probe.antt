-- ===== src/Availability/Probe.antt =====
-- manager/availability.py: `HostAvailabilityProbe.probe` after the network has answered. What the
-- resolver and the HTTP client return is an argument.
use Prim.Native.Char.{code}
use fortifylab_archive.Prelude.{
  Bool, List, Option, String, [], contains, if◌then◌else◌, leb, ltb, none, some, true, ℕ, ◌&&◌, ◌∷◌,
}

pub data ServiceState : Type 0 where
  reachable degraded tls_warning dns_mismatch : ServiceState
  unreachable not_configured unknown : ServiceState

pub record ObservedRoute : Type 0 where
  pub endpoint_id : String
  pub host : String
  pub tls : Bool
  pub addresses : List String
  pub ingress_addresses : List String

pub data HttpEvidence : Type 0 where
  not_attempted no_connection undetermined : HttpEvidence
  redirected answered : ℕ → HttpEvidence

pub record ProbeEvidence : Type 0 where
  pub state : ServiceState
  pub dns : String
  pub tls : String
  pub http : HttpEvidence
  pub latency_ms : ℕ
  pub summary : String

-- The outcome of `self._opener.open`: a status, also that of an `HTTPError`, a failed
-- verification of the certificate, or no connection.
pub data Reply : Type 0 where
  status : ℕ → Reply
  untrusted refused : Reply

-- What the network answers to one probe: the addresses, unless the resolution fails or takes too
-- long, the reply to the request, and the milliseconds that have passed at the end.
pub record Network : Type 0 where
  pub resolved : Option (List String)
  pub reply : Reply
  pub latency_ms : ℕ

unfoldable pub within_set : List String → List String → Bool
unfolding contains
within_set [] ys = true
within_set (x ∷ xs) ys = contains ys x && within_set xs ys

abbrev pub same_set : List String → List String → Bool
same_set xs ys = within_set xs ys && within_set ys xs

abbrev pub is_expected : List String → List String → Bool
is_expected resolved [] = true
is_expected resolved (a ∷ addresses) = same_set resolved (a ∷ addresses)

abbrev pub of_reply : ObservedRoute → ℕ → Reply → ProbeEvidence
of_reply route latency untrusted = record {
  state = tls_warning;
  dns = "resolved";
  tls = "warning";
  http = not_attempted;
  latency_ms = latency;
  summary = "TLS certificate validation failed";
}
of_reply route latency refused = record {
  state = unreachable;
  dns = "resolved";
  tls = if route.tls then "failed" else "not-configured";
  http = no_connection;
  latency_ms = latency;
  summary = "The service did not accept an HTTP connection";
}
of_reply route latency (status code) =
    let trusted : String = if route.tls then "valid" else "not-configured" in
    if leb 300 code && ltb code 400
    then record {
      state = degraded;
      dns = "resolved";
      tls = trusted;
      http = redirected code;
      latency_ms = latency;
      summary = "The service returned a redirect; redirects are not followed";
    }
    else if leb 500 code
    then record {
      state = degraded;
      dns = "resolved";
      tls = trusted;
      http = answered code;
      latency_ms = latency;
      summary = "The service returned a server error";
    }
    else record {
      state = reachable;
      dns = "resolved";
      tls = trusted;
      http = answered code;
      latency_ms = latency;
      summary = "The service returned an HTTP response";
    }

abbrev pub of_addresses : ObservedRoute → ℕ → Reply → Option (List String) → ProbeEvidence
of_addresses route latency reply none = record {
  state = unreachable;
  dns = "failed";
  tls = "not-attempted";
  http = not_attempted;
  latency_ms = latency;
  summary = "DNS resolution failed";
}
of_addresses route latency reply (some resolved) =
    if is_expected resolved route.addresses then of_reply route latency reply else record {
      state = dns_mismatch;
      dns = "mismatch";
      tls = "not-attempted";
      http = not_attempted;
      latency_ms = latency;
      summary = "DNS does not resolve to the configured public address";
    }

unfoldable pub probe : ObservedRoute → Network → ProbeEvidence
unfolding within_set contains
probe route network = of_addresses route network.latency_ms network.reply network.resolved
