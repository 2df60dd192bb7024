-- ===== src/Engine/Egress/Gate.antt =====
-- `evaluate_egress` of engine/egress.py: the order of its checks, and when a call may proceed.
use znyx_runtime.Prelude.{
  Text, Bool, true, false, not, ◌&&◌, ◌||◌, Option, none, some, List, ◌≡◌, ◌↔◌, arith,
}
use znyx_runtime.Core.Models.{ExecutionMode}
use znyx_runtime.Engine.Egress.{
  Url, EgressRequest, is_boundary_crossing, host_of, authority_of, listed, off_allowlist,
  off_region, evaluate_egress,
}

-- The destination is in the allowlist by its host or by its `host:port`, if there is a list.
abbrev pub on_allowlist : Option (List Text) → Option Text → Option Text → Bool
on_allowlist none host authority = true
on_allowlist (some l) host authority = listed host l || listed authority l

abbrev pub in_regions : Option (List Text) → Option Text → Bool
in_regions none region = true
in_regions (some l) region = listed region l

module _ (urlparse : Text → Option Url) (mode : ExecutionMode) (r : EgressRequest) where
  off_allowlist-not :
      off_allowlist urlparse r
      ≡ not (
          on_allowlist r.egress_allowlist
            (host_of urlparse r.endpoint_url)
            (authority_of urlparse r.endpoint_url))
  unfolding off_allowlist
  off_allowlist-not = ground arith

  off_region-not : off_region r ≡ not (in_regions r.allowed_regions r.region)
  unfolding off_region
  off_region-not = ground arith

  -- A call is allowed exactly when it stays inside the boundary, or external calls are not
  -- switched off, its host or authority is on the allowlist (if there is one), and its region is
  -- known and among the allowed ones (if they are restricted).
  pub allowed-evaluate_egress : (evaluate_egress urlparse mode r).allowed ≡ (
      not (is_boundary_crossing mode r.in_boundary)
      || (not r.no_external_calls
          && (on_allowlist r.egress_allowlist
                (host_of urlparse r.endpoint_url)
                (authority_of urlparse r.endpoint_url)
              && in_regions r.allowed_regions r.region)))
  unfolding evaluate_egress
  allowed-evaluate_egress = ground (arith, off_allowlist-not, off_region-not)

  -- The decision says whether the call crosses the boundary, and gives a reason exactly when it
  -- denies.
  pub reason-evaluate_egress :
      let d = evaluate_egress urlparse mode r in
      (d.is_egress ≡ is_boundary_crossing mode r.in_boundary)
      × ((d.reason ≡ none) ↔ (d.allowed ≡ true))
  unfolding evaluate_egress
  reason-evaluate_egress = ground arith

  pub inside-evaluate_egress :
      is_boundary_crossing mode r.in_boundary ≡ false
      → let d = evaluate_egress urlparse mode r in (d.allowed ≡ true) × (d.is_egress ≡ false)
  unfolding evaluate_egress
  inside-evaluate_egress h = ground arith

  -- An allowed call that crosses the boundary is redacted as the request says.
  pub flags-evaluate_egress :
      (evaluate_egress urlparse mode r).allowed ≡ true
      → is_boundary_crossing mode r.in_boundary ≡ true
      → let d = evaluate_egress urlparse mode r in
        (d.redact_pii ≡ r.redact_pii) × (d.redact_secrets ≡ r.redact_secrets)
  unfolding evaluate_egress
  flags-evaluate_egress allowed out = ground arith
