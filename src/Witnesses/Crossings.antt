-- ===== src/Witnesses/Crossings.antt =====
-- The theorems on the egress gate and the audit, at concrete inputs.
use znyx_runtime.Prelude.{
  ℕ, Text, codes, Bool, true, false, not, ◌&&◌, ◌||◌, Option, none, some, List, [], ◌∷◌, ◌≡◌, refl,
  ◌↔◌,
}
use znyx_runtime.Core.Models.{remote_api}
use znyx_runtime.Engine.Egress.{
  host_of, authority_of, is_boundary_crossing, evaluate_egress, prepare_and_audit_egress, denied,
  cleared,
}
use znyx_runtime.Engine.Egress.Gate.{allowed-evaluate_egress, on_allowlist, in_regions}
use znyx_runtime.Engine.Egress.Audit.{IsCovered, crossing-IsCovered}
use znyx_runtime.Witnesses.Samples.{parse_url, blank, counting, context, request}

allowed-evaluate_egress_example : (evaluate_egress parse_url remote_api (request false)).allowed ≡ (
    not (is_boundary_crossing remote_api (request false).in_boundary)
    || (not (request false).no_external_calls
        && (on_allowlist
              (request false).egress_allowlist
              (host_of parse_url (request false).endpoint_url)
              (authority_of parse_url (request false).endpoint_url)
            && in_regions (request false).allowed_regions (request false).region)))
allowed-evaluate_egress_example = allowed-evaluate_egress parse_url remote_api (request false)

crossing-IsCovered_example :
    let (p, s') =
      prepare_and_audit_egress blank blank
        (some counting)
        parse_url
        remote_api
        (codes "hi")
        (request false)
        context
        3 in
    IsCovered blank blank
      (some counting)
      parse_url
      remote_api
      (request false)
      context
      (codes "hi")
      3
      p
      s'
unfolding prepare_and_audit_egress evaluate_egress is_boundary_crossing
    znyx_runtime.Engine.Egress.off_allowlist znyx_runtime.Prelude.mem_text
    znyx_runtime.Prelude.eq_text znyx_runtime.Engine.Egress.off_region
    znyx_runtime.Engine.Egress.redact_for_egress
crossing-IsCovered_example =
    crossing-IsCovered blank blank (some counting) parse_url remote_api (codes "hi") (request false)
      context 3 refl refl
