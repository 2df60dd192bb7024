-- ===== src/Witnesses/Usage.antt =====
-- The theorems on consumption and on checksums, at concrete inputs.
use znyx_runtime.Prelude.{
  ℕ, suc, ◌+◌, ◌≤◌, ◌*◌, ◌^◌, pos, negsuc, ltb, Text, codes, Bool, true, false, Option, none, some,
  List, [], ◌∷◌, ◌≡◌, ◌↔◌, refl, if◌then◌else◌, arith,
}
use znyx_runtime.Prelude.Dict
use znyx_runtime.Core.Models.{allow, block}
use znyx_runtime.Policy.Value.{
  integer, Value, Object, Items, text, array, object, nil, item, empty, entry,
}
use znyx_runtime.Detectors.Consumption.{
  Settings, Session, Detector, Verdict, Usage, Reading, overflows, unread, finite, key,
}
use znyx_runtime.Detectors.Consumption.Detect.{reported}
use znyx_runtime.Detectors.Consumption.Budgets.{Request, serve_all, tokens_for, tokens-serve_all}
use znyx_runtime.Detectors.Consumption.Verdicts.{
  Call, IsOver, AreStopped, detect_all, detect_all-IsOver,
}
use znyx_runtime.Detectors.TenantScope as TenantScope
use znyx_runtime.Detectors.TenantScope.Isolation.{AreOwn, is_late, detect-foreign, detect-AreOwn}
use znyx_runtime.Checksums.{verhoeff_check, luhn_check}
use znyx_runtime.Checksums.Verhoeff.{verhoeff_check-single, verhoeff_check-swapped}
use znyx_runtime.Checksums.Luhn.{luhn_check-single}

abbrev settings : Settings
settings = record {
  enabled = true;
  blocks = true;
  max_session_tokens = 100;
  max_session_cost_usd = 10000000;
  max_iterations = pos 50;
  max_tool_depth = pos 25;
  session_window = 3600000;
  max_thinking_tokens_per_request = 32000;
  max_session_thinking_tokens = 200000;
  max_thinking_to_input_ratio = 5000;
  ratio_min_thinking_tokens = 4000;
  max_repeated_states = 3;
  max_tracked_states = 2;
}

abbrev tokens : ℕ → Usage
tokens n = record { tokens = n; cost = 0; thinking = 0 }

abbrev session : Session
session = record { tokens = 60; cost = 0; thinking = 0; states = []; first_ts = 1000 }

abbrev k : Text
k = codes "t:a:s:s1"

abbrev detector : Detector
detector = record { sessions = (k, session) ∷ []; last_cleanup = 0 }

abbrev requests : List Request
requests =
    record { now = 2000; key = k; usage = tokens 30 }
    ∷ record { now = 3000; key = codes "t:a:s:s2"; usage = tokens 500 }
    ∷ record { now = 400000; key = k; usage = tokens 20 }
    ∷ []

tokens-serve_all_example :
    (after : Session) × (Dict.lookup k (serve_all settings requests detector).sessions ≡ some after)
    × (after.tokens ≡ 60 + tokens_for k requests)
    × (after.first_ts ≡ 1000)
unfolding Dict.lookup znyx_runtime.Prelude.eq_text
tokens-serve_all_example =
    tokens-serve_all settings requests k session detector
      (omega arith, (omega arith, (omega arith, tt))) refl

-- Integers are read, and overflow from 10 ^ 300 on.
abbrev reads : Value → Reading
reads (integer (pos n)) = if ltb n (10 ^ 300) then finite (pos (n * 1000000)) else overflows
reads (integer (negsuc n)) = finite (negsuc n)
reads _ = unread

abbrev spent : Session
spent = record session { tokens = 101 }

abbrev after_spending : Detector
after_spending = record { sessions = (k, spent) ∷ []; last_cleanup = 0 }

abbrev call : (now : ℕ) → Object → Call
call now meta = record {
  now = now;
  text = codes "hi";
  tenant_id = codes "t";
  app_id = codes "a";
  session_id = some (codes "s1");
  user_id = none;
  meta = meta;
}

abbrev calls : List Call
calls = call 5000 empty ∷ call 400000 (entry (codes "tokens") (integer (pos 7)) empty) ∷ []

detect_all-IsOver_example :
    (vs : List Verdict) × (after : Detector) × (detect_all
        (λ t. t)
        reads
        settings
        calls
        after_spending
      ≡ some (vs, after))
    × AreStopped (λ t. t) reads settings calls vs
    × IsOver settings k 1000 after
unfolding key Dict.lookup znyx_runtime.Prelude.eq_text Dict.IsDict reported
    znyx_runtime.Policy.Value.get znyx_runtime.Detectors.Consumption.coerce_nonneg_int
    znyx_runtime.Detectors.Consumption.coerce_nonneg_float
detect_all-IsOver_example =
    detect_all-IsOver (λ t. t) reads settings calls k 1000 after_spending refl (omega arith)
      (
        (refl, omega arith, (record { tokens = 0; cost = 0; thinking = 0 }, refl)),
        ((refl, omega arith, (record { tokens = 7; cost = 0; thinking = 0 }, refl)), tt),
      )
      (spent, refl, tt, refl, omega arith)

verhoeff_check-single_example : verhoeff_check (codes "2463") ≡ false
unfolding verhoeff_check
verhoeff_check-single_example =
    verhoeff_check-single (codes "2") (codes "63") b'3' b'4' refl refl refl refl

verhoeff_check-swapped_example : verhoeff_check (codes "3263") ≡ false
unfolding verhoeff_check
verhoeff_check-swapped_example =
    verhoeff_check-swapped [] (codes "63") b'2' b'3' refl refl refl refl

luhn_check-single_example : luhn_check (codes "4111111111111112") ≡ false
unfolding luhn_check
luhn_check-single_example =
    luhn_check-single (codes "411111111111111") [] b'1' b'2' refl refl refl refl

abbrev scope_settings : TenantScope.Settings
scope_settings = record {
  enabled = true;
  blocks = false;
  block_cross_tenant = true;
  require_tenant_tags = true;
  require_query_scoping = true;
}

abbrev tagged_for : Text → Object
tagged_for owner = entry (codes "tenant") (text owner) empty

abbrev retrieving : Items → Object
retrieving chunks = entry (codes "chunks") (array chunks) empty

abbrev mixed : Items
mixed = item (object (tagged_for (codes "a"))) (item (object (tagged_for (codes "b"))) nil)

detect-foreign_example :
    (TenantScope.detect (λ t. false) scope_settings (codes " a ") (retrieving mixed)).decision
    ≡ some block
unfolding TenantScope.retrieval_block TenantScope.chunks_of TenantScope.tenant_of
    znyx_runtime.Policy.Value.get znyx_runtime.Prelude.eq_text znyx_runtime.Prelude.strip
detect-foreign_example =
    detect-foreign (λ t. false) scope_settings (codes " a ") (codes "b") (retrieving mixed)
      (tagged_for (codes "a") ∷ []) [] (tagged_for (codes "b")) refl refl refl refl refl refl

abbrev own_chunks : Object
own_chunks = retrieving (item (object (tagged_for (codes "a"))) nil)

detect-AreOwn_example :
    ((TenantScope.detect (λ t. false) scope_settings (codes "a") own_chunks).decision ≡ some allow)
    ↔ (AreOwn (codes "a") (TenantScope.chunks_of (TenantScope.retrieval_block own_chunks))
        × (is_late
              (λ t. false)
              scope_settings
              (TenantScope.retrieval_block own_chunks)
              (TenantScope.chunks_of (TenantScope.retrieval_block own_chunks))
            ≡ false))
unfolding znyx_runtime.Prelude.strip
detect-AreOwn_example =
    detect-AreOwn (λ t. false) scope_settings (codes "a") own_chunks refl refl refl

-- A chunk that is a bare text has no tag, and is allowed.
loose_text_is_allowed :
    (TenantScope.detect
      (λ t. false)
      scope_settings
      (codes "a")
      (retrieving (item (text (codes "raw text")) nil))).decision
    ≡ some allow
unfolding TenantScope.detect TenantScope.retrieval_block TenantScope.chunks_of TenantScope.scan
    TenantScope.hits_of TenantScope.is_filtered_after znyx_runtime.Policy.Value.get
    znyx_runtime.Prelude.eq_text
loose_text_is_allowed = refl
