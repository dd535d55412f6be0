-- ===== src/Registry/Routes.antt =====
-- src/mcp_quality/registry.py: the routes, from a parsed body to a response. The framework that reads
-- a request and sends the response is not modelled.
use mcp_probe.Models.{ServerSurface}
use mcp_probe.Connect.Discover.{get_raw}
use mcp_probe.Base.Json.{
  bool, items, is_text, obj, truthy, find_field, str, arr, Fields, Json, of_fields,
}
use mcp_probe.Snapshot.Store.{current_rubric}
use mcp_probe.Base.{
  ◌&&◌, [], none, Bool, ◌∷◌, true, if◌then◌else◌, some, Option, false, ℕ, ◌>>=◌, String,
}
use mcp_probe.Pipeline.Engines.{Registry}
use mcp_probe.Registry.{Scored, given, value_error, uncaught, freshness, score_payload, score_batch}

-- The response of a route
pub record Response : Type 0 where
  pub status : ℕ
  pub body : Fields
  pub has_rubric : Bool

abbrev pub error_response : String → Response
error_response text = record {
  status = 400;
  body = of_fields (("error", str text) ∷ []);
  has_rubric = false;
}

abbrev pub report_response : Fields → Response
report_response body = record { status = 200; body = body; has_rubric = true }

abbrev pub plain_response : Fields → Response
plain_response body = record { status = 200; body = body; has_rubric = false }

-- `except ValueError`; `none` is an exception that the route does not catch
abbrev pub or_400 : (Fields → Response) → Scored Fields → Option Response
or_400 respond (given fs) = some (respond fs)
or_400 respond (value_error text) = some (error_response text)
or_400 respond uncaught = none

-- The body of a request that is an object: `body.get` of anything else raises
abbrev pub with_object : (Fields → Option Response) → Option Json → Option Response
with_object k none = some (error_response "invalid JSON body")
with_object k (some (obj fs)) = k fs
with_object k (some v) = none

-- `healthz`
abbrev pub healthz : Response
healthz =
    report_response (of_fields (("status", str "ok") ∷ ("rubric_version", str current_rubric) ∷ []))

-- `actual == claimed`, where `actual` is a text
abbrev is_actual : Json → Json → Bool
is_actual (str s) claimed = is_text s (some claimed)
is_actual v claimed = false

-- What `verify` answers for a report
unfoldable pub verified : Json → Fields → Fields
verified claimed report =
    let actual = get_raw "provenance_hash" report in
    of_fields (
      ("verified", bool (is_actual actual claimed))
      ∷ ("claimed", claimed)
      ∷ ("actual", actual)
      ∷ ("rubric_version", get_raw "rubric_version" report)
      ∷ [])

module _ (sha256 : String → String) (dumps : Json → String) where
  module _ (show : Json → String) where
    -- `freshness_route`
    abbrev asked_freshness : Fields → Json → Json → Option Response
    asked_freshness body rubric hash =
        if truthy rubric && truthy hash
        then or_400 plain_response (freshness sha256 dumps show (obj body) rubric hash)
        else some (error_response "missing rubric_version or surface_hash")

    unfoldable pub freshness_route : Option Json → Option Response
    freshness_route request =
        with_object
          (λ (body : Fields).
            asked_freshness body (get_raw "rubric_version" body) (get_raw "surface_hash" body))
          request

  module _ (registry : ServerSurface → Registry) (elapsed : Json) where
    -- `score`
    unfoldable pub score_route : Option Json → Option Response
    score_route none = some (error_response "invalid JSON body")
    score_route (some payload) =
        or_400 report_response (score_payload sha256 dumps registry elapsed payload)

    -- `score_batch_route` of the value of `servers`
    abbrev batch_response : Option Json → Option Response
    batch_response (some (arr servers)) = do
      result ← score_batch sha256 dumps registry elapsed (items servers)
      some (report_response result)
    batch_response _ = some (error_response "body must contain a 'servers' array")

    unfoldable pub score_batch_route : Option Json → Option Response
    score_batch_route request =
        with_object (λ (body : Fields). batch_response (find_field "servers" body)) request

    abbrev claimed_response : Fields → Json → Option Response
    claimed_response body claimed =
        if truthy claimed
        then or_400 (λ report. plain_response (verified claimed report))
            (score_payload sha256 dumps registry elapsed (obj body))
        else some (error_response "missing provenance_hash")

    -- `verify`
    unfoldable pub verify : Option Json → Option Response
    verify request =
        with_object (λ (body : Fields). claimed_response body (get_raw "provenance_hash" body))
          request
