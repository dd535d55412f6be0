-- ===== src/Registry/Verify.antt =====
-- src/mcp_quality/registry.py: a claimed hash against the score of a payload.
use mcp_probe.Connect.Discover.{result_or, surface_from_payload, surface_of_object}
use mcp_probe.Registry.{
  static_report, uncaught, value_error, score_of, Scored, built, given, scored_report,
  payload_surface, score_payload,
}
use mcp_probe.Registry.Routes.{or_400, plain_response, verified, Response, verify}
use mcp_probe.Report.Emitter.{provenance_hash, report_to_dict}
use mcp_probe.Models.{ServerSurface}
use mcp_probe.Base.Json.{null, bool, int, float, arr, str, find_field, field, obj, Fields, Json}
use mcp_probe.Base.{sym, none, some, ◌∙◌, ap, str_eq, false, Option, ◌≡◌, str_empty, String, refl}
use mcp_probe.Pipeline.Engines.{Registry}

module _ (sha256 : String → String) (dumps : Json → String) where
  surface-claimed :
      (v : Json) (fs : Fields) (found : Option Json)
      → surface_of_object sha256 dumps (result_or (field "provenance_hash" v fs) found)
        ≡ surface_of_object sha256 dumps (result_or fs found)
  unfolding surface_of_object
  surface-claimed v fs none = refl
  surface-claimed v fs (some null) = refl
  surface-claimed v fs (some (bool b)) = refl
  surface-claimed v fs (some (int s n)) = refl
  surface-claimed v fs (some (float x)) = refl
  surface-claimed v fs (some (str s)) = refl
  surface-claimed v fs (some (arr xs)) = refl
  surface-claimed v fs (some (obj gs)) = refl

  -- The claim is no part of the payload.
  payload_surface-claimed :
      (v : Json) (fs : Fields)
      → payload_surface sha256 dumps (obj (field "provenance_hash" v fs))
        ≡ payload_surface sha256 dumps (obj fs)
  unfolding payload_surface surface_from_payload
  payload_surface-claimed v fs = ap built (surface-claimed v fs (find_field "result" fs))

  module _ (registry : ServerSurface → Registry) (elapsed : Json) where
    score_of-given :
        (found : Scored ServerSurface) (report : Fields)
        → score_of sha256 dumps registry elapsed found ≡ given report
        → (surface : ServerSurface) × (found ≡ given surface)
          × (report_to_dict sha256 dumps false (scored_report sha256 dumps registry elapsed surface)
              ≡ report)
    score_of-given (given surface) report h = (surface, refl, cc h)
    score_of-given (value_error text) report h = absurd (cc)
    score_of-given uncaught report h = absurd (cc)

    -- The report of a payload that is scored is that of its surface.
    pub score_payload-given :
        (payload : Json) (report : Fields)
        → score_payload sha256 dumps registry elapsed payload ≡ given report
        → (surface : ServerSurface) × (payload_surface sha256 dumps payload ≡ given surface)
          × (report_to_dict sha256 dumps false (scored_report sha256 dumps registry elapsed surface)
              ≡ report)
    unfolding score_payload
    score_payload-given payload report h =
        score_of-given (payload_surface sha256 dumps payload) report h

    -- A payload that is scored, sent with a hash that is not empty, is answered with 200, and is
    -- verified exactly where the hash is the one in the report of its score.
    pub verify-verified :
        (fs : Fields) (claimed : String) (report : Fields)
        → str_empty claimed ≡ false
        → score_payload sha256 dumps registry elapsed (obj fs) ≡ given report
        → (actual : String) × (response : Response) × (find_field "provenance_hash" report
            ≡ some (str actual))
          × (verify sha256 dumps registry elapsed
                (some (obj (field "provenance_hash" (str claimed) fs)))
              ≡ some response)
          × (response.status ≡ 200)
          × (find_field "verified" response.body ≡ some (bool (str_eq claimed actual)))
    unfolding verify verified score_payload report_to_dict scored_report static_report
    verify-verified fs claimed report filled h =
        let (surface, found, made) = score_payload-given (obj fs) report h in
        let claim = payload_surface-claimed (str claimed) fs ∙ found in
        let made_of = scored_report sha256 dumps registry elapsed surface in
        let answer = λ (r : Fields). plain_response (verified (str claimed) r) in
        (
          provenance_hash sha256 dumps made_of,
          answer (report_to_dict sha256 dumps false made_of),
          ap (find_field "provenance_hash") (sym made),
          rw filled (ap (λ o. or_400 answer (score_of sha256 dumps registry elapsed o)) claim),
          refl,
          refl,
        )
