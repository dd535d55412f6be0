-- ===== src/Spec/Capture/Honest.antt =====
-- src/mcp_quality/connect/transport.py: what the callbacks leave in the log.
use mcp_probe.Base.{
  List, Bool, length, arith, ◌∷◌, true, not, ◌≡◌, [], false, ◌+◌, length-append, count_if, any,
  ◌||◌,
}
use mcp_probe.Spec.Capture.{
  Request, create_message, elicit, CaptureLog, capture_request, capture_all, no_capture,
}

abbrev pub is_sampling : Request → Bool
is_sampling (create_message _ _ _ _) = true
is_sampling (elicit _ _ _ _) = false

abbrev pub is_elicit : Request → Bool
is_elicit r = not (is_sampling r)

-- The log that a session with the requests `rs` leaves of `log`.
abbrev Grown : List Request → CaptureLog → CaptureLog → Type 0
Grown rs log later =
    (length later.sampling ≡ length log.sampling + count_if is_sampling rs)
    × (length later.elicitations ≡ length log.elicitations + count_if is_elicit rs)
    × (later.used_sampling ≡ (log.used_sampling || any is_sampling rs))
    × (later.used_elicitation ≡ (log.used_elicitation || any is_elicit rs))

capture_request-Grown :
    (r : Request) (log : CaptureLog) → Grown (r ∷ []) log (capture_request r log)
unfolding capture_request
capture_request-Grown (create_message prompt messages context tokens) log =
    (length-append log.sampling _, omega arith, ground arith, ground arith)
capture_request-Grown (elicit kind schema message url) log =
    (omega arith, length-append log.elicitations _, ground arith, ground arith)

capture_all-Grown : (rs : List Request) (log : CaptureLog) → Grown rs log (capture_all rs log)
unfolding capture_all
capture_all-Grown [] log = (ground arith, ground arith, ground arith, ground arith)
capture_all-Grown (r ∷ rs) log =
    let one = capture_request-Grown r log in
    let all = capture_all-Grown rs (capture_request r log) in
    (ground arith, ground arith, ground arith, ground arith)

-- After a session the log has one message for each sampling request and one for each elicitation,
-- and a flag is set just where a request of its kind came.
capture_all-counts :
    (rs : List Request)
    → (length (capture_all rs no_capture).sampling ≡ count_if is_sampling rs)
      × (length (capture_all rs no_capture).elicitations ≡ count_if is_elicit rs)
      × ((capture_all rs no_capture).used_sampling ≡ any is_sampling rs)
      × ((capture_all rs no_capture).used_elicitation ≡ any is_elicit rs)
capture_all-counts rs =
    let grown = capture_all-Grown rs no_capture in (omega arith, omega arith, grown.2, grown.3)
