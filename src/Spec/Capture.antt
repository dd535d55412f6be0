-- ===== src/Spec/Capture.antt =====
-- src/mcp_quality/connect/capture.py: the messages that a server sent to its client, and the
-- callbacks of src/mcp_quality/connect/transport.py that record them.
pub mod Honest
use mcp_probe.Base.{
  String, List, Bool, [], Option, join, if◌then◌else◌, true, ℕ, false, some, filter, codes, ◌++◌,
  ◌∷◌, none, not, ◌||◌, text_or_empty, str_empty, option_or, flat_map,
}
use mcp_probe.Base.Json.{Json, Fields, str, obj, find_field, end, get_key}
use mcp_probe.Legibility.Model.{contains}

-- `SampledMessage`; a message is the JSON form of what the package hands over
pub record SampledMessage : Type 0 where
  pub system_prompt : String
  pub messages : List Json
  pub include_context : Option String
  pub max_tokens : Option ℕ

pub record ElicitedRequest : Type 0 where
  pub message : String
  pub mode : String
  pub schema : Fields
  pub url : Option String

pub record ResourceResolution : Type 0 where
  pub uri : String
  pub ok : Bool
  pub error : Option String

pub record TaskObservation : Type 0 where
  pub task_id : String
  pub statuses : List String
  pub reached_terminal : Bool
  pub cancel_requested : Bool
  pub cancelled : Bool
  pub still_active_after_end : Bool

pub record CaptureLog : Type 0 where
  pub sampling : List SampledMessage
  pub elicitations : List ElicitedRequest
  pub used_sampling : Bool
  pub used_elicitation : Bool

abbrev pub no_capture : CaptureLog
no_capture = record {
  sampling = [];
  elicitations = [];
  used_sampling = false;
  used_elicitation = false;
}

-- `str(content.get("text", ""))`, where `show` is `str` of a value that is no text
abbrev pub shown_text : (Json → String) → Option Json → String
shown_text show none = ""
shown_text show (some (str s)) = s
shown_text show (some v) = show v

-- What a message's content adds to the parts
abbrev message_parts : (Json → String) → Option Json → List String
message_parts show (some (obj fs)) = shown_text show (find_field "text" fs) ∷ []
message_parts show (some (str s)) = s ∷ []
message_parts show _ = []

-- `SampledMessage.all_text`
unfoldable pub all_text : (Json → String) → SampledMessage → String
all_text show msg = join "\n" (
    filter (λ (p : String). not (str_empty p))
      (msg.system_prompt
        ∷ flat_map (λ (m : Json). message_parts show (get_key "content" m)) msg.messages))

-- A request of the server: the parameters of a callback, an attribute that is missing as `none`.
-- `kind` is the name of the class of the parameters.
pub data Request : Type 0 where
  create_message : Option String → Option (List Json) → Option String → Option ℕ → Request
  elicit : (kind : String) → Option Json → Option String → Option String → Request

-- `"url" if "URL" in cls or "Url" in cls else ("form" if "Form" in cls else "unknown")`
unfoldable pub elicit_mode : String → String
elicit_mode kind =
    if contains (codes "URL") (codes kind) || contains (codes "Url") (codes kind)
    then "url"
    else if contains (codes "Form") (codes kind)
    then "form"
    else "unknown"

-- `schema if isinstance(schema, dict) else {}`
abbrev as_fields : Option Json → Fields
as_fields (some (obj fs)) = fs
as_fields _ = end

-- `on_sampling` and `on_elicit`
unfoldable pub capture_request : Request → CaptureLog → CaptureLog
capture_request (create_message prompt messages context tokens) log = record log {
  used_sampling = true;
  sampling =
      log.sampling
      ++ record {
        system_prompt = text_or_empty prompt;
        messages = option_or messages [];
        include_context = context;
        max_tokens = tokens;
      }
        ∷ [];
}
capture_request (elicit kind schema message url) log = record log {
  used_elicitation = true;
  elicitations =
      log.elicitations
      ++ record {
        message = text_or_empty message;
        mode = elicit_mode kind;
        schema = as_fields schema;
        url = url;
      }
        ∷ [];
}

-- The requests of a session, in their order
unfoldable pub capture_all : List Request → CaptureLog → CaptureLog
capture_all [] log = log
capture_all (r ∷ rs) log = capture_all rs (capture_request r log)
