-- ===== src/Spec/Client.antt =====
-- src/mcp_quality/connect/client.py and transport.py: the client that the family drives. What the
-- session of the package gives is a parameter.
use mcp_probe.Base.Dict.{Dict, get}
use mcp_probe.Base.{
  ◌>>=◌, String, Bool, Option, false, option_or, List, some, ◌++◌, ◌∷◌, if◌then◌else◌, [], none,
  true, ◌||◌,
}
use mcp_probe.Base.Json.{Json, obj, truthy?, of_fields, str, arr, of_items, bool}
use mcp_probe.Contract.Results.{Answer, answered, raised}
use mcp_probe.Spec.Capture.{ResourceResolution, TaskObservation, CaptureLog}

-- `MCPClientProtocol`, of a server that has a state
pub record Client (S : Type 0) : Type 0 where
  pub call_tool : String → Json → S → Answer × S
  pub read_resource : String → S → ResourceResolution × S
  pub drive_task : String → Json → Bool → S → Option TaskObservation × S
  pub capture : S → CaptureLog

-- What the session gives when a resource is read: an exception's text, or `result.contents`
pub data Reading : Type 0 where
  failed : String → Reading
  contents : Option Json → Reading

-- `MCPClient.read_resource`
unfoldable pub resolution : String → Reading → ResourceResolution
resolution uri (failed exc) = record { uri = uri; ok = false; error = some exc }
resolution uri (contents found) = record {
  uri = uri;
  ok = truthy? found;
  error = if truthy? found then none else some "empty contents";
}

-- What the session gives when a tool is called: the text of an error of the protocol, that of
-- another exception, or a result with its blocks
pub data Reply : Type 0 where
  mcp_error : String → Reply
  crashed : String → Reply
  result : Option (List Json) → Bool → Option Json → Reply

-- `MCPClient.call_tool`
unfoldable pub invoke_result : Reply → Answer
invoke_result (mcp_error exc) = answered (record {
  content = obj (of_fields (("error", str exc) ∷ []));
  structured = none;
  is_error = true;
})
invoke_result (crashed exc) = raised exc
invoke_result (result blocks is_error structured) = answered (record {
  content = arr (of_items (option_or blocks []));
  structured = structured;
  is_error = is_error;
})

-- What the scripted client is given: the results, resolutions and tasks by name
pub record Script : Type 0 where
  pub results : Dict Answer
  pub resources : Dict ResourceResolution
  pub tasks : Dict TaskObservation
  pub captured : CaptureLog

-- `FakeClient.call_tool` of a result that is no function
unfoldable pub fake_answer : Script → String → Answer
fake_answer script name = option_or (get name script.results) (
    answered (record {
      content = obj (of_fields (("ok", bool true) ∷ []));
      structured = none;
      is_error = false;
    }))

-- `FakeClient.read_resource`
unfoldable pub fake_resource : Script → String → ResourceResolution
fake_resource script uri =
    option_or (get uri script.resources) (record { uri = uri; ok = true; error = none })

-- `FakeClient.drive_task`
unfoldable pub fake_task : Script → String → Bool → Option TaskObservation
fake_task script tool cancel = do
  obs ← get tool script.tasks
  some (record obs { cancel_requested = obs.cancel_requested || cancel })

-- `FakeClient`; its state is `calls`
unfoldable pub fake_client : Script → Client (List (String × Json))
fake_client script = record {
  call_tool = λ name args calls. (fake_answer script name, calls ++ (name, args) ∷ []);
  read_resource = λ uri calls. (fake_resource script uri, calls);
  drive_task = λ tool args cancel calls. (fake_task script tool cancel, calls);
  capture = λ calls. script.captured;
}
