-- ===== src/Response/Traces.antt =====
-- src/response.rs: logs and call traces for Python, `From<Log>` and `From<CallTrace>`.
use tevm.Common.BigInts.{ruint_u256_to_bigint}
use tevm.External.{Externals}
use tevm.External.Numbers.{Numbers}
use tevm.External.Printers.{Printers}
use tevm.Instrument.LogInspector.{CallTrace, Log}
use tevm.Prelude.{ℕ, List, [], ◌∷◌, Option, none, some, String, map}
use tevm.Prelude.Texts.{with_0x}
use tevm.Response.{PyCallTrace, PyLog}
use tevm.Response.BugTypes.{address_text, word_text}

module _ (ext : Externals) (n : Numbers) (p : Printers) where
  unfoldable pub py_log : Log → PyLog
  py_log log = record {
    id = log.id;
    depth = log.depth;
    address = address_text ext p log.address;
    topics = map (word_text ext p) log.topics;
    content = with_0x (p.hex_encode log.content);
  }

  unfoldable pub input_text : List ℕ → String
  input_text [] = ""
  input_text (b ∷ input) = with_0x (p.hex_encode (b ∷ input))

  -- the two `map` with `unwrap_or_default`
  unfoldable pub return_text : Option (List ℕ) → String
  return_text none = ""
  return_text (some content) = with_0x (p.hex_encode content)

  unfoldable pub status_text : Option ℕ → String
  status_text none = ""
  status_text (some status) = p.debug_status status

  unfoldable pub py_call_trace : CallTrace → PyCallTrace
  py_call_trace trace = record {
    id = trace.id;
    caller = address_text ext p trace.from_address;
    to = address_text ext p trace.to;
    value = ruint_u256_to_bigint n trace.value;
    input = input_text trace.input;
    depth = trace.depth;
    return_data = return_text trace.return_data;
    is_static = trace.is_static;
    status = status_text trace.status;
  }
