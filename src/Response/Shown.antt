-- ===== src/Response/Shown.antt =====
-- src/response.rs: what the texts and numbers that Python reads stand for, told apart from how they
-- are made.
use tevm.Common.BigInts.{ruint_u256_to_bigint}
use tevm.External.{Externals}
use tevm.External.Numbers.{Numbers, Sign}
use tevm.External.Printers.{Printers}
use tevm.Instrument.LogInspector.{CallTrace, Log}
use tevm.Prelude.{ℕ, ◌≡◌, refl, List, [], ◌∷◌, Option, none, some, String, map}
use tevm.Prelude.Texts.{with_0x}
use tevm.Response.{PyCallTrace, PyLog}
use tevm.Response.BugTypes.{address_text, word_text}
use tevm.Response.Traces.{py_call_trace, py_log, input_text, return_text, status_text}

-- two lists whose members are related in order
pub data Each {A B : Type 0} (R : A → B → Type 0) : List A → List B → Type 0 where
  none_left : Each R [] []
  one_more :
      {a : A} {b : B} {xs : List A} {ys : List B} → R a b → Each R xs ys → Each R (a ∷ xs) (b ∷ ys)

pub Each-map :
    {A B : Type 0} (R : A → B → Type 0) (f : A → B)
    → ((a : A) → R a (f a))
    → (xs : List A) → Each R xs (map f xs)
Each-map R f related [] = none_left
Each-map R f related (a ∷ xs) = one_more (related a) (Each-map R f related xs)

module _ (ext : Externals) (n : Numbers) (p : Printers) where
  -- the text of some bytes, and that of an address and of a word by their bytes
  abbrev pub ShowsBytes : List ℕ → String → Type 0
  ShowsBytes bytes text = text ≡ with_0x (p.hex_encode bytes)

  abbrev pub ShowsAddress : ℕ → String → Type 0
  ShowsAddress address text = ShowsBytes (p.address_bytes address) text

  abbrev pub ShowsWord : ℕ → String → Type 0
  ShowsWord word text = ShowsBytes (ext.word_bytes word) text

  -- No text for no input, and for data or a status that a call has not got.
  abbrev pub ShowsInput : List ℕ → String → Type 0
  ShowsInput [] text = text ≡ ""
  ShowsInput (b ∷ input) text = ShowsBytes (b ∷ input) text

  abbrev pub ShowsReturned : Option (List ℕ) → String → Type 0
  ShowsReturned none text = text ≡ ""
  ShowsReturned (some bytes) text = ShowsBytes bytes text

  abbrev pub ShowsStatus : Option ℕ → String → Type 0
  ShowsStatus none text = text ≡ ""
  ShowsStatus (some status) text = text ≡ p.debug_status status

  -- A trace xs Python sees it.
  abbrev pub ShowsTrace : CallTrace → PyCallTrace → Type 0
  ShowsTrace trace shown =
      (shown.id ≡ trace.id)
      × (shown.depth ≡ trace.depth)
      × (shown.is_static ≡ trace.is_static)
      × ShowsAddress trace.from_address shown.caller
      × ShowsAddress trace.to shown.to
      × (shown.value ≡ n.from_bytes_le Sign.plus (n.as_le_bytes trace.value))
      × ShowsInput trace.input shown.input
      × ShowsReturned trace.return_data shown.return_data
      × ShowsStatus trace.status shown.status

  -- A log xs Python sees it.
  abbrev pub ShowsLog : Log → PyLog → Type 0
  ShowsLog log shown =
      (shown.id ≡ log.id)
      × (shown.depth ≡ log.depth)
      × ShowsAddress log.address shown.address
      × Each ShowsWord log.topics shown.topics
      × ShowsBytes log.content shown.content

  input_text-ShowsInput : (input : List ℕ) → ShowsInput input (input_text ext n p input)
  unfolding input_text
  input_text-ShowsInput [] = refl
  input_text-ShowsInput (b ∷ input) = refl

  return_text-ShowsReturned :
      (content : Option (List ℕ)) → ShowsReturned content (return_text ext n p content)
  unfolding return_text
  return_text-ShowsReturned none = refl
  return_text-ShowsReturned (some bytes) = refl

  status_text-ShowsStatus : (status : Option ℕ) → ShowsStatus status (status_text ext n p status)
  unfolding status_text
  status_text-ShowsStatus none = refl
  status_text-ShowsStatus (some status) = refl

  address_text-ShowsAddress : (address : ℕ) → ShowsAddress address (address_text ext p address)
  unfolding address_text
  address_text-ShowsAddress address = refl

  word_text-ShowsWord : (word : ℕ) → ShowsWord word (word_text ext p word)
  unfolding word_text
  word_text-ShowsWord word = refl

  py_call_trace-ShowsTrace : (trace : CallTrace) → ShowsTrace trace (py_call_trace ext n p trace)
  unfolding py_call_trace ruint_u256_to_bigint
  py_call_trace-ShowsTrace trace = (
    refl,
    refl,
    refl,
    address_text-ShowsAddress trace.from_address,
    address_text-ShowsAddress trace.to,
    refl,
    input_text-ShowsInput trace.input,
    return_text-ShowsReturned trace.return_data,
    status_text-ShowsStatus trace.status,
  )

  py_log-ShowsLog : (log : Log) → ShowsLog log (py_log ext n p log)
  unfolding py_log
  py_log-ShowsLog log = (
    refl,
    refl,
    address_text-ShowsAddress log.address,
    Each-map ShowsWord (word_text ext p) word_text-ShowsWord log.topics,
    refl,
  )

  pub traces-Each :
      (traces : List CallTrace) → Each ShowsTrace traces (map (py_call_trace ext n p) traces)
  traces-Each = Each-map ShowsTrace (py_call_trace ext n p) py_call_trace-ShowsTrace

  pub logs-Each : (logs : List Log) → Each ShowsLog logs (map (py_log ext n p) logs)
  logs-Each = Each-map ShowsLog (py_log ext n p) py_log-ShowsLog

  pub addresses-Each :
      (addresses : List ℕ) → Each ShowsAddress addresses (map (address_text ext p) addresses)
  addresses-Each = Each-map ShowsAddress (address_text ext p) address_text-ShowsAddress
