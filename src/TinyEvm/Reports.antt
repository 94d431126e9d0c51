-- ===== src/TinyEvm/Reports.antt =====
-- src/lib.rs: the response of a call and the inspectors after it.
use Prim.Native.String.{String, ◌++◌}
use mathlib.Core.Path.{subst}
use tevm.External.Execution.{TxResult, Output, executed, refused, success, revert, halt}
use tevm.External.Numbers.{Numbers}
use tevm.External.Printers.{Printers, ReadsResults}
use tevm.ForkDb.{Context}
use tevm.Instrument.BugInspector.{BugInspector}
use tevm.Instrument.LogInspector.{LogInspector}
use tevm.Prelude.{
  ℕ, ◌≡◌, refl, sym, ap, ◌∙◌, Bool, true, false, List, [], ◌∷◌, HashMap, some_inj, Option, none,
  some, arith,
}
use tevm.Prelude.Outcome.{ok, Exec, >>=-eq-ok, ok-injective}
use tevm.Response.{Response, RevmResult}
use tevm.Response.Conversion.{
  response_of, success_of, gas_of, data_of, reason_of, exit_reason_of, content_of,
}
use tevm.Response.Shown.{
  Each, ShowsAddress, ShowsLog, ShowsTrace, addresses-Each, logs-Each, traces-Each,
}
use tevm.TinyEvm.{TinyEvm, TransactTo, bug_inspector, log_inspector}
use tevm.Prelude.Maps
use tevm.TinyEvm.Prepared.{Prepared, bug_inspector_mut-ok, call-Prepared}
use tevm.TinyEvm.Transactions.{
  clear_instrumentation, reset_depth, set_tx, manage, collect, contract_call_helper,
}

module _ (cx : Context) (n : Numbers) (p : Printers) where
  -- A response holds what the inspectors and the database hold.
  abbrev pub Reports : Response → TinyEvm cx → Type 0
  Reports resp t =
      (bugs : BugInspector) × (tracer : LogInspector) × (t.inspectors.bug_inspector ≡ some bugs)
      × (t.inspectors.log_inspector ≡ some tracer)
      × (resp.bug_data ≡ bugs.bug_data)
      × (resp.heuristics ≡ bugs.heuristics)
      × (resp.seen_pcs ≡ bugs.pcs_by_address)
      × Each (ShowsTrace cx.ext n p) tracer.traces resp.traces
      × Each (ShowsLog cx.ext n p) tracer.logs resp.events
      × Each (ShowsAddress cx.ext n p) t.db.ignored_addresses resp.ignored_addresses

  abbrev EndsWith : Response → Bool → String → List ℕ → ℕ → Type 0
  EndsWith resp succeeds reason content gas =
      (resp.success ≡ succeeds)
      × (resp.exit_reason ≡ reason)
      × (resp.content ≡ content)
      × (resp.gas_usage ≡ gas)

  -- The outcome that a response has for each result of a transaction.
  abbrev pub ReportsResult : Response → TxResult → Type 0
  ReportsResult resp (executed (success gas (Output.call content))) =
      EndsWith resp true "Success" content gas
  ReportsResult resp (executed (success gas (Output.create _ (some a)))) =
      EndsWith resp true "Success" (p.address_bytes a) gas
  ReportsResult resp (executed (success gas (Output.create _ none))) =
      EndsWith resp true "Success" [] gas
  ReportsResult resp (executed (revert gas content)) = EndsWith resp false "Revert" content gas
  ReportsResult resp (executed (halt gas reason)) =
      EndsWith resp false (p.debug_reason reason) [] gas
  ReportsResult resp (refused e) =
      EndsWith resp false ("EVM InfallibleError: " ++ p.debug_error e) [] 0

  response_of-ReportsResult :
      ReadsResults p → (r : RevmResult) → ReportsResult (response_of cx.ext n p r) r.result
  unfolding response_of success_of gas_of data_of reason_of exit_reason_of content_of
  response_of-ReportsResult law r =
      elim r.result as (λ x. ReportsResult (response_of cx.ext n p (record r { result = x })) x) [
        | executed (success gas (Output.call content)) ↦
            (law.success_yes _ _, refl, refl, law.success_gas _ _)
        | executed (success gas (Output.create _ (some a))) ↦
            (law.success_yes _ _, refl, refl, law.success_gas _ _)
        | executed (success gas (Output.create _ none)) ↦
            (law.success_yes _ _, refl, refl, law.success_gas _ _)
        | executed (revert gas content) ↦ (law.revert_no _ _, refl, refl, law.revert_gas _ _)
        | executed (halt gas _) ↦ (law.halt_no _ _, refl, refl, law.halt_gas _ _)
        | refused _ ↦ (refl, refl, refl, refl)
      ]

  abbrev collected : TxResult → List ℕ → BugInspector → LogInspector → RevmResult
  collected result ignored bugs tracer = record {
    result = result;
    bug_data = bugs.bug_data;
    heuristics = bugs.heuristics;
    seen_pcs = bugs.pcs_by_address;
    traces = tracer.traces;
    transient_logs = tracer.logs;
    ignored_addresses = ignored;
  }

  bug_inspector-ok :
      (t : TinyEvm cx) {bugs : BugInspector} {t' : TinyEvm cx}
      → bug_inspector cx t ≡ (ok bugs, t')
      → (t.inspectors.bug_inspector ≡ some bugs) × (t ≡ t')
  unfolding bug_inspector
  bug_inspector-ok t e = (ground (arith, e), ground (arith, e))

  log_inspector-ok :
      (t : TinyEvm cx) {tracer : LogInspector} {t' : TinyEvm cx}
      → log_inspector cx t ≡ (ok tracer, t')
      → (t.inspectors.log_inspector ≡ some tracer) × (t ≡ t')
  unfolding log_inspector
  log_inspector-ok t e = (ground (arith, e), ground (arith, e))

  collect_known :
      (result : TxResult) (ignored : List ℕ) (t : TinyEvm cx) (bugs : BugInspector)
      (tracer : LogInspector)
      → t.inspectors.bug_inspector ≡ some bugs
      → t.inspectors.log_inspector ≡ some tracer
      → collect cx n p result ignored t
        ≡ (ok (response_of cx.ext n p (collected result ignored bugs tracer)), t)
  unfolding collect bug_inspector log_inspector
  collect_known result ignored t bugs tracer has_bugs has_tracer =
      ground (arith, has_bugs, has_tracer)

  collect-known_Reports :
      (law : ReadsResults p) (result : TxResult) (t : TinyEvm cx) (bugs : BugInspector)
      (tracer : LogInspector)
      → t.inspectors.bug_inspector ≡ some bugs
      → t.inspectors.log_inspector ≡ some tracer
      → let resp = response_of cx.ext n p (collected result t.db.ignored_addresses bugs tracer) in
        Reports resp t × ReportsResult resp result
  unfolding response_of
  collect-known_Reports law result t bugs tracer has_bugs has_tracer =
      let r : RevmResult = collected result t.db.ignored_addresses bugs tracer in
      (
        (
          bugs,
          tracer,
          has_bugs,
          has_tracer,
          refl,
          refl,
          refl,
          traces-Each cx.ext n p tracer.traces,
          logs-Each cx.ext n p tracer.logs,
          addresses-Each cx.ext n p t.db.ignored_addresses,
        ),
        response_of-ReportsResult law r,
      )

  known_result :
      (law : ReadsResults p) (result : TxResult) (t : TinyEvm cx) (bugs : BugInspector)
      (tracer : LogInspector) {resp : Response} {t' : TinyEvm cx}
      → t.inspectors.bug_inspector ≡ some bugs
      → t.inspectors.log_inspector ≡ some tracer
      → collect cx n p result t.db.ignored_addresses t ≡ (ok resp, t')
      → Reports resp t' × (t ≡ t') × ReportsResult resp result
  known_result law result t bugs tracer {resp} {t'} has_bugs has_tracer e =
      let known =
        sym (collect_known result t.db.ignored_addresses t bugs tracer has_bugs has_tracer) ∙ e in
      let same_resp : response_of cx.ext n p (collected result t.db.ignored_addresses bugs tracer)
          ≡ resp =
        ok-injective (ap (λ x. x.0) known) in
      let same_t : t ≡ t' = ap (λ x. x.1) known in
      let (reports, ends) =
        subst {A = Response × TinyEvm cx} (λ x. Reports x.0 x.1 × ReportsResult x.0 result)
          (λ i. (same_resp i, same_t i))
          (collect-known_Reports law result t bugs tracer has_bugs has_tracer) in
      (reports, same_t, ends)

  collect-Reports :
      (law : ReadsResults p) (result : TxResult) (t : TinyEvm cx) {resp : Response}
      {t' : TinyEvm cx}
      → collect cx n p result t.db.ignored_addresses t ≡ (ok resp, t')
      → Reports resp t' × (t ≡ t') × ReportsResult resp result
  unfolding collect
  collect-Reports law result t {resp} {t'} e =
      let (bugs, t1, e1, k1) = >>=-eq-ok (bug_inspector cx) _ t e in
      let (tracer, t2, e2, _) = >>=-eq-ok (log_inspector cx) _ t1 k1 in
      let (has_bugs, same1) = bug_inspector-ok t e1 in
      let (has_tracer, _) = log_inspector-ok t1 e2 in
      let has_tracer' = ap (λ u. u.inspectors.log_inspector) same1 ∙ has_tracer in
      known_result law result t bugs tracer has_bugs has_tracer' e

  -- entering managed addresses changes nothing that a response holds
  Reports-unmanaged :
      (resp : Response) (t : TinyEvm cx) (bugs : BugInspector) (managed : HashMap (List ℕ))
      → t.inspectors.bug_inspector ≡ some bugs
      → Reports resp (record t {
        inspectors = record t.inspectors {
          bug_inspector = some (record bugs { managed_addresses = managed });
        };
      })
      → Reports resp t
  Reports-unmanaged resp t bugs managed held
        (b, tracer, hb, ht, e1, e2, e3, traces, logs, ignored) =
      let same = some_inj hb in
      (
        bugs,
        tracer,
        held,
        ht,
        e1 ∙ sym (ap (λ x. x.bug_data) same),
        e2 ∙ sym (ap (λ x. x.heuristics) same),
        e3 ∙ sym (ap (λ x. x.pcs_by_address) same),
        traces,
        logs,
        ignored,
      )

  Reports-manage :
      (resp : Response) (address : ℕ) (addresses : List ℕ) (t : TinyEvm cx) {u : Unit {0}}
      {t' : TinyEvm cx}
      → manage cx address addresses t ≡ (ok u, t')
      → Reports resp t'
      → Reports resp t
  unfolding manage
  Reports-manage resp address [] t e reports = subst (Reports resp) (sym (ap (λ x. x.1) e)) reports
  Reports-manage resp address (a ∷ addresses) t {t' = t'} e reports =
      let enter : BugInspector → BugInspector = λ ins. record ins {
        managed_addresses = Maps.insert address (a ∷ addresses) ins.managed_addresses;
      } in
      let (bugs, held, same) = bug_inspector_mut-ok cx enter t e in
      Reports-unmanaged resp t bugs (Maps.insert address (a ∷ addresses) bugs.managed_addresses)
        held (subst (Reports resp) (sym same) reports)

  -- What a response tells of the transaction that was run for a call in the state `t`.
  abbrev pub ReportsRun :
      Exec (TinyEvm cx) TxResult → ℕ → ℕ → List ℕ → ℕ → Option ℕ → TinyEvm cx → Response → Type 0
  ReportsRun transact_commit contract sender content value limit t resp =
      (before : TinyEvm cx) × (after : TinyEvm cx) × (result : TxResult) × Prepared cx t sender
        (TransactTo.call contract) content value limit before
      × (transact_commit before ≡ (ok result, after))
      × Reports resp after
      × ReportsResult resp result

  -- The response of a call tells what the transaction left. The transaction is run once, in the
  -- state of the caller with an empty instrumentation, the call depth 0 and the transaction that was
  -- asked for. The response has the bugs, the heuristics, the program counters, every trace and
  -- every log in its order, and the ignored addresses that the inspectors and the database hold
  -- right after it: each number as it is, a value as an integer, and each address, topic and byte
  -- string as the hexadecimal text of its bytes. Its outcome is that of the transaction, for each
  -- way in which this ends: a revert keeps its output, a halt has none, and a refused transaction
  -- has used no gas. The results of revm are read as documented.
  pub contract_call_helper-Reports :
      (transact_commit : Exec (TinyEvm cx) TxResult) (contract sender : ℕ) (content : List ℕ)
      (value : ℕ) (limit : Option ℕ) (t : TinyEvm cx) {resp : Response} {t' : TinyEvm cx}
      → ReadsResults p
      → contract_call_helper cx n p transact_commit contract sender content value limit t
        ≡ (ok resp, t')
      → ReportsRun transact_commit contract sender content value limit t resp
  unfolding contract_call_helper
  contract_call_helper-Reports transact_commit contract sender content value limit t {resp} law e =
      let to = TransactTo.call contract in
      let (_, t1, e1, k1) = >>=-eq-ok (clear_instrumentation cx) _ t e in
      let (_, t2, e2, k2) = >>=-eq-ok (reset_depth cx) _ t1 k1 in
      let (_, t3, e3, k3) = >>=-eq-ok (set_tx cx sender to content value limit) _ t2 k2 in
      let (result, t4, e4, k4) = >>=-eq-ok transact_commit _ t3 k3 in
      let (bugs, t5, e5, k5) = >>=-eq-ok (bug_inspector cx) _ t4 k4 in
      let (_, t6, e6, k6) = >>=-eq-ok (manage cx contract bugs.created_addresses) _ t5 k5 in
      let (reports, same, ends) = collect-Reports law result t6 k6 in
      let reports5 =
        Reports-manage resp contract bugs.created_addresses t5 e6
          (subst (Reports resp) (sym same) reports) in
      let reports4 = subst (Reports resp) (sym (bug_inspector-ok t4 e5).1) reports5 in
      (
        t3,
        t4,
        result,
        call-Prepared cx sender to content value limit t e1 e2 e3,
        e4,
        reports4,
        ends,
      )
