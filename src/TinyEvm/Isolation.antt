-- ===== src/TinyEvm/Isolation.antt =====
-- src/lib.rs: a transaction after other transactions.
use tevm.ForkDb.{Context}
use tevm.External.Execution.{TxResult}
use tevm.External.Numbers.{Numbers}
use tevm.External.Printers.{Printers}
use tevm.Instrument.Bug.{Bug, Heuristics}
use tevm.Instrument.BugInspector.{BugInspector}
use tevm.Instrument.LogInspector.{CallTrace, Log, LogInspector}
use tevm.Prelude.{ℕ, ◌≡◌, refl, List, Option, some, HashMap}
use tevm.Prelude.Outcome.{Exec}
use tevm.TinyEvm.{TinyEvm, bug_inspector_mut, log_inspector_mut}
use tevm.TinyEvm.Transactions.{
  clear_instrumentation, reset_depth, deploy_helper, contract_call_helper,
}

module _ (cx : Context) where
  -- a state with these inspectors and this call depth
  abbrev pub inspected : BugInspector → LogInspector → ℕ → TinyEvm cx → TinyEvm cx
  inspected bugs tracer depth t = record t {
    locals = record t.locals { call_depth = depth };
    inspectors = record { log_inspector = some tracer; bug_inspector = some bugs };
  }

-- an inspector with what earlier transactions left
abbrev pub leftover_bugs : List Bug → List ℕ → Heuristics → BugInspector → BugInspector
leftover_bugs bugs created heuristics ins = record ins {
  bug_data = bugs;
  created_addresses = created;
  heuristics = heuristics;
}

abbrev pub leftover_traces : List CallTrace → List Log → LogInspector → LogInspector
leftover_traces traces logs ins = record ins { traces = traces; logs = logs }

module _ (cx : Context) (n : Numbers) (p : Printers)
    (transact_commit : Exec (TinyEvm cx) TxResult) where
  -- With both inspectors in place a call does not depend on what earlier transactions left in the
  -- instrumentation: whatever bugs, created addresses, heuristics, traces and logs the inspectors
  -- hold, and whatever the call depth is, a call has the same result and leaves the same state.
  pub contract_call_forgets :
      (contract sender : ℕ) (content : List ℕ) (value : ℕ) (limit : Option ℕ) (t : TinyEvm cx)
      (ins : BugInspector) (tracer : LogInspector) (depth depth' : ℕ) (bugs : List Bug)
      (created : List ℕ) (heuristics : Heuristics) (traces : List CallTrace) (logs : List Log)
      → contract_call_helper cx n p transact_commit contract sender content value limit (
          inspected cx
            (leftover_bugs bugs created heuristics ins)
            (leftover_traces traces logs tracer)
            depth
            t)
        ≡ contract_call_helper cx n p transact_commit contract sender content value limit
            (inspected cx ins tracer depth' t)
  unfolding contract_call_helper clear_instrumentation reset_depth bug_inspector_mut
      log_inspector_mut
  contract_call_forgets contract sender content value limit t ins tracer depth depth' bugs created
        heuristics traces logs =
      refl

  -- With both inspectors in place a deployment does not depend on what earlier transactions left
  -- in the instrumentation: whatever bugs, created addresses, heuristics, program counters,
  -- traces and logs the inspectors hold, and whatever the call depth is, a deployment has the
  -- same result and leaves the same state.
  pub deploy_forgets :
      (owner : ℕ) (code : List ℕ) (value : ℕ) (limit force_address : Option ℕ) (t : TinyEvm cx)
      (ins : BugInspector) (tracer : LogInspector) (depth depth' : ℕ) (bugs : List Bug)
      (created : List ℕ) (heuristics : Heuristics) (pcs : HashMap (List ℕ))
      (traces : List CallTrace) (logs : List Log)
      → deploy_helper cx n p transact_commit owner code value limit force_address (
          inspected cx
            (record (leftover_bugs bugs created heuristics ins) { pcs_by_address = pcs })
            (leftover_traces traces logs tracer)
            depth
            t)
        ≡ deploy_helper cx n p transact_commit owner code value limit force_address
            (inspected cx ins tracer depth' t)
  unfolding deploy_helper clear_instrumentation reset_depth bug_inspector_mut log_inspector_mut
  deploy_forgets owner code value limit force_address t ins tracer depth depth' bugs created
        heuristics pcs traces logs =
      refl
