-- ===== src/TinyEvm/Config.antt =====
-- src/lib.rs: `REVMConfig`, the configuration as Python sees it, and the methods that set and get
-- the one of the bug inspector.
use tevm.Common.Text.{trim_prefix}
use tevm.External.Parsers.{Parsers}
use tevm.ForkDb.{Context}
use tevm.Instrument.Bug.{InstrumentConfig, default_instrument_config}
use tevm.Instrument.BugInspector.{BugInspector}
use tevm.Prelude.{ℕ, ◌≡◌, refl, Bool, List, [], Option, none, some, String, arith}
use tevm.Prelude.Outcome.{Outcome, ok, Exec, pure, lift, ◌>>=◌, and_then}
use tevm.TinyEvm.{TinyEvm, bug_inspector, bug_inspector_mut}

pub record RevmConfig : Type 0 where
  pub enabled : Bool
  pub pcs_by_address : Bool
  pub heuristics : Bool
  pub record_branch_for_target_only : Bool
  pub target_address : Option String
  pub record_sha3_mapping : Bool
  pub fork_block_id : Option String
  pub fork_endpoints : List String
  pub fork_network_id : Option String

module _ (parsers : Parsers) where
  unfoldable pub target_of : Option String → Outcome ℕ
  target_of none = ok 0
  target_of (some addr) = parsers.address_from_str (trim_prefix addr "0x")

  unfoldable pub to_iconfig : RevmConfig → Outcome InstrumentConfig
  to_iconfig config = and_then (target_of config.target_address) λ target. ok (record {
    enabled = config.enabled;
    pcs_by_address = config.pcs_by_address;
    heuristics = config.heuristics;
    record_branch_for_target_only = config.record_branch_for_target_only;
    target_address = target;
    record_sha3_mapping = config.record_sha3_mapping;
  })

  -- `REVMConfig::from`
  unfoldable pub from_iconfig : InstrumentConfig → RevmConfig
  from_iconfig config = record {
    enabled = config.enabled;
    pcs_by_address = config.pcs_by_address;
    heuristics = config.heuristics;
    record_branch_for_target_only = config.record_branch_for_target_only;
    target_address = some (parsers.hex_66 config.target_address);
    record_sha3_mapping = config.record_sha3_mapping;
    fork_block_id = none;
    fork_endpoints = [];
    fork_network_id = none;
  }

  -- `REVMConfig::new` and `REVMConfig::default`
  abbrev pub new_config : RevmConfig
  new_config = from_iconfig default_instrument_config

module _ (cx : Context) (parsers : Parsers) where
  unfoldable pub configure : RevmConfig → Exec (TinyEvm cx) (Unit {0})
  configure config = do
    iconfig ← lift (to_iconfig parsers config)
    bug_inspector_mut cx (λ ins. record ins { instrument_config = iconfig })

  unfoldable pub get_instrument_config : Exec (TinyEvm cx) RevmConfig
  get_instrument_config = do
    ins ← bug_inspector cx
    pure (from_iconfig parsers ins.instrument_config)

  to_iconfig-from_iconfig :
      (config : InstrumentConfig)
      → parsers.address_from_str (trim_prefix (parsers.hex_66 config.target_address) "0x")
        ≡ ok config.target_address
      → to_iconfig parsers (from_iconfig parsers config) ≡ ok config
  unfolding to_iconfig from_iconfig target_of
  to_iconfig-from_iconfig config parses = rw parses refl

  -- An instance reports its configuration, and configuring it with what it reports changes nothing,
  -- if the target address that is printed is parsed back.
  pub configure_reported :
      (t : TinyEvm cx) {ins : BugInspector}
      → t.inspectors.bug_inspector ≡ some ins
      → parsers.address_from_str
          (trim_prefix (parsers.hex_66 ins.instrument_config.target_address) "0x")
        ≡ ok ins.instrument_config.target_address
      → (get_instrument_config t ≡ (ok (from_iconfig parsers ins.instrument_config), t))
        × (configure (from_iconfig parsers ins.instrument_config) t ≡ (ok tt, t))
  unfolding get_instrument_config configure bug_inspector bug_inspector_mut
  configure_reported t {ins} held parses = (
    ground (arith, held),
    ground (arith, held, to_iconfig-from_iconfig ins.instrument_config parses),
  )
