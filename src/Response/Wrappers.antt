-- ===== src/Response/Wrappers.antt =====
-- src/response.rs: bugs and heuristics for Python, `From<Bug>` and `From<Heuristics>`, and the
-- getters of `Response`.
use tevm.Common.BigInts.{ruint_u256_to_bigint}
use tevm.External.{Externals}
use tevm.External.Numbers.{Numbers}
use tevm.External.Printers.{Printers}
use tevm.Instrument.Bug.{Bug, Heuristics, MissedBranch}
use tevm.Prelude.{ℕ, List, [], ◌∷◌, map, HashMap}
use tevm.Prelude.Texts.{TextMap, insert, with_0x}
use tevm.Response.{Response, WrappedBug, WrappedHeuristics, WrappedMissedBranch}
use tevm.Response.BugTypes.{hash_map_from_bug_type, address_text}

module _ (ext : Externals) (n : Numbers) (p : Printers) where
  unfoldable pub wrapped_bug : Bug → WrappedBug
  wrapped_bug bug = record {
    bug_type = hash_map_from_bug_type ext p bug.bug_type;
    opcode = bug.opcode;
    position = bug.position;
    address_index = bug.address_index;
  }

  unfoldable pub wrapped_missed_branch : MissedBranch → WrappedMissedBranch
  wrapped_missed_branch x = record {
    prev_pc = x.prev_pc;
    dest_pc = x.dest_pc;
    cond = x.cond;
    distance = ruint_u256_to_bigint n x.distance;
    address_index = x.address_index;
  }

  -- the loop over `heuristics.sha3_mapping`, in the order of the list
  unfoldable pub sha3_texts : HashMap (List ℕ) → TextMap (List ℕ) → TextMap (List ℕ)
  sha3_texts [] texts = texts
  sha3_texts ((k, v) ∷ rest) texts = sha3_texts rest (insert (with_0x (p.lower_hex_word k)) v texts)

  unfoldable pub wrapped_heuristics : Heuristics → WrappedHeuristics
  wrapped_heuristics heuristics = record {
    coverage = heuristics.coverage;
    missed_branches = map wrapped_missed_branch heuristics.missed_branches;
    sha3_mapping = sha3_texts heuristics.sha3_mapping [];
    seen_addresses = map (address_text ext p) heuristics.seen_addresses;
    extra_data = ruint_u256_to_bigint n heuristics.distance;
  }

  -- the getters `bug_data` and `heuristics`
  unfoldable pub bug_data : Response → List WrappedBug
  bug_data response = map wrapped_bug response.bug_data

  unfoldable pub heuristics_of : Response → WrappedHeuristics
  heuristics_of response = wrapped_heuristics response.heuristics
