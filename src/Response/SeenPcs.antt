-- ===== src/Response/SeenPcs.antt =====
-- src/response.rs: the program counters that were seen, `SeenPcsMap` and `pcs_by_address`.
use tevm.Common.Text.{trim_prefix}
use tevm.External.{Externals}
use tevm.External.Parsers.{Parsers}
use tevm.External.Printers.{Printers}
use tevm.Prelude.{ℕ, List, [], ◌∷◌, Option, String, map, HashMap}
use tevm.Prelude.Maps
use tevm.Prelude.Outcome.{Outcome, ok, err, panic, and_then, invalid_address}
use tevm.Prelude.Texts
use tevm.Prelude.Texts.{TextMap}
use tevm.Response.{Response}
use tevm.Response.BugTypes.{address_text}

abbrev pub SeenPcsMap : Type 0
SeenPcsMap = TextMap (List ℕ)

-- `keys` and `get`
unfoldable pub keys : SeenPcsMap → List String
keys m = map (λ entry. entry.0) m

unfoldable pub get : SeenPcsMap → String → Option (List ℕ)
get m key = Texts.get m key

module _ (ext : Externals) (p : Printers) where
  -- the loop of `from`, in the order of the list
  unfoldable pub add_pcs : HashMap (List ℕ) → SeenPcsMap → SeenPcsMap
  add_pcs [] m = m
  add_pcs ((addr, pcs) ∷ rest) m = add_pcs rest (Texts.insert (address_text ext p addr) pcs m)

  unfoldable pub seen_pcs_map : HashMap (List ℕ) → SeenPcsMap
  seen_pcs_map seen_pcs = add_pcs seen_pcs []

module _ (parsers : Parsers) where
  -- `.or(Err(..))`
  unfoldable pub or_invalid : Outcome ℕ → Outcome ℕ
  or_invalid (ok a) = ok a
  or_invalid (err _) = err invalid_address
  or_invalid panic = panic

  unfoldable pub pcs_by_address : String → Response → Outcome (List ℕ)
  pcs_by_address address response =
      and_then (or_invalid (parsers.address_from_str (trim_prefix address "0x")))
        λ a. ok (Maps.entry_or [] response.seen_pcs a)
