-- ===== src/Response/BugTypes.antt =====
-- src/response.rs: `hash_map_from_bug_type`.
use tevm.External.{Externals}
use tevm.External.Printers.{Printers}
use tevm.Instrument.Bug.{BugType}
use tevm.Prelude.{ℕ, [], String}
use tevm.Prelude.Texts.{TextMap, insert, with_0x}

module _ (ext : Externals) (p : Printers) where
  -- the bytes of a word, in hexadecimal
  unfoldable pub word_text : ℕ → String
  word_text w = with_0x (p.hex_encode (ext.word_bytes w))

  unfoldable pub address_text : ℕ → String
  address_text a = with_0x (p.hex_encode (p.address_bytes a))

  unfoldable pub hash_map_from_bug_type : BugType → TextMap String
  unfolding insert
  hash_map_from_bug_type (BugType.jumpi dest) =
      insert "dest" (p.to_string dest) (insert "type" "Jumpi" [])
  hash_map_from_bug_type (BugType.sload index) =
      insert "index" (word_text index) (insert "type" "Sload" [])
  hash_map_from_bug_type (BugType.sstore index value) =
      insert "value" (word_text value)
        (insert "index" (word_text index) (insert "type" "Sstore" []))
  hash_map_from_bug_type (BugType.call input_parameter_size destination_address) =
      insert "dest" (address_text destination_address)
        (insert "size" (p.to_string input_parameter_size) (insert "type" "Call" []))
  hash_map_from_bug_type BugType.integer_overflow = insert "type" "IntegerOverflow" []
  hash_map_from_bug_type BugType.integer_sub_underflow = insert "type" "IntegerSubUnderflow" []
  hash_map_from_bug_type BugType.integer_div_by_zero = insert "type" "IntegerDivByZero" []
  hash_map_from_bug_type BugType.integer_mod_by_zero = insert "type" "IntegerModByZero" []
  hash_map_from_bug_type BugType.possible_integer_truncation =
      insert "type" "PossibleIntegerTruncation" []
  hash_map_from_bug_type BugType.timestamp_dependency = insert "type" "TimestampDependency" []
  hash_map_from_bug_type BugType.block_value_dependency = insert "type" "BlockValueDependency" []
  hash_map_from_bug_type BugType.block_number_dependency = insert "type" "BlockNumberDependency" []
  hash_map_from_bug_type BugType.tx_origin_dependency = insert "type" "TxOriginDependency" []
  hash_map_from_bug_type BugType.revert_or_invalid = insert "type" "RevertOrInvalid" []
  hash_map_from_bug_type BugType.unclassified = insert "type" "Unclassified" []
