-- ===== src/Tests/Conversions.antt =====
-- The theorems on conversions, texts and the redis cache, at concrete inputs.
use tevm.Cache.{Request}
use tevm.Cache.Redis.{Redis, join, store, get as get_entry}
use tevm.Cache.RedisKeys.{Plain, FromProvider, KeepsKeys, redis_reads_back}
use tevm.Common.BigInts.{bigint_to_ruint_u256, bigint_to_ruint_u256_exact}
use tevm.External.Numbers.{BigInt}
use tevm.Instrument.Bug.{BugType}
use tevm.Prelude.{ℕ, zero, suc, ◌≡◌, ◌≢◌, refl, ap, [], String, arith}
use tevm.Prelude.Outcome.{ok, io_failed, context}
use tevm.Prelude.Texts
use tevm.Prelude.Texts.{TextMap, get-insert}
use tevm.Response.Readable.{hash_map_from_bug_type-injective}
use tevm.Tests.{ext}
use tevm.Tests.Libraries.{
  numbers, numbers-CountsBytes, printers, printers-KeepsAddresses, printers-PrintsBack, strokes,
  counted, counted-strokes,
}
use text.Mathlib.TextEquality.{eq_iff}

bigint_to_ruint_u256_exact_example : bigint_to_ruint_u256 numbers (BigInt.pos 300) ≡ ok 300
bigint_to_ruint_u256_exact_example =
    bigint_to_ruint_u256_exact numbers numbers-CountsBytes (BigInt.pos 300)

hash_map_from_bug_type-injective_example : BugType.sstore 5 300 ≡ BugType.sstore 5 300
hash_map_from_bug_type-injective_example =
    hash_map_from_bug_type-injective ext printers (BugType.sstore 5 300) (BugType.sstore 5 300)
      printers-PrintsBack printers-KeepsAddresses (omega arith, omega arith)
      (omega arith, omega arith) refl

-- a server that keeps its entries in a list
abbrev redis : Redis
redis = record {
  Client = Unit;
  Server = TextMap String;
  open_client = λ _. ok tt;
  get_connection = λ _ _. ok tt;
  set = λ _ k v s. (ok tt, Texts.insert k v s);
  get = λ _ k s. context (Texts.get s k) io_failed;
  decimal = λ b. strokes b String.[];
}

Plain-strokes : (k : ℕ) → Plain (strokes k String.[])
Plain-strokes zero = (refl, tt)
Plain-strokes (suc k) = (refl, Plain-strokes k)

strokes-injective : (b c : ℕ) → strokes b String.[] ≡ strokes c String.[] → b ≡ c
strokes-injective b c e =
    ground (arith, ap (counted 0) e, counted-strokes 0 b String.[], counted-strokes 0 c String.[])

redis-KeepsKeys : KeepsKeys redis tt
redis-KeepsKeys = record {
  get-set = λ k v s h. ground (arith, get-insert k k v s, eq_iff k k);
  get-set_ne = λ k j v s h. ground (arith, get-insert k j v s, eq_iff k j, h);
  connection-set = λ k v s. refl;
  plain = λ b. Plain-strokes b;
  one_number = λ b c e. strokes-injective b c e;
}

abbrev balance_request : Request
balance_request = record { chain = "eth"; block = 3; api = "eth_getBalance"; request_hash = "a_b" }

abbrev code_request : Request
code_request = record { chain = "eth"; block = 3; api = "eth_getCode"; request_hash = "a_b" }

eth_get_balance : FromProvider balance_request
unfolding join
eth_get_balance = (
  (refl, (refl, (refl, tt))),
  (
    "getBalance",
    (refl, (refl, (refl, (refl, (refl, (refl, (refl, (refl, (refl, (refl, tt)))))))))),
    refl,
  ),
)

eth_get_code : FromProvider code_request
unfolding join
eth_get_code = (
  (refl, (refl, (refl, tt))),
  ("getCode", (refl, (refl, (refl, (refl, (refl, (refl, (refl, tt))))))), refl),
)

redis_reads_back_example :
    let s' = (store redis tt balance_request "0x1" []).1 in
    (get_entry redis tt balance_request s' ≡ ok "0x1")
    × (balance_request ≢ code_request
        → get_entry redis tt code_request s' ≡ get_entry redis tt code_request [])
unfolding store join
redis_reads_back_example =
    redis_reads_back redis tt redis-KeepsKeys balance_request code_request "0x1" [] eth_get_balance
      eth_get_code refl
