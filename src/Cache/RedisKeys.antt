-- ===== src/Cache/RedisKeys.antt =====
-- src/cache/redis_cache.rs: the keys of requests, and the entries under them.
use Prim.Native.Char.{Char, code}
use mathlib.Core.Path.{subst}
use tevm.Cache.{Request}
use tevm.Cache.Redis.{Redis, join, key_of, store, get}
use tevm.Prelude.{ℕ, ◌≡◌, ◌≢◌, refl, ap, sym, ◌∙◌, false, ◌==◌, String, arith}
use tevm.Prelude.Outcome.{ok, continue-eq-ok}

-- A text without an underscore.
abbrev pub Plain : String → Type 0
Plain String.[] = Unit
Plain (String.◌∷◌ c text) = ((code c == 95) ≡ false) × Plain text

first_of : String → Char
first_of String.[] = "_"
first_of (String.◌∷◌ c _) = c

rest_of : String → String
rest_of String.[] = String.[]
rest_of (String.◌∷◌ _ text) = text

join-injective : (a b x y : String) → Plain a → Plain b → join a x ≡ join b y → (a ≡ b) × (x ≡ y)
unfolding join first_of rest_of
join-injective String.[] String.[] x y ha hb e = (refl, ap rest_of e)
join-injective String.[] (String.◌∷◌ d b) x y ha hb e =
    absurd (ground (arith, hb.0, ap (λ s. code (first_of s)) e))
join-injective (String.◌∷◌ c a) String.[] x y ha hb e =
    absurd (ground (arith, ha.0, ap (λ s. code (first_of s)) e))
join-injective (String.◌∷◌ c a) (String.◌∷◌ d b) x y ha hb e =
    let (same, rest) = join-injective a b x y ha.1 hb.1 (ap rest_of e) in
    ((λ i. String.◌∷◌ (first_of (e i)) (same i)), rest)

join_assoc : (a b c : String) → join (join a b) c ≡ join a (join b c)
unfolding join
join_assoc String.[] b c = refl
join_assoc (String.◌∷◌ d a) b c = ap (String.◌∷◌ d) (join_assoc a b c)

join_cancel : (a x y : String) → join a x ≡ join a y → x ≡ y
unfolding join rest_of
join_cancel String.[] x y e = ap rest_of e
join_cancel (String.◌∷◌ c a) x y e = join_cancel a x y (ap rest_of e)

-- The requests of src/fork_provider.rs: the chain is "eth", and the api is "eth_" with the name of a
-- method.
abbrev pub FromProvider : Request → Type 0
FromProvider r = Plain r.chain × ((method : String) × Plain method × (r.api ≡ join "eth" method))

-- What is assumed of a server: it keeps what was set, under its key alone and only when `set`
-- succeeded, it can be reached after a write if it could before, no call panics, and a decimal
-- number has no underscore and is printed for one number.
pub record KeepsKeys (redis : Redis) (client : redis.Client) : Type 0 where
  pub get-set :
      (k v : String) (s : redis.Server)
      → (redis.set client k v s).0 ≡ ok tt
      → redis.get client k (redis.set client k v s).1 ≡ ok v
  pub get-set_ne :
      (k j v : String) (s : redis.Server)
      → k ≢ j
      → redis.get client j (redis.set client k v s).1 ≡ redis.get client j s
  pub connection-set :
      (k v : String) (s : redis.Server)
      → redis.get_connection client (redis.set client k v s).1 ≡ redis.get_connection client s
  pub plain : (b : ℕ) → Plain (redis.decimal b)
  pub one_number : (b c : ℕ) → redis.decimal b ≡ redis.decimal c → b ≡ c

api-injective :
    (r q : Request)
    → FromProvider r
    → FromProvider q
    → join r.api r.request_hash ≡ join q.api q.request_hash
    → (r.api ≡ q.api) × (r.request_hash ≡ q.request_hash)
api-injective r q (_, (m, hm, er)) (_, (l, hl, eq)) e =
    let flat : join "eth" (join m r.request_hash) ≡ join "eth" (join l q.request_hash) =
      sym (join_assoc "eth" m r.request_hash)
      ∙ ap (λ a. join a r.request_hash) (sym er)
      ∙ e
      ∙ ap (λ a. join a q.request_hash) eq
      ∙ join_assoc "eth" l q.request_hash in
    let (same, hash) =
      join-injective m l r.request_hash q.request_hash hm hl (join_cancel "eth" _ _ flat) in
    (er ∙ ap (join "eth") same ∙ sym eq, hash)

module _ (redis : Redis) (client : redis.Client) (law : KeepsKeys redis client) where
  key_of-injective :
      (r q : Request) → FromProvider r → FromProvider q → key_of redis r ≡ key_of redis q → r ≡ q
  unfolding key_of
  key_of-injective r q hr hq e =
      let (chain, e1) =
        join-injective r.chain q.chain _ _ hr.0 hq.0 (join_cancel "tinyevm" _ _ e) in
      let (block, e2) =
        join-injective (redis.decimal r.block) (redis.decimal q.block) _ _ (law.plain r.block)
          (law.plain q.block) e1 in
      let (api, hash) = api-injective r q hr hq e2 in
      λ i. record {
        chain = chain i;
        block = law.one_number r.block q.block block i;
        api = api i;
        request_hash = hash i;
      }

  get_reached :
      (r : Request) (s : redis.Server) {u : Unit {0}}
      → redis.get_connection client s ≡ ok u
      → get redis client r s ≡ redis.get client (key_of redis r) s
  unfolding get
  get_reached r s h = rw h refl

  -- Redis as a cache for the requests of the provider: an entry that was stored is read back, and
  -- no other request sees it, although the keys are texts joined by underscores, which the names
  -- of the methods contain.
  pub redis_reads_back :
      (r q : Request) (v : String) (s : redis.Server) {s' : redis.Server}
      → FromProvider r
      → FromProvider q
      → store redis client r v s ≡ (ok tt, s')
      → (get redis client r s' ≡ ok v) × (r ≢ q → get redis client q s' ≡ get redis client q s)
  unfolding store
  redis_reads_back r q v s {s'} hr hq e =
      let (_, reached, written) = continue-eq-ok (redis.get_connection client s) _ s e in
      let k = key_of redis r in
      let kept : (redis.set client k v s).1 ≡ s' = ap (λ x. x.1) written in
      let reached' : redis.get_connection client (redis.set client k v s).1 ≡ ok tt =
        law.connection-set k v s ∙ reached in
      subst
        (λ u. (get redis client r u ≡ ok v) × (r ≢ q → get redis client q u ≡ get redis client q s))
        kept
        (
          get_reached r (redis.set client k v s).1 reached'
              ∙ law.get-set k v s (ap (λ x. x.0) written),
          λ other.
              get_reached q (redis.set client k v s).1 reached'
              ∙ law.get-set_ne k (key_of redis q) v s
                  (λ same. other (key_of-injective r q hr hq same))
              ∙ sym (get_reached q s reached),
        )
