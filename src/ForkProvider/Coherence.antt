-- ===== src/ForkProvider/Coherence.antt =====
-- src/fork_provider.rs: the cache entries of the reads against the answers of the node.
use tevm.Cache.{ProviderCache, Request, IsCache}
use tevm.ForkProvider.{Reader, request, fetch_and_store, cached_read}
use tevm.Prelude.{ℕ, ◌≡◌, ◌≢◌, sym, ap, ◌∙◌, ◌↔◌, some, String, arith}
use tevm.Prelude.Outcome.{
  Error, Outcome, ok, err, panic, unwrap, ok-injective, Outcome-cases, returned, failed, panicked,
}

-- An entry for the read at the block, if there is one, parses to what the node answers.
pub record Agrees (cache : ProviderCache) {A : Type 0} (rd : Reader A) (n : ℕ) (s : cache.Store)
    : Type 0 where
  pub at :
      (v : String) → cache.get (request n rd.api rd.key) s ≡ ok v → rd.decode v ≡ rd.fetch (some n)

-- What was printed is parsed back.
pub record RoundTrips {A : Type 0} (rd : Reader A) : Type 0 where
  pub trip : (a : A) → rd.decode (rd.encode a) ≡ ok a

unwrap-eq-ok : {A : Type 0} (r : Outcome A) (a : A) → (unwrap r ≡ ok a) ↔ (r ≡ ok a)
unwrap-eq-ok (ok b) a = (λ h. h, λ h. h)
unwrap-eq-ok (err e) a = (λ h. cc, λ h. cc)
unwrap-eq-ok panic a = (λ h. cc, λ h. cc)

module _ (cache : ProviderCache) {A : Type 0} (rd : Reader A) (n : ℕ) (s : cache.Store) where
  cached_read_hit :
      (v : String)
      → cache.get (request n rd.api rd.key) s ≡ ok v
      → cached_read cache rd (some n) s ≡ (unwrap (rd.decode v), s)
  unfolding cached_read
  cached_read_hit v h = ground (arith, h)

  cached_read_miss :
      {x : Error}
      → cache.get (request n rd.api rd.key) s ≡ err x
      → cached_read cache rd (some n) s ≡ fetch_and_store cache rd (some n) s
  unfolding cached_read
  cached_read_miss h = ground (arith, h)

  fetch_and_store_correct :
      (a : A)
      → (cache.store (request n rd.api rd.key) (rd.encode a) s).0 ≡ ok tt
      → ((fetch_and_store cache rd (some n) s).0 ≡ ok a) ↔ (rd.fetch (some n) ≡ ok a)
  unfolding fetch_and_store
  fetch_and_store_correct a stores = (fetched, λ e. ground (arith, e, stores))
    where
      fetched : (fetch_and_store cache rd (some n) s).0 ≡ ok a → rd.fetch (some n) ≡ ok a
      fetched h = elim (Outcome-cases (rd.fetch (some n))) [
        | returned b e ↦
            let stored = cache.store (request n rd.api rd.key) (rd.encode b) s in
            ground (arith, e, h, Outcome-cases stored.0)
        | failed x e ↦ ground (arith, e)
        | panicked e ↦ ground (arith, e)
      ]

module _ (cache : ProviderCache) (Named : Request → Type 0) (law : IsCache cache Named) {A : Type 0}
    (rd : Reader A) (n : ℕ) (s : cache.Store) where
  -- A read at a block whose cache entry, if there is one, parses to the answer of the node for
  -- that block, and whose result can be stored, returns a value exactly if the node answers with
  -- that value. This holds of every cache that satisfies the laws of one.
  pub cached_read_correct :
      (a : A)
      → Agrees cache rd n s
      → (cache.store (request n rd.api rd.key) (rd.encode a) s).0 ≡ ok tt
      → ((cached_read cache rd (some n) s).0 ≡ ok a) ↔ (rd.fetch (some n) ≡ ok a)
  cached_read_correct a agrees stores =
      elim (Outcome-cases (cache.get (request n rd.api rd.key) s)) [
        | returned v e ↦ rw (cached_read_hit cache rd n s v e, agrees.at v e) (unwrap-eq-ok _ a)
        | failed x e ↦
            rw (cached_read_miss cache rd n s e) (fetch_and_store_correct cache rd n s a stores)
        | panicked e ↦ absurd (law.get-ne-panic _ s e)
      ]

  -- what a read does to the cache
  data Effect (s' : cache.Store) : Type 0 where
    none_stored : s' ≡ s → Effect s'
    stored :
        (a : A)
        → rd.fetch (some n) ≡ ok a
        → s' ≡ (cache.store (request n rd.api rd.key) (rd.encode a) s).1
        → Effect s'

  fetch_and_store-Effect : Effect (fetch_and_store cache rd (some n) s).1
  unfolding fetch_and_store
  fetch_and_store-Effect = elim (Outcome-cases (rd.fetch (some n))) [
    | returned a e ↦ stored a e (ground (arith, e))
    | failed x e ↦ none_stored (ground (arith, e))
    | panicked e ↦ none_stored (ground (arith, e))
  ]

  cached_read-Effect : Effect (cached_read cache rd (some n) s).1
  cached_read-Effect = elim (Outcome-cases (cache.get (request n rd.api rd.key) s)) [
    | returned v e ↦ none_stored (ap (λ p. p.1) (cached_read_hit cache rd n s v e))
    | failed x e ↦ rw (cached_read_miss cache rd n s e) fetch_and_store-Effect
    | panicked e ↦ absurd (law.get-ne-panic _ s e)
  ]

  -- A read at a block leaves the entry of every read with another request parsing to the answer
  -- of the node, if it did before.
  pub cached_read-Agrees_ne :
      {B : Type 0} (other : Reader B) (m : ℕ)
      → Named (request n rd.api rd.key)
      → Named (request m other.api other.key)
      → request n rd.api rd.key ≢ request m other.api other.key
      → Agrees cache other m s
      → Agrees cache other m (cached_read cache rd (some n) s).1
  cached_read-Agrees_ne other m named named' ne agrees = elim cached_read-Effect [
    | none_stored e ↦ rw e agrees
    | stored a f e ↦ rw e (record {
      at = λ v h. agrees.at v (sym (law.get-store_ne _ _ (rd.encode a) s named named' ne) ∙ h);
    })
  ]

  -- A read at a block leaves its own entry parsing to the answer of the node, if it did before,
  -- every printed value is parsed back, and the value that the node answers can be stored. A store
  -- that fails may leave a truncated entry.
  pub cached_read-Agrees :
      RoundTrips rd
      → ((a : A)
          → rd.fetch (some n) ≡ ok a
          → (cache.store (request n rd.api rd.key) (rd.encode a) s).0 ≡ ok tt)
      → Agrees cache rd n s
      → Agrees cache rd n (cached_read cache rd (some n) s).1
  cached_read-Agrees trips stores agrees = elim cached_read-Effect [
    | none_stored e ↦ rw e agrees
    | stored a f e ↦
        let req = request n rd.api rd.key in
        rw e (record {
          at = λ v h.
              let same : rd.encode a ≡ v =
                ok-injective (sym (law.get-store req (rd.encode a) s (stores a f)) ∙ h) in
              ap rd.decode (sym same) ∙ trips.trip a ∙ sym f;
        })
  ]
