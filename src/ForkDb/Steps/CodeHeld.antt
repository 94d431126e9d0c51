-- ===== src/ForkDb/Steps/CodeHeld.antt =====
-- src/fork_db.rs: the code of the accounts of any state that the database reaches.
use mathlib.Core.Path.{subst}
use tevm.ForkDb.{AccountInfo, Context, ForkDb, World, create_with_provider}
use tevm.ForkDb.Contracts.{
  HasCode, HoldsCode, commit-HoldsCode, forget-HoldsCode, insert_account_info-HoldsCode,
  set_account-HoldsCode,
}
use tevm.ForkDb.Database
use tevm.ForkDb.Reads.{load_account-inverse, Basic, basic-Basic, known, offline, ignored, loading}
use tevm.ForkDb.Steps.{
  DbStep, Reached, basic, storage, block_hash, get_fork_block, insert_account_storage,
  replace_account_storage, insert_account_info, commit, set_fork_enabled, remove, set_balance, copy,
  elsewhere, created, next,
}
use tevm.ForkDb.Steps.Blocks.{block_hash-HeldCode, get_fork_block-HeldCode}
use tevm.ForkDb.Steps.Keeps.{
  HeldCode, basic-HeldCode, insert_account_storage-HeldCode, replace_account_storage-HeldCode,
  storage-HeldCode,
}
use tevm.Prelude.{
  ℕ, ◌≡◌, ◌⊎◌, inl, inr, refl, sym, ap, arith, ◌∙◌, Bool, List, [], some_inj, Option, none, some,
  HashMap,
}
use tevm.Prelude.Maps
use tevm.Prelude.Maps.{get-nil}
use tevm.Prelude.Outcome.{Outcome, ok, ok-injective}

-- The info has the hash of no bytes, or it carries the code of its hash.
abbrev pub KnowsCode : Context → AccountInfo → Type 0
KnowsCode cx info =
    (info.code_hash ≡ cx.ext.keccak_empty)
    ⊎ ((code : List ℕ) × (info.code ≡ some code) × (cx.ext.keccak256 code ≡ info.code_hash))

some≢none : {A : Type 0} {a : A} → some a ≡ none → ⊥
some≢none h = cc

module _ (cx : Context) where
  DbStep-HeldCode : {w w' : World cx} → DbStep cx w w' → HeldCode cx w → HeldCode cx w'
  unfolding HeldCode
  DbStep-HeldCode (basic a w) holds = basic-HeldCode cx a w holds
  DbStep-HeldCode (storage a index w) holds = storage-HeldCode cx a index w holds
  DbStep-HeldCode (block_hash number w) holds = block_hash-HeldCode cx number w holds
  DbStep-HeldCode (get_fork_block w) holds = get_fork_block-HeldCode cx w holds
  DbStep-HeldCode (insert_account_storage a slot value w) holds =
      insert_account_storage-HeldCode cx a slot value w holds
  DbStep-HeldCode (replace_account_storage a slots w) holds =
      replace_account_storage-HeldCode cx a slots w holds
  DbStep-HeldCode (insert_account_info a info w matches) holds =
      insert_account_info-HoldsCode cx.ext a info w.db matches holds
  DbStep-HeldCode (commit changes w matches) holds =
      commit-HoldsCode cx.ext changes w.db matches holds
  DbStep-HeldCode (set_fork_enabled enabled w) holds = holds
  DbStep-HeldCode (remove a w) holds = forget-HoldsCode cx.ext a w.db holds
  DbStep-HeldCode (set_balance a balance account w held) holds =
      set_account-HoldsCode cx.ext a
        (record account { info = record account.info { balance = balance } }) w.db holds
        (holds a account held)
  DbStep-HeldCode (copy from to account w held) holds =
      set_account-HoldsCode cx.ext to account w.db holds (holds from account held)
  DbStep-HeldCode (elsewhere store call_depth w) holds = holds

  accounts-create_with_provider :
      (has_provider : Bool) (block_id : Option ℕ) (depth : Option (Option ℕ)) {db : ForkDb}
      → create_with_provider cx.remote has_provider block_id depth ≡ ok db
      → db.accounts ≡ []
  unfolding create_with_provider
  accounts-create_with_provider has_provider block_id depth e = ground (arith, e)

  created-HoldsCode : (w : World cx) → w.db.accounts ≡ [] → HoldsCode cx.ext w.db
  created-HoldsCode w none_yet a account h =
      absurd (some≢none (sym h ∙ ap (λ m. Maps.get m a) none_yet ∙ get-nil a))

  Reached-HeldCode : {w : World cx} → Reached cx w → HeldCode cx w
  unfolding HeldCode
  Reached-HeldCode (created has_provider block_id depth w e) =
      created-HoldsCode w (accounts-create_with_provider has_provider block_id depth e)
  Reached-HeldCode (next before step) = DbStep-HeldCode step (Reached-HeldCode before)

  Reached-HoldsCode : {w : World cx} → Reached cx w → HoldsCode cx.ext w.db
  unfolding HeldCode
  Reached-HoldsCode reached = Reached-HeldCode reached

  HasCode-KnowsCode :
      (contracts : HashMap (List ℕ)) (info : AccountInfo)
      → HasCode cx.ext contracts info
      → KnowsCode cx info
  HasCode-KnowsCode contracts info (inl empty) = inl empty
  HasCode-KnowsCode contracts info (inr (filed, code)) = inr code

  none≢info :
      {info : AccountInfo} {v w : World cx}
      → ◌≡◌ {A = Outcome (Option AccountInfo) × World cx} (ok none, v) (ok (some info), w)
      → ⊥
  none≢info k = some≢none (sym (ok-injective (ap (λ r. r.0) k)))

  basic_way-KnowsCode :
      (a : ℕ) (w : World cx) {info : AccountInfo} {w' : World cx}
      {r : Outcome (Option AccountInfo) × World cx}
      → HoldsCode cx.ext w.db
      → Basic cx a w r
      → r ≡ (ok (some info), w')
      → KnowsCode cx info
  basic_way-KnowsCode a w holds (known account e) k =
      subst (KnowsCode cx) (some_inj (ok-injective (ap (λ r. r.0) k)))
        (HasCode-KnowsCode w.db.contracts account.info (holds a account e))
  basic_way-KnowsCode a w holds (offline e off) k = absurd (none≢info k)
  basic_way-KnowsCode a w holds (ignored e on deep) k = absurd (none≢info k)
  basic_way-KnowsCode a w {info} holds loading k =
      let (f, _, _, found, _) = load_account-inverse cx a w k in
      subst (KnowsCode cx) (sym (some_inj found)) (inr (f.code, refl, refl))

  -- In every state that the database reaches from its creation, by its operations in any order and
  -- whether they end well or not, each account has the hash of no bytes or carries the code of its
  -- hash, under which a contract is filed. So what `basic` returns never leaves revm to ask
  -- `code_by_hash`, which panics. Infos that are written come with the hash of their code.
  pub basic-KnowsCode :
      (a : ℕ) (w : World cx) {info : AccountInfo} {w' : World cx}
      → Reached cx w
      → Database.basic cx a w ≡ (ok (some info), w')
      → HoldsCode cx.ext w'.db × KnowsCode cx info
  basic-KnowsCode a w {info} {w'} reached e =
      let holds = Reached-HoldsCode reached in
      (
        subst {A = Outcome (Option AccountInfo) × World cx} (λ r. HoldsCode cx.ext r.1.db) e
            (Reached-HoldsCode (next reached (basic a w))),
        basic_way-KnowsCode a w holds (basic-Basic cx a w) e,
      )
