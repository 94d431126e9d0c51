-- ===== src/Tests/Forks.antt =====
-- The theorem on an instance on a fork, at a concrete block.
use tevm.ForkDb.{Context, World, new_db, max_fork_depth_of, create_with_provider}
use tevm.ForkDb.Database.{
  get_fork_block, get_fork_block_id, get_fork_block_by_number, provider_call,
}
use tevm.ForkProvider.{Block, get_block}
use tevm.Cache.FileSystem
use tevm.Prelude.Maps
use tevm.Prelude.Texts
use tevm.Prelude.{refl, true, none, some}
use tevm.Prelude.Outcome.{ok}
use tevm.Tests.{context, disk, remote}
use tevm.Tests.Evm.{evm, setup}
use tevm.TinyEvm.{TinyEvm}
use tevm.TinyEvm.Construction.{
  new_instance, new_fork_db, expect_number, fork_env, block_env_of, instance_of,
}
use tevm.TinyEvm.Construction.Fork.{OnFork, new_instance_forked}

abbrev block : Block
block = record {
  hash = some 9;
  number = some 7;
  timestamp = 1_700_000_000;
  difficulty = 0;
  gas_limit = 30_000_000;
  base_fee_per_gas = some 12;
  author = none;
}

-- a node that knows the block
abbrev forked_context : Context
forked_context = record context { remote = record remote { get_block = λ _. ok (some block) } }

abbrev before : World forked_context
before = record {
  db = new_db true (some 7) (max_fork_depth_of setup.max_fork_depth);
  store = disk;
  call_depth = evm.locals.call_depth;
}

abbrev forked : TinyEvm forked_context
forked =
    instance_of forked_context setup true (block_env_of forked_context setup 7 block) evm.locals
      (fork_env forked_context setup true before).1

new_instance_forked_example : OnFork forked_context setup (some 7) forked
unfolding new_instance new_fork_db create_with_provider fork_env get_fork_block get_fork_block_id
    get_fork_block_by_number Maps.get provider_call get_block FileSystem.get Texts.get
    FileSystem.store FileSystem.write_entry expect_number
new_instance_forked_example =
    new_instance_forked forked_context setup "https://node" (some 7) true evm.locals disk
      {t = forked} refl
