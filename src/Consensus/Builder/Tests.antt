-- ===== src/Consensus/Builder/Tests.antt =====
-- A proposal on the genesis block, whose digest is new.
use kora.Base.{◌≡◌, refl, false, [], ◌∷◌, none, some, get}
use kora.Qmdb.Changes.{ChangeSet}
use kora.Domain.Block.{Block}
use kora.Consensus.Snapshot.{Snapshot, elem}
use kora.App.{digest_of, ids}
use kora.App.Build.{new_block}
use kora.App.Tests.{platform, genesis, genesis_digest, genesis_snapshot, change}
use kora.Consensus.Builder.{ProposalBuilder, proposed, build_proposal}
use kora.Consensus.Builder.Persisted.{RootsPersisted, build_proposal-RootsPersisted}

abbrev builder : ProposalBuilder ChangeSet
builder = record {
  compute_root = λ c. some 77;
  build = λ max_txs excluded. (50 ∷ []) ∷ [];
  snapshots = record {
    snapshots = (genesis_digest, genesis_snapshot) ∷ [];
    persisted = genesis_digest ∷ [];
    persisting = [];
    persisted_order = genesis_digest ∷ [];
    max_persisted_retained = 64;
  };
  execute = λ state context txs. some (record { changes = change; gas_used = 21000 });
  max_txs = 4;
  fee_recipient = 0;
}

abbrev block : Block
block = new_block platform genesis 1010 5 77 ((50 ∷ []) ∷ [])

abbrev snapshot : Snapshot ChangeSet
snapshot = record {
  parent = some genesis_digest;
  state = record { accounts = [] };
  state_root = 77;
  changes = change;
  tx_ids = ids platform block.txs;
}

builds : build_proposal platform 1 builder genesis 5 1010 ≡ proposed block snapshot
unfolding build_proposal kora.Consensus.Snapshot.lookup get kora.Domain.Block.digest
    kora.Qmdb.Encoding.to_be_bytes kora.Consensus.Builder.collect_pending_tx_ids
    kora.Consensus.Snapshot.walk kora.Domain.Block.next_timestamp
    kora.Consensus.Snapshot.merged_changes
builds = refl

absent : get (digest_of platform block) builder.snapshots.snapshots ≡ none
unfolding get kora.Domain.Block.digest kora.Qmdb.Encoding.to_be_bytes
absent = refl

unpersisted : elem (digest_of platform block) builder.snapshots.persisted ≡ false
unfolding get kora.Domain.Block.digest kora.Qmdb.Encoding.to_be_bytes
unpersisted = refl

build_proposal-RootsPersisted_example :
    RootsPersisted builder 2 (digest_of platform block) 77 snapshot
build_proposal-RootsPersisted_example =
    build_proposal-RootsPersisted platform 1 builder genesis 5 1010 block snapshot builds absent
      unpersisted
