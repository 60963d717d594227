-- ===== src/Qmdb/Store/Markers.antt =====
-- The commit sequence markers tell a partial commit from a whole one.
use kora.Base.{
  ℕ, suc, ◌≤◌, ◌<◌, ◌≡◌, refl, ap, ◌∙◌, Bool, not, ◌||◌, List, [], ◌∷◌, ◌++◌, Option, some, arith,
  if◌then◌else◌, Bool-cases, ◌⊎◌, inl, inr, saturating_add, saturating_add_exact, u64_max,
}
use kora.Qmdb.Encoding.{StorageKey, same_key, encode, to_be_bytes}
use kora.Qmdb.Encoding.RoundTrip.{decode-encode, field_last, length-to_be_bytes}
use kora.Qmdb.Store.{
  Partition, Stores, QmdbStore, StoreBatches, Faults, PartitionCommitSeqs, write, write_batch,
  same_number, write_partitions, apply_batches, read_partition_commit_seqs, is_consistent,
  account_marker, storage_marker, code_marker, and_then, ok, err, storage_error, Result,
  commit_seq_account_key, commit_seq_storage_key, commit_seq_code_key,
}

-- The last operation of a batch decides at its key.
pub write_batch_last :
    {K V : Type 0} (same : K → K → Bool) (ops : List (K × Option V)) (k : K) (v : Option V)
    (p : Partition K V) (j : K)
    → write_batch same (ops ++ (k, v) ∷ []) p j ≡ (if same j k then v else write_batch same ops p j)
unfolding write_batch
write_batch_last same [] k v p j = refl
write_batch_last same ((i, w) ∷ ops) k v p j = write_batch_last same ops k v (write same i w p) j

account_marker-encode : (seq : ℕ) → seq ≤ u64_max → account_marker (encode seq 0 0 0) ≡ some seq
unfolding account_marker
account_marker-encode seq h = rw (
  (decode-encode seq 0 0 0 (omega arith) (omega arith) (omega arith) (omega arith)).1,
  account_marker,
)

code_marker-encode : (seq : ℕ) → seq ≤ u64_max → code_marker (to_be_bytes 8 seq) ≡ some seq
unfolding code_marker
code_marker-encode seq h = rw (length-to_be_bytes 8 seq) (ap some (field_last 8 seq (omega arith)))

storage_marker-some : (seq : ℕ) → seq ≤ u64_max → storage_marker seq ≡ some seq
unfolding storage_marker
storage_marker-some seq h = ground arith

-- What the three markers say after a commit that may have failed.
abbrev pub markers_after : Faults → ℕ → PartitionCommitSeqs → PartitionCommitSeqs
markers_after f seq old =
    if f.accounts_fails
    then old
    else if f.storage_fails
    then record old { accounts = some seq }
    else if f.code_fails
    then record old { accounts = some seq; storage = some seq }
    else record { accounts = some seq; storage = some seq; code = some seq }

accounts_written :
    (b : StoreBatches) (p : Partition ℕ (List ℕ)) (seq : ℕ)
    → seq ≤ u64_max
    → and_then
        (write_batch same_number
          (b.accounts ++ (commit_seq_account_key, some (encode seq 0 0 0)) ∷ [])
          p
          commit_seq_account_key)
        account_marker
      ≡ some seq
accounts_written b p seq h =
    rw
      (write_batch_last same_number b.accounts commit_seq_account_key (some (encode seq 0 0 0)) p
        commit_seq_account_key)
      (account_marker-encode seq h)

storage_written :
    (b : StoreBatches) (p : Partition StorageKey ℕ) (seq : ℕ)
    → seq ≤ u64_max
    → and_then
        (write_batch same_key
          (b.storage ++ (commit_seq_storage_key, some seq) ∷ [])
          p
          commit_seq_storage_key)
        storage_marker
      ≡ some seq
unfolding same_key
storage_written b p seq h =
    rw
      (write_batch_last same_key b.storage commit_seq_storage_key (some seq) p
        commit_seq_storage_key)
      (storage_marker-some seq h)

code_written :
    (b : StoreBatches) (p : Partition ℕ (List ℕ)) (seq : ℕ)
    → seq ≤ u64_max
    → and_then
        (write_batch same_number
          (b.code ++ (commit_seq_code_key, some (to_be_bytes 8 seq)) ∷ [])
          p
          commit_seq_code_key)
        code_marker
      ≡ some seq
code_written b p seq h =
    rw
      (write_batch_last same_number b.code commit_seq_code_key (some (to_be_bytes 8 seq)) p
        commit_seq_code_key)
      (code_marker-encode seq h)

pub read_markers :
    (f : Faults) (seq : ℕ) (b : StoreBatches) (s : Stores)
    → seq ≤ u64_max
    → read_partition_commit_seqs (write_partitions f seq b s).0
      ≡ markers_after f seq (read_partition_commit_seqs s)
unfolding read_partition_commit_seqs write_partitions
read_markers f seq b s h = elim (Bool-cases f.accounts_fails) [
  | inl a ↦ rw a refl
  | inr a ↦ elim (Bool-cases f.storage_fails) [
    | inl t ↦
        rw (a, t)
          (λ i. record {
            accounts = accounts_written b s.accounts seq h i;
            storage = and_then (s.storage commit_seq_storage_key) storage_marker;
            code = and_then (s.code commit_seq_code_key) code_marker;
          })
    | inr t ↦ elim (Bool-cases f.code_fails) [
      | inl c ↦
          rw (a, t, c)
            (λ i. record {
              accounts = accounts_written b s.accounts seq h i;
              storage = storage_written b s.storage seq h i;
              code = and_then (s.code commit_seq_code_key) code_marker;
            })
      | inr c ↦
          rw (a, t, c)
            (λ i. record {
              accounts = accounts_written b s.accounts seq h i;
              storage = storage_written b s.storage seq h i;
              code = code_written b s.code seq h i;
            })
    ]
  ]
]

abbrev pub all_at : ℕ → PartitionCommitSeqs
all_at n = record { accounts = some n; storage = some n; code = some n }

-- The outcome of a commit on a store whose markers all held the store's own sequence.
pub record Detects (f : Faults) (q : QmdbStore) (r : QmdbStore × Result (Unit {0})) : Type 0 where
  pub stores : Stores
  pub held : r.0.stores ≡ some stores
  pub verdict :
      is_consistent (read_partition_commit_seqs stores)
      ≡ (f.accounts_fails || not (f.storage_fails || f.code_fails))
  pub outcome :
      ((r.1 ≡ ok tt)
        × (r.0.commit_seq ≡ suc q.commit_seq)
        × (read_partition_commit_seqs stores ≡ all_at (suc q.commit_seq)))
      ⊎ ((r.1 ≡ err storage_error) × (r.0.commit_seq ≡ q.commit_seq))

markers-Detects :
    (f : Faults) (n : ℕ)
    → is_consistent (markers_after f (suc n) (all_at n))
      ≡ (f.accounts_fails || not (f.storage_fails || f.code_fails))
unfolding is_consistent
markers-Detects f n = ground arith

done_iff :
    (f : Faults) (seq : ℕ) (b : StoreBatches) (s : Stores)
    → (write_partitions f seq b s).1 ≡ not (f.accounts_fails || (f.storage_fails || f.code_fails))
unfolding write_partitions
done_iff f seq b s = ground arith

-- Where the three markers hold the store's sequence n below 2^64 - 1, a commit leaves the
-- partitions with consistent markers exactly if none of its writes was made or all were; it
-- succeeds, with all three markers and the sequence at n + 1, or reports the failed write, with
-- the sequence still at n.
pub apply_batches-Detects :
    (f : Faults) (q : QmdbStore) (b : StoreBatches) (s : Stores)
    → q.stores ≡ some s
    → read_partition_commit_seqs s ≡ all_at q.commit_seq
    → q.commit_seq < u64_max
    → Detects f q (apply_batches f q b)
unfolding apply_batches
apply_batches-Detects f q b s e m h =
    let n = q.commit_seq in
    let next : saturating_add n 1 ≡ suc n = saturating_add_exact n 1 (omega arith) ∙ omega arith in
    let after = write_partitions f (suc n) b s in
    let read : read_partition_commit_seqs after.0 ≡ markers_after f (suc n) (all_at n) =
      read_markers f (suc n) b s (omega arith) ∙ ap (markers_after f (suc n)) m in
    elim (Bool-cases (f.accounts_fails || (f.storage_fails || f.code_fails))) [
      | inl bad ↦
          rw (e, apply_batches, next, done_iff f (suc n) b s, bad)
            (record {
              stores = after.0;
              held = refl;
              verdict = rw read (markers-Detects f n);
              outcome = inr (refl, refl);
            })
      | inr good ↦
          rw (e, apply_batches, next, done_iff f (suc n) b s, good)
            (record {
              stores = after.0;
              held = refl;
              verdict = rw read (markers-Detects f n);
              outcome = inl (refl, refl, read ∙ (ground arith));
            })
    ]
