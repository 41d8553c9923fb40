-- ===== src/Tests.antt =====
-- Concrete parameters for the tests: a storage in memory for the crate atomic_store, and a chain
-- whose leaves are numbers.
pub mod Logs
pub mod Sources
pub mod Components
pub mod Services
pub mod Memory
pub mod MemoryLaws
pub mod Sql
pub mod Documents
pub mod Routes
pub mod Requests
pub mod Standalone
pub mod Streams
pub mod Migrations
use hotshot_query_service.Prelude.{
  ℕ, ◌+◌, ◌-◌, ◌%◌, ◌^◌, Option, none, some, List, [], ◌∷◌, ◌++◌, map, length, get_elem?, Result,
  ok, err, refl, ltb, ℕ_discrete, map-append,
}
use hotshot_query_service.AppendLog.{AppendLog, AppendLogLaws}
use hotshot_query_service.Metrics.{Prometheus}
use hotshot_query_service.NodeTypes.{NodeTypes}
use hotshot_query_service.Availability.QueryData.{LeafQueryData, BlockQueryData}
use hotshot_query_service.FileSystem.Defs.{Storage}

-- The committed objects and the pending ones, where nothing fails.
abbrev pub memory : (T : Type 0) → AppendLog ℕ T
memory T = record {
  Store = List (Option T) × List (Option T);
  iter = λ s. map ok s.0;
  store_resource = λ s r. ((s.0, s.1 ++ (r ∷ [])), ok tt);
  commit_version = λ s. ((s.0 ++ s.1, []), ok tt);
  skip_version = λ s. (s, ok tt);
  revert_version = λ s. ((s.0, []), ok tt);
}

abbrev pub memory_laws : (T : Type 0) → AppendLogLaws (memory T)
memory_laws T = record {
  pending = λ s. s.1;
  iter-store = λ s r good. refl;
  pending-store = λ s r good. refl;
  iter-commit = λ s good. map-append ok s.0 s.1;
  pending-commit = λ s good. refl;
  iter-revert = λ s good. refl;
  pending-revert = λ s good. refl;
}

-- The indices from `n` of as many transactions.
abbrev pub indices_from : ℕ → List ℕ → List ℕ
indices_from n [] = []
indices_from n (tx ∷ txs) = n ∷ indices_from (n + 1) txs

-- A leaf is its height, which is also its hash. Its parent's certificate is one less, and its block
-- has one transaction.
abbrev pub numbers : NodeTypes
numbers = record {
  Leaf = ℕ;
  QuorumCertificate = ℕ;
  Header = ℕ;
  Payload = List ℕ;
  Transaction = ℕ;
  LeafHash = ℕ;
  BlockHash = ℕ;
  TransactionHash = ℕ;
  EncodedPublicKey = ℕ;
  dec_leaf_hash = ℕ_discrete;
  dec_block_hash = ℕ_discrete;
  dec_transaction_hash = ℕ_discrete;
  dec_public_key = ℕ_discrete;
  commit_leaf = λ leaf. leaf;
  commit_header = λ header. header;
  commit_transaction = λ tx. tx;
  block_header = λ leaf. leaf;
  get_block_payload = λ leaf. some ((leaf + 100) ∷ []);
  get_justify_qc = λ leaf. leaf - 1;
  get_proposer_id = λ leaf. 7;
  leaf_commit = λ qc. qc;
  block_number = λ header. header;
  encode = λ payload. some payload;
  genesis_leaf = 0;
  genesis_qc = 0;
  genesis_header = 0;
  genesis_payload = [];
  TransactionIndex = ℕ;
  InclusionProof = Unit;
  lt_index = ltb;
  len = length;
  iter = indices_from 0;
  transaction_with_proof =
      λ payload i. elim (get_elem? payload i) [ some tx ↦ some (tx, tt) | none ↦ none ];
}

-- Both logs in memory.
abbrev pub memory_storage : Storage numbers ℕ
memory_storage = record {
  leaves = memory (LeafQueryData numbers);
  blocks = memory (BlockQueryData numbers);
  AtomicStore = Unit;
  commit_atomic = λ s. (s, ok tt);
}

-- Metrics whose values are numbers, where nothing is refused.
abbrev total : List ℕ → ℕ
total [] = 0
total (x ∷ xs) = x + total xs

abbrev pub plain_metrics : Prometheus
plain_metrics = record {
  Registry = Unit;
  Value = ℕ;
  with_opts = λ namespace subsystem name help. some 0;
  register = λ registry value. some registry;
  get = λ value. value;
  inc_by = λ n value. (value + n) % 2 ^ 64;
  store = λ n value. n;
  sub = λ n value. (value + 2 ^ 64 - n) % 2 ^ 64;
  Sample = ℕ;
  Samples = List ℕ;
  samples_with_opts = λ namespace subsystem name help. some [];
  register_samples = λ registry values. some registry;
  sample_count = λ values. length values;
  sample_sum = λ values. total values;
  observe = λ point values. point ∷ values;
  of_count = λ n. n;
  divide = λ a b. a;
}
