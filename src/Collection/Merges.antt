-- ===== src/Collection/Merges.antt =====
-- The queries of collector/operational.go that complete samples of another one: applyDatabaseIdentity,
-- applyInstanceMemory and applyTablespaceAllocation.
use harry_performance_scrape.Prelude.{
  ℕ, suc, Option, none, some, List, [], ◌∷◌, String, string_eq, Comparable,
}
use harry_performance_scrape.Prelude.Int.{ℤ, int_eq}
use harry_performance_scrape.Prelude.Dict.{Dict, lookup, insert}
use harry_performance_scrape.Samples.Operational.{
  DatabaseStatusSample, InstanceSample, TablespaceSample,
}

pub record DatabaseIdentityRow : Type 0 where
  pub inst_id : ℤ
  pub dbid : Option ℤ
  pub db_unique_name : Option String
  pub database_product : Option String
  pub database_edition : Option String
  pub database_version : Option String
  pub database_version_full : Option String
  pub protection_mode : Option String
  pub protection_level : Option String

pub record InstanceMemoryRow : Type 0 where
  pub inst_id : ℤ
  pub sga_allocated_bytes : Option ℤ
  pub pga_allocated_bytes : Option ℤ
  pub pga_max_allocated_bytes : Option ℤ

pub record TablespaceAllocationRow : Type 0 where
  pub tablespace : String
  pub allocated_bytes : Option ℤ

-- The loops that the three functions share: the map of the rows by their key, and the samples that
-- have a row, which are updated in place and counted.
module _ {K : Type 0} {R : Type 0} ⦃c : Comparable K⦄ where
  unfoldable pub by_key : (R → K) → List R → Dict K R → Dict K R
  by_key key_of [] m = m
  by_key key_of (r ∷ rs) m = by_key key_of rs (insert (key_of r) r m)

-- One sample: `ok` is whether the map has a row for it.
unfoldable pub update_one : {R S : Type 0} → (R → S → S) → Option R → S → List S × ℕ → List S × ℕ
update_one update none s (rest, updated) = (s ∷ rest, updated)
update_one update (some r) s (rest, updated) = (update r s ∷ rest, suc updated)

module _ {K : Type 0} {R : Type 0} {S : Type 0} ⦃c : Comparable K⦄ where
  unfoldable pub update_samples : (S → K) → (R → S → S) → Dict K R → List S → List S × ℕ
  unfolding update_one
  update_samples key_of update m [] = ([], 0)
  update_samples key_of update m (s ∷ ss) =
      update_one update (lookup (key_of s) m) s (update_samples key_of update m ss)

abbrev pub with_identity : DatabaseIdentityRow → DatabaseStatusSample → DatabaseStatusSample
with_identity r s = record s {
  dbid = r.dbid;
  db_unique_name = r.db_unique_name;
  database_product = r.database_product;
  database_edition = r.database_edition;
  database_version = r.database_version;
  database_version_full = r.database_version_full;
  protection_mode = r.protection_mode;
  protection_level = r.protection_level;
}

unfoldable pub apply_database_identity :
    List DatabaseStatusSample → List DatabaseIdentityRow → List DatabaseStatusSample × ℕ
unfolding by_key update_samples
apply_database_identity samples identities =
    update_samples (λ s. s.inst_id) with_identity (by_key (λ r. r.inst_id) identities []) samples

abbrev pub with_memory : InstanceMemoryRow → InstanceSample → InstanceSample
with_memory r s = record s {
  sga_allocated_bytes = r.sga_allocated_bytes;
  pga_allocated_bytes = r.pga_allocated_bytes;
  pga_max_allocated_bytes = r.pga_max_allocated_bytes;
}

unfoldable pub apply_instance_memory :
    List InstanceSample → List InstanceMemoryRow → List InstanceSample × ℕ
unfolding by_key update_samples
apply_instance_memory samples memory =
    update_samples (λ s. s.inst_id) with_memory (by_key (λ r. r.inst_id) memory []) samples

abbrev pub with_allocation : TablespaceAllocationRow → TablespaceSample → TablespaceSample
with_allocation r s = record s { allocated_bytes = r.allocated_bytes }

unfoldable pub apply_tablespace_allocation :
    List TablespaceSample → List TablespaceAllocationRow → List TablespaceSample × ℕ
unfolding by_key update_samples
apply_tablespace_allocation samples allocations =
    update_samples (λ s. s.tablespace) with_allocation (by_key (λ r. r.tablespace) allocations [])
      samples
