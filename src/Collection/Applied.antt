-- ===== src/Collection/Applied.antt =====
-- Which fields of which samples applyDatabaseIdentity, applyInstanceMemory and applyTablespaceAllocation of
-- collector/operational.go complete.
use harry_performance_scrape.Prelude.{
  ℕ, suc, ◌≡◌, refl, Option, none, some, List, [], ◌∷◌, map, string_eq, Comparable, ap, subst, sym,
  length, count_if, is_some,
}
use harry_performance_scrape.Prelude.Int.{int_eq}
use harry_performance_scrape.Samples.Operational.{
  DatabaseStatusSample, InstanceSample, TablespaceSample,
}
use harry_performance_scrape.Collection.Merges.{
  DatabaseIdentityRow, InstanceMemoryRow, TablespaceAllocationRow, by_key, update_samples,
  with_identity, with_memory, with_allocation, apply_database_identity, apply_instance_memory,
  apply_tablespace_allocation,
}
use harry_performance_scrape.Collection.Completed.{
  last_row, completed_by, completed, update_samples-Updates,
}

-- Two lists of one length, related element by element.
abbrev pub Pairwise : {S : Type 0} → (S → S → Type 0) → List S → List S → Type 0
Pairwise Rel [] [] = Unit
Pairwise Rel [] (t ∷ ts) = ⊥
Pairwise Rel (s ∷ ss) [] = ⊥
Pairwise Rel (s ∷ ss) (t ∷ ts) = Rel s t × Pairwise Rel ss ts

Pairwise-map :
    {S : Type 0} (Rel : S → S → Type 0) (f : S → S)
    → ((s : S) → Rel s (f s))
    → (ss : List S) → Pairwise Rel ss (map f ss)
Pairwise-map Rel f h [] = tt
Pairwise-map Rel f h (s ∷ ss) = (h s, Pairwise-map Rel f h ss)

pub length-Pairwise :
    {S : Type 0} (Rel : S → S → Type 0) (ss ts : List S)
    → Pairwise Rel ss ts
    → length ts ≡ length ss
length-Pairwise Rel [] [] h = refl
length-Pairwise Rel [] (t ∷ ts) h = absurd h
length-Pairwise Rel (s ∷ ss) [] h = absurd h
length-Pairwise Rel (s ∷ ss) (t ∷ ts) (h, hs) = ap suc (length-Pairwise Rel ss ts hs)

-- A sample with a row becomes what `Done` says, and one without stays what it was.
abbrev pub IsDone : {R S : Type 0} → (R → S → S → Type 0) → Option R → S → S → Type 0
IsDone Done none s t = t ≡ s
IsDone Done (some r) s t = Done r s t

module _ {K : Type 0} {R : Type 0} {S : Type 0} ⦃c : Comparable K⦄ (key_of : R → K)
    (sample_key : S → K) (Done : R → S → S → Type 0) where
  -- Each sample, in its place, by the last row with its key; and the number of those that have a row.
  abbrev pub Completes : List R → List S → List S × ℕ → Type 0
  Completes rs ss result =
      Pairwise (λ s t. IsDone Done (last_row key_of (sample_key s) rs) s t) ss result.0
      × (result.1 ≡ count_if (λ s. is_some (last_row key_of (sample_key s) rs)) ss)

  completed-IsDone :
      (update : R → S → S)
      → ((r : R) (s : S) → Done r s (update r s))
      → (o : Option R) (s : S) → IsDone Done o s (completed_by key_of sample_key update o s)
  completed-IsDone update done none s = refl
  completed-IsDone update done (some r) s = done r s

  update_samples-Completes :
      (update : R → S → S)
      → ((r : R) (s : S) → Done r s (update r s))
      → (rs : List R) (ss : List S)
      → Completes rs ss (update_samples sample_key update (by_key key_of rs []) ss)
  unfolding completed
  update_samples-Completes update done rs ss =
      let (same, counted) = update_samples-Updates key_of sample_key update rs ss in
      (
        subst (Pairwise (λ s t. IsDone Done (last_row key_of (sample_key s) rs) s t) ss) (sym same)
            (Pairwise-map (λ s t. IsDone Done (last_row key_of (sample_key s) rs) s t)
              (completed key_of sample_key update rs)
              (λ s. completed-IsDone update done (last_row key_of (sample_key s) rs) s) ss),
        counted,
      )

-- The identity of the row, and all else of the sample.
pub record IsIdentified (r : DatabaseIdentityRow) (s t : DatabaseStatusSample) : Type 0 where
  pub dbid : t.dbid ≡ r.dbid
  pub db_unique_name : t.db_unique_name ≡ r.db_unique_name
  pub database_product : t.database_product ≡ r.database_product
  pub database_edition : t.database_edition ≡ r.database_edition
  pub database_version : t.database_version ≡ r.database_version
  pub database_version_full : t.database_version_full ≡ r.database_version_full
  pub protection_mode : t.protection_mode ≡ r.protection_mode
  pub protection_level : t.protection_level ≡ r.protection_level
  pub collected_at : t.collected_at ≡ s.collected_at
  pub database : t.database ≡ s.database
  pub inst_id : t.inst_id ≡ s.inst_id
  pub instance_name : t.instance_name ≡ s.instance_name
  pub instance_status : t.instance_status ≡ s.instance_status
  pub database_status : t.database_status ≡ s.database_status
  pub startup_time : t.startup_time ≡ s.startup_time
  pub open_mode : t.open_mode ≡ s.open_mode
  pub database_role : t.database_role ≡ s.database_role
  pub cdb : t.cdb ≡ s.cdb
  pub con_id : t.con_id ≡ s.con_id
  pub con_name : t.con_name ≡ s.con_name
  pub platform_name : t.platform_name ≡ s.platform_name

-- The memory of the row, and all else of the sample.
pub record HasMemory (r : InstanceMemoryRow) (s t : InstanceSample) : Type 0 where
  pub sga_allocated_bytes : t.sga_allocated_bytes ≡ r.sga_allocated_bytes
  pub pga_allocated_bytes : t.pga_allocated_bytes ≡ r.pga_allocated_bytes
  pub pga_max_allocated_bytes : t.pga_max_allocated_bytes ≡ r.pga_max_allocated_bytes
  pub collected_at : t.collected_at ≡ s.collected_at
  pub database : t.database ≡ s.database
  pub inst_id : t.inst_id ≡ s.inst_id
  pub user_sessions : t.user_sessions ≡ s.user_sessions
  pub active_user_sessions : t.active_user_sessions ≡ s.active_user_sessions
  pub background_sessions : t.background_sessions ≡ s.background_sessions
  pub process_count : t.process_count ≡ s.process_count
  pub cpu_count : t.cpu_count ≡ s.cpu_count
  pub sga_max_bytes : t.sga_max_bytes ≡ s.sga_max_bytes
  pub pga_aggregate_limit : t.pga_aggregate_limit ≡ s.pga_aggregate_limit

-- The allocation of the row, and all else of the sample.
pub record HasAllocation (r : TablespaceAllocationRow) (s t : TablespaceSample) : Type 0 where
  pub allocated_bytes : t.allocated_bytes ≡ r.allocated_bytes
  pub collected_at : t.collected_at ≡ s.collected_at
  pub database : t.database ≡ s.database
  pub tablespace : t.tablespace ≡ s.tablespace
  pub contents : t.contents ≡ s.contents
  pub used_bytes : t.used_bytes ≡ s.used_bytes
  pub free_bytes : t.free_bytes ≡ s.free_bytes
  pub max_bytes : t.max_bytes ≡ s.max_bytes
  pub used_percent : t.used_percent ≡ s.used_percent

with_identity-IsIdentified :
    (r : DatabaseIdentityRow) (s : DatabaseStatusSample) → IsIdentified r s (with_identity r s)
with_identity-IsIdentified r s = record {
  collected_at = refl;
  database = refl;
  inst_id = refl;
  instance_name = refl;
  instance_status = refl;
  database_status = refl;
  startup_time = refl;
  open_mode = refl;
  database_role = refl;
  cdb = refl;
  con_id = refl;
  con_name = refl;
  platform_name = refl;
  dbid = refl;
  db_unique_name = refl;
  database_product = refl;
  database_edition = refl;
  database_version = refl;
  database_version_full = refl;
  protection_mode = refl;
  protection_level = refl;
}

with_memory-HasMemory :
    (r : InstanceMemoryRow) (s : InstanceSample) → HasMemory r s (with_memory r s)
with_memory-HasMemory r s = record {
  collected_at = refl;
  database = refl;
  inst_id = refl;
  user_sessions = refl;
  active_user_sessions = refl;
  background_sessions = refl;
  process_count = refl;
  cpu_count = refl;
  sga_max_bytes = refl;
  pga_aggregate_limit = refl;
  sga_allocated_bytes = refl;
  pga_allocated_bytes = refl;
  pga_max_allocated_bytes = refl;
}

with_allocation-HasAllocation :
    (r : TablespaceAllocationRow) (s : TablespaceSample) → HasAllocation r s (with_allocation r s)
with_allocation-HasAllocation r s = record {
  collected_at = refl;
  database = refl;
  tablespace = refl;
  contents = refl;
  used_bytes = refl;
  free_bytes = refl;
  max_bytes = refl;
  used_percent = refl;
  allocated_bytes = refl;
}

-- The identity, the memory and the allocation that a later query reports go to every sample with the
-- key of a row, from the last row with that key, and to no other: the eight fields of the identity, the
-- three of the memory and the one of the allocation. Every other field, and every sample without a row, is
-- left as it was, in the order in which they were, and the number of completed samples is what is returned.
pub applied-Completes :
    (statuses : List DatabaseStatusSample) (identities : List DatabaseIdentityRow)
    (instances : List InstanceSample) (memory : List InstanceMemoryRow)
    (tablespaces : List TablespaceSample) (allocations : List TablespaceAllocationRow)
    → Completes
        (λ r. r.inst_id)
        (λ s. s.inst_id)
        IsIdentified
        identities
        statuses
        (apply_database_identity statuses identities)
      × Completes
          (λ r. r.inst_id)
          (λ s. s.inst_id)
          HasMemory
          memory
          instances
          (apply_instance_memory instances memory)
      × Completes
          (λ r. r.tablespace)
          (λ s. s.tablespace)
          HasAllocation
          allocations
          tablespaces
          (apply_tablespace_allocation tablespaces allocations)
unfolding apply_database_identity apply_instance_memory apply_tablespace_allocation
applied-Completes statuses identities instances memory tablespaces allocations = (
  update_samples-Completes (λ r. r.inst_id) (λ s. s.inst_id) IsIdentified with_identity
      with_identity-IsIdentified identities statuses,
  update_samples-Completes (λ r. r.inst_id) (λ s. s.inst_id) HasMemory with_memory
      with_memory-HasMemory memory instances,
  update_samples-Completes (λ r. r.tablespace) (λ s. s.tablespace) HasAllocation with_allocation
      with_allocation-HasAllocation allocations tablespaces,
)
