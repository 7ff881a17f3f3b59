-- ===== src/Jobs.antt =====
-- The jobs that the distributor threads put on `DataModel::job_queue`, and the argument
-- structs that they carry. A job's kind stands for its `func` and `fail_func`.
use services_backend.Common.{ℕ, List, Option, Bytes}
use services_backend.QueryTopic.{Table}
use services_backend.QueryBatch.{QueryBatch}

-- WriteWorkers.h. `out_buffer` points to a buffer of `local_msg_queue`; `none` is any other value
-- of the pointer, such as what an earlier job left in a struct from the pool.
pub record WriteJobStruct : Type 0 where
  pub m_job_name : Bytes
  pub local_msg_queue : QueryBatch
  pub out_buffer : Option Table

-- ReadWorkers.h
pub record ReadJobStruct : Type 0 where
  pub m_job_name : Bytes
  pub local_msg_queue : QueryBatch

-- ResultWorkers.h
pub record ResultJobStruct : Type 0 where
  pub m_job_name : Bytes
  pub batch : QueryBatch

-- The four buffers of a multicast job, by the table that they go to.
pub data Feed : Type 0 where
  logs monitors rootplot_feed plotlyplot_feed : Feed

-- MulticastWorkers.h
pub record MulticastJobStruct : Type 0 where
  pub m_job_name : Bytes
  pub msg_buffer : List Bytes
  pub buffer : Feed → Bytes
  pub n_log_msgs : ℕ
  pub n_mon_msgs : ℕ
  pub decompress_buffer : Bytes

-- A job holds a pointer to its argument struct. Each of the four tools keeps its structs in a store.
pub data Job : Type 0 where
  write_job read_job result_job multicast_job : ℕ → Job
