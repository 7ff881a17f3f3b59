-- ===== src/DataModel.antt =====
-- DataModel/DataModel.h: the queues that the tools share. A mutex guards each, and every access
-- holds it, so a tool's access is one step here. A queue of pointers is a queue of the objects:
-- the tools hand a batch on and keep no pointer to it. The pools of the framework are the lists of
-- the objects that were returned to them.
use services_backend.Common.{List, [], Bytes}
use services_backend.QueryBatch.{QueryBatch}
use services_backend.Jobs.{Job}

pub record DataModel : Type 0 where
  pub cached_configs : List (Bytes × Bytes)
  pub job_queue : List Job
  pub multicast_buffer_pool : List (List Bytes)
  pub in_multicast_msg_queue : List (List Bytes)
  pub out_log_msg_queue : List Bytes
  pub out_mon_msg_queue : List Bytes
  pub querybatch_pool : List QueryBatch
  pub write_msg_queue : List QueryBatch
  pub read_msg_queue : List QueryBatch
  pub query_replies : List QueryBatch
  pub multicast_batch_pool : List Bytes
  pub log_query_queue : List Bytes
  pub mon_query_queue : List Bytes
  pub rootplot_query_queue : List Bytes
  pub plotlyplot_query_queue : List Bytes
  pub write_query_queue : List QueryBatch
  pub read_query_queue : List QueryBatch
  pub query_results : List QueryBatch

unfoldable pub empty_model : DataModel
empty_model = record {
  cached_configs = [];
  job_queue = [];
  multicast_buffer_pool = [];
  in_multicast_msg_queue = [];
  out_log_msg_queue = [];
  out_mon_msg_queue = [];
  querybatch_pool = [];
  write_msg_queue = [];
  read_msg_queue = [];
  query_replies = [];
  multicast_batch_pool = [];
  log_query_queue = [];
  mon_query_queue = [];
  rootplot_query_queue = [];
  plotlyplot_query_queue = [];
  write_query_queue = [];
  read_query_queue = [];
  query_results = [];
}
