-- ===== src/UsageWorker/Tests.antt =====
-- The theorem on partial batches at two records.
use think_pixel_llmgw.Prelude.{String, ◌≡◌, refl, true, false, some, [], ◌∷◌, All, pos}
use think_pixel_llmgw.Redis.{replied, refused}
use think_pixel_llmgw.Queue.{default_config}
use think_pixel_llmgw.UsageWorker.{UsageWorker, UsageItem, has_id, add_usage_letter, process_batch}
use think_pixel_llmgw.UsageWorker.Loss.{IsKept, process_batch-IsKept}
use think_pixel_llmgw.UsageWorker.Batch.{process_batch_buries_stored}

abbrev usage_item : String → UsageItem
usage_item id = record {
  item = record {
    id = id;
    api_key_id = "k";
    request_id = "r";
    model_name = "m";
    endpoint = "/v1/chat/completions";
    input_tokens = pos 10;
    output_tokens = pos 20;
    cached_tokens = pos 0;
    reasoning_tokens = pos 0;
    response_time_ms = 12;
    status_code = 200;
  };
  letter_id = "d";
  now = 0;
}

abbrev usage_worker : UsageWorker
usage_worker = record {
  table = record { rows = []; links = replied ∷ refused ∷ [] };
  dlq = some (record { items = []; closed = false });
  slept = 0;
}

process_batch_buries_stored_example :
    ((process_batch
        (default_config "usage")
        true
        true
        usage_worker
        (usage_item "1" ∷ usage_item "2" ∷ [])).table.rows
      ≡ (usage_item "2").item ∷ (usage_item "1").item ∷ [])
    × ((process_batch
          (default_config "usage")
          true
          true
          usage_worker
          (usage_item "1" ∷ usage_item "2" ∷ [])).dlq
        ≡ add_usage_letter (some (record { items = []; closed = false })) (usage_item "1"))
unfolding has_id
process_batch_buries_stored_example =
    process_batch_buries_stored (default_config "usage") true usage_worker (usage_item "1")
      (usage_item "2") [] refl refl refl

process_batch-IsKept_example :
    All
      (IsKept (
        process_batch
          (default_config "usage")
          true
          true
          usage_worker
          (usage_item "1" ∷ usage_item "2" ∷ [])))
      (usage_item "1" ∷ usage_item "2" ∷ [])
process_batch-IsKept_example =
    process_batch-IsKept (default_config "usage") true true usage_worker
      (usage_item "1" ∷ usage_item "2" ∷ []) refl
