-- ===== src/Scenarios/Replay.antt =====
-- Tests of the replayed process-path catalogue (internal/adapters/outbound/kafkacatalog/consumer.go).
use fulfillment_execution.Prelude.{
  List, Map, Option, String, [], lookup, some, string_discrete, ℕ, ◌∷◌, ◌≡◌,
}
use fulfillment_execution.KafkaCatalog.{CloudEvent, Consumer, Message, new_consumer, run}
use fulfillment_execution.KafkaCatalog.LastWord.{if_silent, last_word, run-last_word}
use fulfillment_execution.KafkaCatalog.Ready.{all_reached, ready_when_caught_up}
use fulfillment_execution.Scenarios.Records.{first_message, path_created}

ready_when_caught_up_example :
    let upper : String → String = λ s. s in
    let decode : String → Option CloudEvent = λ raw. some path_created in
    let target : Map ℕ ℕ = (0, 1) ∷ [] in
    let ms : List Message = first_message ∷ [] in
    (run upper decode ms (new_consumer target)).ready ≡ all_reached ms target
ready_when_caught_up_example =
    ready_when_caught_up (λ s. s) (λ raw. some path_created) ((0, 1) ∷ []) (first_message ∷ [])
      ((λ i. i), tt)

run-last_word_example :
    let upper : String → String = λ s. s in
    let decode : String → Option CloudEvent = λ raw. some path_created in
    let key : String = "PPSINGLE" in
    let ms : List Message = first_message ∷ [] in
    let c : Consumer = new_consumer ((0, 1) ∷ []) in
    lookup string_discrete key (run upper decode ms c).paths
    ≡ if_silent (last_word upper decode key ms) (lookup string_discrete key c.paths)
run-last_word_example =
    run-last_word (λ s. s) (λ raw. some path_created) "PPSINGLE" (first_message ∷ [])
      (new_consumer ((0, 1) ∷ []))
