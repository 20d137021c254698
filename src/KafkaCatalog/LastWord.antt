-- ===== src/KafkaCatalog/LastWord.antt =====
-- Which paths the catalogue holds after a replay (consumer.go).
use fulfillment_execution.Prelude.{
  ◌≡◌, refl, ap, ◌∙◌, String, Bool, ◌||◌, inl, inr, Option, none, some, List, [], ◌∷◌, Map, lookup,
  lookup-insert, ite, if◌then◌else◌, string_discrete, arith, Option-cases,
}
use fulfillment_execution.PathCatalog.{PathDefinition}
use fulfillment_execution.KafkaCatalog.{
  delete, definition, PathData, CloudEvent, Message, Consumer, check_ready, handle, run,
  apply_upsert, apply_deactivated, is_text, on_payload,
}

lookup-delete :
    (k j : String) (m : Map String PathDefinition)
    → lookup string_discrete j (delete string_discrete k m)
      ≡ ite (string_discrete k j) none (lookup string_discrete j m)
unfolding lookup delete
lookup-delete k j [] = ground arith
lookup-delete k j ((i, v) ∷ m) = ground (arith, lookup-delete k j m)

check_ready-paths : (m : Message) (c : Consumer) → (check_ready m c).paths ≡ c.paths
unfolding check_ready
check_ready-paths m c = ground arith

abbrev pub made_by : String → Bool
made_by ty =
    is_text ty "com.warehouse.wes.process-path-management.processpath.ProcessPathCreated"
    || is_text ty "com.warehouse.wes.process-path-management.processpath.ProcessPathUpdated"

abbrev pub ended_by : String → Bool
ended_by ty =
    is_text ty "com.warehouse.wes.process-path-management.processpath.ProcessPathDeactivated"

abbrev pub if_silent :
    Option (Option PathDefinition) → Option PathDefinition → Option PathDefinition
if_silent none old = old
if_silent (some said) old = said

abbrev or_before :
    Option (Option PathDefinition) → Option (Option PathDefinition) → Option (Option PathDefinition)
or_before (some said) before = some said
or_before none before = before

silent_twice :
    (a b : Option (Option PathDefinition)) (old : Option PathDefinition)
    → if_silent a (if_silent b old) ≡ if_silent (or_before a b) old
silent_twice none b old = refl
silent_twice (some x) b old = refl

module _ (upper : String → String) (decode : String → Option CloudEvent) where
  -- What a payload says of a key: nothing, that it is gone, or its definition.
  abbrev payload_says : String → String → Option PathData → Option (Option PathDefinition)
  payload_says key ty none = none
  payload_says key ty (some d) =
      ite (string_discrete (upper d.path_id) key)
        (if made_by ty then some (some (definition d)) else if ended_by ty then some none else none)
        none

  abbrev event_says : String → Option CloudEvent → Option (Option PathDefinition)
  event_says key none = none
  event_says key (some e) = payload_says key e.event_type e.payload

  -- The last of the messages that says something of the key.
  unfoldable pub last_word : String → List Message → Option (Option PathDefinition)
  last_word key [] = none
  last_word key (m ∷ ms) = or_before (last_word key ms) (event_says key (decode m.value))

  payload_lookup :
      (key ty : String) (payload : Option PathData) (c : Consumer)
      → lookup string_discrete key (on_payload upper ty payload c).paths
        ≡ if_silent (payload_says key ty payload) (lookup string_discrete key c.paths)
  unfolding apply_upsert apply_deactivated
  payload_lookup key ty none c = refl
  payload_lookup key ty (some d) c = ground (
    arith,
    lookup-insert string_discrete (upper d.path_id) key (definition d) c.paths,
    lookup-delete (upper d.path_id) key c.paths,
  )

  lookup-handle :
      (key : String) (m : Message) (c : Consumer)
      → lookup string_discrete key (handle upper decode m c).paths
        ≡ if_silent (event_says key (decode m.value)) (lookup string_discrete key c.paths)
  unfolding handle
  lookup-handle key m c = elim (Option-cases (decode m.value)) [
    | inl e ↦ rw e refl
    | inr (event, e) ↦ rw e (payload_lookup key event.event_type event.payload c)
  ]

  lookup-run :
      (key : String) (ms : List Message) (c : Consumer)
      → lookup string_discrete key (run upper decode ms c).paths
        ≡ if_silent (last_word key ms) (lookup string_discrete key c.paths)
  unfolding run last_word
  lookup-run key [] c = refl
  lookup-run key (m ∷ ms) c =
      lookup-run key ms (check_ready m (handle upper decode m c))
      ∙ ap (λ l. if_silent (last_word key ms) (lookup string_discrete key l))
          (check_ready-paths m (handle upper decode m c))
      ∙ ap (if_silent (last_word key ms)) (lookup-handle key m c)
      ∙ silent_twice (last_word key ms) (event_says key (decode m.value))
          (lookup string_discrete key c.paths)

-- After the messages of a replay a key has what the last message that concerns it says: the definition of
-- the last upsert, nothing after a deactivation, and what it had before where no message concerns it.
-- Malformed messages and other types of event say nothing.
pub run-last_word :
    (upper : String → String) (decode : String → Option CloudEvent) (key : String)
    (ms : List Message) (c : Consumer)
    → lookup string_discrete key (run upper decode ms c).paths
      ≡ if_silent (last_word upper decode key ms) (lookup string_discrete key c.paths)
run-last_word upper decode key ms c = lookup-run upper decode key ms c
