-- ===== src/Engine/Runner/Mapping.antt =====
-- `_map_event` of engine/runner.py, with `text_of` and `usage_of` of engine/llm.py.
use navigator_orchestrator_a.Prelude.{
  String, Bool, false, ◌&&◌, not, if◌then◌else◌, Option, none, some, List, [], ◌∷◌, join, non_empty,
  str_eq, obj, Fields,
}
use navigator_orchestrator_a.Engine.Events.{Event, token, node, started, completed}
use navigator_orchestrator_a.Engine.Meter.{Usage, no_usage}
use navigator_orchestrator_a.Engine.Workflows.{
  Block, plain, typed, opaque, text, blocks, no_content, Message, RawEvent,
}

text_of_blocks : List Block → String
text_of_blocks [] = ""
text_of_blocks (plain s ∷ bs) = join s (text_of_blocks bs)
text_of_blocks (typed kind s ∷ bs) =
    let rest = text_of_blocks bs in if str_eq kind "text" then join s rest else rest
text_of_blocks (opaque ∷ bs) = text_of_blocks bs

unfoldable pub text_of : Message → String
unfolding text_of_blocks
text_of message = elim message.content [
  | text s ↦ s
  | blocks bs ↦ text_of_blocks bs
  | no_content ↦ ""
]

unfoldable pub usage_of : Message → Usage
usage_of message = elim message.usage_metadata [
  | none ↦ no_usage
  | some (i, o) ↦ record { input_tokens = i; output_tokens = o }
]

-- _is_node
unfoldable pub is_node : RawEvent → Bool
is_node raw = elim raw.node [ none ↦ false | some n ↦ non_empty n && str_eq n raw.name ]

-- The event to emit, the terminal state and the usage, where there is one.
abbrev pub Mapped : Type 0
Mapped = Option Event × Option Fields × Option Usage

-- The terminal state of the whole graph's last event.
unfoldable pub root_end : RawEvent → Mapped
root_end raw =
    if str_eq raw.event "on_chain_end" && not raw.has_parents
    then (none, (elim raw.output [ obj state ↦ some state | _ ↦ none ]), none)
    else (none, none, none)

unfoldable pub map_event : String → RawEvent → Mapped
unfolding text_of usage_of is_node root_end
map_event run_id raw =
    if str_eq raw.event "on_chat_model_stream"
    then (
      (if non_empty (text_of raw.chunk) then some (token run_id (text_of raw.chunk)) else none),
      none,
      none,
    )
    else (if str_eq raw.event "on_chat_model_end"
        then (none, none, some (usage_of raw.reply))
        else (if is_node raw && str_eq raw.event "on_chain_start"
            then (some (node run_id raw.name started), none, none)
            else (if is_node raw && str_eq raw.event "on_chain_end"
                then (some (node run_id raw.name completed), none, none)
                else root_end raw)))
