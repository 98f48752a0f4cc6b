-- ===== src/Timeline/Contents.antt =====
-- Which of the server's events reach the text of the message and its timeline.
use moonlit_ai_agent.Prelude.{
  ◌≡◌, refl, sym, ap, ◌∙◌, Bool, List, [], ◌∷◌, ◌++◌, map, Text, concat, append_assoc, append-nil,
  arith,
}
use moonlit_ai_agent.Items.Texts.{
  timeline_text, timeline_text-append_token, timeline_text-append_thinking,
  timeline_text-start_tool, timeline_text-end_tool, timeline_text-activate_skills,
  timeline_text-show_status,
}
use moonlit_ai_agent.Timeline.{
  Event, token, tool_start, tool_end, thinking_token, skills_activated, workflow_status, error,
  Stream, new_stream, error_note, handle_event, handle_events,
}

-- What an event adds to the text that the timeline shows.
abbrev pub token_text : Event → Text
token_text (token content) = content
token_text _ = []

-- What it adds to the text of the message.
abbrev pub message_text : Event → Text
message_text (token content) = content
message_text (error message) = error_note message
message_text _ = []

abbrev pub token_texts : List (Bool × Event) → Text
token_texts es = concat (map (λ p. token_text p.1) es)

abbrev pub message_texts : List (Bool × Event) → Text
message_texts es = concat (map (λ p. message_text p.1) es)

handle_event-timeline_text :
    (due : Bool) (e : Event) (s : Stream)
    → timeline_text (handle_event due e s).0.event_timeline
      ≡ timeline_text s.event_timeline ++ token_text e
unfolding handle_event
handle_event-timeline_text due (token content) s = timeline_text-append_token content _ _
handle_event-timeline_text due (tool_start name args) s =
    timeline_text-start_tool name args _ ∙ sym (append-nil _)
handle_event-timeline_text due (tool_end name args result) s =
    timeline_text-end_tool name args result _ ∙ sym (append-nil _)
handle_event-timeline_text due (thinking_token content) s =
    timeline_text-append_thinking content _ _ ∙ sym (append-nil _)
handle_event-timeline_text due (skills_activated incoming) s =
    timeline_text-activate_skills incoming _ ∙ sym (append-nil _)
handle_event-timeline_text due (workflow_status stage content is_done) s = ground (
  arith,
  timeline_text-show_status stage content is_done s.event_timeline,
  append-nil (timeline_text s.event_timeline),
)
handle_event-timeline_text due _ s = sym (append-nil _)

concat-append : (xs ys : List Text) → concat (xs ++ ys) ≡ concat xs ++ concat ys
concat-append [] ys = refl
concat-append (x ∷ xs) ys = rw (concat-append xs ys) (sym (append_assoc x _ _))

concat_one : (xs : List Text) (t : Text) → concat (xs ++ t ∷ []) ≡ concat xs ++ t
concat_one xs t = concat-append xs (t ∷ []) ∙ ap (concat xs ++◌) (append-nil t)

handle_event-content :
    (due : Bool) (e : Event) (s : Stream)
    → concat (handle_event due e s).0.content_parts ≡ concat s.content_parts ++ message_text e
unfolding handle_event
handle_event-content due (token content) s = concat_one s.content_parts content
handle_event-content due (error message) s = concat_one s.content_parts (error_note message)
handle_event-content due (workflow_status stage content is_done) s =
    ground (arith, append-nil (concat s.content_parts))
handle_event-content due _ s = sym (append-nil _)

-- From any state of the closure: the events add to the timeline's text the tokens, in order, and to
-- the message's text the tokens and the notes of the errors.
handle_events-texts :
    (es : List (Bool × Event)) (s : Stream)
    → (timeline_text (handle_events es s).event_timeline
        ≡ timeline_text s.event_timeline ++ token_texts es)
      × (concat (handle_events es s).content_parts ≡ concat s.content_parts ++ message_texts es)
handle_events-texts [] s = (sym (append-nil _), sym (append-nil _))
handle_events-texts ((due, e) ∷ es) s =
    let (shown, said) = handle_events-texts es (handle_event due e s).0 in
    (
      shown
          ∙ ap (◌++ token_texts es) (handle_event-timeline_text due e s)
          ∙ append_assoc (timeline_text s.event_timeline) (token_text e) (token_texts es),
      said
          ∙ ap (◌++ message_texts es) (handle_event-content due e s)
          ∙ append_assoc (concat s.content_parts) (message_text e) (message_texts es),
    )

-- Whatever events a response brings, in whatever order and at whatever times: the text entries of
-- its timeline hold the tokens, in order, and nothing else, and the message's text holds the tokens
-- and the notes of the errors, in order, and nothing else.
pub response_texts :
    (es : List (Bool × Event))
    → (timeline_text (handle_events es new_stream).event_timeline ≡ token_texts es)
      × (concat (handle_events es new_stream).content_parts ≡ message_texts es)
unfolding timeline_text
response_texts es = handle_events-texts es new_stream
