-- ===== src/Response/Batching.antt =====
-- Updates are batched: an event leaves a pending status and a scheduled flush, and the flush writes
-- the message. No update is lost and none stays unwritten.
use moonlit_ai_agent.Prelude.{
  ◌≡◌, ◌≢◌, refl, sym, ap, ◌∙◌, Bool, false, Option, none, some, List, [], ◌∷◌, arith,
}
use moonlit_ai_agent.Message.{MessageStatus}
use moonlit_ai_agent.Message.Upsert.{MessageData}
use moonlit_ai_agent.Timeline.{
  Event, task_mode, ui_action, other, Stream, new_stream, Flush, frame, handle_event,
}
use moonlit_ai_agent.Response.{Write, upsert, build_message_data, fire}

-- What happens to a stream while it is read: an event arrives, at a time that the clock says, or
-- the browser runs what is scheduled.
pub data Tick : Type 0 where
  arrives : Bool → Event → Tick
  fires : Tick

-- A stream with the data that its message was last written with.
pub record Screen : Type 0 where
  pub stream : Stream
  pub shown : MessageData

abbrev pub after_write : Option Write → MessageData → MessageData
after_write (some (upsert d st)) old = d
after_write _ old = old

module _ (base : Option MessageData) where
  abbrev pub tick : Tick → Screen → Screen
  tick (arrives due e) sc = record { stream = (handle_event due e sc.stream).0; shown = sc.shown }
  tick fires sc = record {
    stream = (fire base sc.stream).0;
    shown = after_write (fire base sc.stream).1 sc.shown;
  }

  abbrev pub ticks : List Tick → Screen → Screen
  ticks [] sc = sc
  ticks (t ∷ ts) sc = ticks ts (tick t sc)

  -- The message as the response begins, in the shape of its writes: what a message that is gone on
  -- with may have besides, its old usage or no entry for its text, is left out.
  abbrev pub blank : Screen
  blank = record { stream = new_stream; shown = build_message_data base false new_stream }

  -- With nothing pending the screen shows the stream as it is; with something pending a flush is
  -- scheduled.
  pub record IsCurrent (sc : Screen) : Type 0 where
    pub current :
        sc.stream.pending_status ≡ none → sc.shown ≡ build_message_data base false sc.stream
    pub scheduled : sc.stream.pending_status ≢ none → sc.stream.flush ≢ Flush.idle

  handle_event-quiet :
      (due : Bool) (e : Event) (s : Stream)
      → (handle_event due e s).0.pending_status ≡ none
      → (handle_event due e s).0 ≡ s
  unfolding handle_event
  handle_event-quiet due (task_mode v) s h = refl
  handle_event-quiet due (ui_action v) s h = refl
  handle_event-quiet due other s h = refl
  handle_event-quiet due _ s h = ground arith

  handle_event-scheduled :
      (due : Bool) (e : Event) (s : Stream)
      → (s.pending_status ≢ none → s.flush ≢ Flush.idle)
      → (handle_event due e s).0.pending_status ≢ none
      → (handle_event due e s).0.flush ≢ Flush.idle
  unfolding handle_event
  handle_event-scheduled due (task_mode v) s h = h
  handle_event-scheduled due (ui_action v) s h = h
  handle_event-scheduled due other s h = h
  handle_event-scheduled due _ s h = ground arith

  -- What is pending or scheduled is no part of the message.
  build-scheduling :
      (s : Stream) (p : Option MessageStatus) (f : Flush)
      → build_message_data base false (record s { pending_status = p; flush = f })
        ≡ build_message_data base false s
  unfolding build_message_data
  build-scheduling s p f = refl

  tick-IsCurrent : (t : Tick) {sc : Screen} → IsCurrent sc → IsCurrent (tick t sc)
  tick-IsCurrent (arrives due e) {sc} v = record {
    current = λ h.
        let same = handle_event-quiet due e sc.stream h in
        v.current (ap (λ (s : Stream). s.pending_status) (sym same) ∙ h)
        ∙ ap (build_message_data base false) (sym same);
    scheduled = handle_event-scheduled due e sc.stream v.scheduled;
  }
  tick-IsCurrent fires {sc} v = record {
    current = λ h.
        unfold fire in
        ground (
          arith,
          v.current,
          build-scheduling sc.stream none Flush.idle,
          build-scheduling sc.stream sc.stream.pending_status Flush.idle,
          build-scheduling sc.stream sc.stream.pending_status frame,
        );
    scheduled = λ h. unfold fire in ground (arith, v.scheduled);
  }

  ticks-IsCurrent : (ts : List Tick) {sc : Screen} → IsCurrent sc → IsCurrent (ticks ts sc)
  ticks-IsCurrent [] v = v
  ticks-IsCurrent (t ∷ ts) v = ticks-IsCurrent ts (tick-IsCurrent t v)

  -- However events, timers and frames interleave, and whatever the clock says: while no update is
  -- pending, the message holds exactly what the stream has received; and while one is pending, a
  -- flush is scheduled.
  pub ticks-blank-IsCurrent : (ts : List Tick) → IsCurrent (ticks ts blank)
  ticks-blank-IsCurrent ts =
      ticks-IsCurrent ts (record { current = λ h. refl; scheduled = λ h. absurd (h refl) })

  build-fire :
      (s : Stream) → build_message_data base false (fire base s).0 ≡ build_message_data base false s
  unfolding fire
  build-fire s = ground (
    arith,
    build-scheduling s none Flush.idle,
    build-scheduling s s.pending_status Flush.idle,
    build-scheduling s s.pending_status frame,
  )

  two_fires-quiet :
      (sc : Screen) → IsCurrent sc → (ticks (fires ∷ fires ∷ []) sc).stream.pending_status ≡ none
  unfolding fire
  two_fires-quiet sc v = ground (arith, v.scheduled)

  -- From every state that can be reached, the browser's next two turns, a timer and a frame at most,
  -- write the message as the stream has it and leave nothing pending.
  pub two_fires :
      (ts : List Tick)
      → ((ticks (fires ∷ fires ∷ []) (ticks ts blank)).shown
          ≡ build_message_data base false (ticks ts blank).stream)
        × ((ticks (fires ∷ fires ∷ []) (ticks ts blank)).stream.pending_status ≡ none)
  two_fires ts =
      let sc = ticks ts blank in
      let quiet = two_fires-quiet sc (ticks-blank-IsCurrent ts) in
      (
        (ticks-IsCurrent (fires ∷ fires ∷ []) (ticks-blank-IsCurrent ts)).current quiet
            ∙ build-fire (fire base sc.stream).0
            ∙ build-fire sc.stream,
        quiet,
      )
