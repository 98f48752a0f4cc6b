-- ===== src/Lib.antt =====
-- A verification library for the chat client of the Moonlit front end (front-end/src).
--
-- A page of the client holds chat sessions. Each session may run one response at a time: the
-- response's body is a stream of server-sent events, whose events change a timeline, which is
-- written into the session's messages in batches. A stream may be stopped, be replaced by a new
-- one of the same session, or end late, when its session has gone on.
--
-- * Sse models front-end/src/utils/streamParser.js. `processEventBlock` is
--   `process_event_block`, `parseSSEStream` is `parse_sse_stream`. The reader with the decoder
--   is a list of decoded chunks with the way it ends (`closed`, or `failed` for a rejected
--   read); `JSON.parse`, the callback and the test for the type `done` are the record `Client`,
--   an argument. Exceptions are the signal `thrown`.
-- * Registry models front-end/src/hooks/chat-page/chatStreamRegistry.js. A promise's resolution
--   and an abort are entries of two logs, `settled` and `aborted`, which record every call made
--   of them.
-- * Message models front-end/src/utils/chatMessages.js, Session
--   front-end/src/hooks/chat-page/chatSessionModel.js, Titles
--   front-end/src/utils/conversationTitles.js. Texts are lists of UTF-16 code units, as the
--   language has them.
-- * Items, Timeline and Response model `streamAssistantResponse` of
--   front-end/src/hooks/chat-page/useMessageStreaming.js: what an event does to the timeline
--   (Items), to the variables of the closure (`Stream`, `handle_event`), what is written into
--   the message and when (Response). The clock is the Boolean `due` of an event: whether the
--   last flush lies long enough in the past for the next frame to be asked for at once. `fire`
--   is the browser's turn: a timer or a frame that was asked for.
-- * Store models the sessions of front-end/src/hooks/chat-page/useConversations.js, Chat the
--   rest of front-end/src/hooks/chat-page/useMessageStreaming.js. What the code does between two
--   `await`s is one operation on the record `World`; any interleaving of the operations is a
--   list of actions (Chat.Actions). The request itself is the server's and no part of the model.
-- * ConversationList models front-end/src/features/sidebar-left/conversationListModel.js, and
--   Conversations the rest of front-end/src/hooks/chat-page/useConversations.js: the record
--   `Page` is a `World` with the numbers of the requests that are on their way. The query cache
--   is a map; that it stores an answer of its own accord is no part of the model.
-- * Steps models front-end/src/features/chat/ai-response-steps/stepUtils.js with the tables of
--   front-end/src/config/toolActions.js and front-end/src/config/uiActions.js: the steps of a
--   message as they are shown (`normalize_steps`), whether they go on, and the line that sums
--   them up (Steps.Summary).
-- * Interactions models front-end/src/hooks/chat-page/useChatPageStreaming.js: what a session
--   waits for the user with, and how it is presented and answered. Objects that the code
--   compares by identity have a number, `ref`.
-- * Notifications models front-end/src/hooks/useNotifications.js.
-- * QueryCache models the keys of front-end/src/api/queryClient.js. The cache is the library's: the
--   record `QueryClient` has its operations with the laws that the code relies on, and
--   QueryCache.Lists shows that a list of entries has them. Database models
--   front-end/src/contexts/DatabaseContext.jsx with front-end/src/utils/databaseResponse.js: the
--   state and its reducer, and in Database.Requests what an answer of the server does to the state
--   and the cache.
-- * Diagram models `normalizeDiagram` of
--   front-end/src/features/sidebar-right/artifacts/diagram-flow/diagramFlowModel.js: styles
--   (Diagram.Styles), nodes (Diagram.Nodes), edges (Diagram.Edges) and the whole
--   (Diagram.Normalize).
-- * Account models front-end/src/features/dashboard/accountModel.js and
--   front-end/src/guards/routeGuardModel.js, Account.User front-end/src/utils/authUserProfile.js.
--   Auth models front-end/src/contexts/AuthContext.jsx: the effect of the provider (Auth) and the
--   actions of the pages (Auth.Actions), in any order (Auth.Acts).
-- * Executions models the scheduling of reads in front-end/src/api/conversations.js: a promise is
--   the number of its read.
-- * Requests models front-end/src/api/client.js and front-end/src/api/conversationRequestModel.js:
--   what is sent, and what becomes of the answer of `fetch`, which is an argument.
-- * ToolResults models front-end/src/features/chat/ai-response-steps/toolResultPresentation.js: the
--   flag of what was left out is a second result.
-- * UiActions models front-end/src/hooks/chat-page/useUiActionDispatcher.js, and UiActions.Validate
--   the checks of front-end/src/config/uiActions.js. The handlers change a page of any type, and the
--   clock is a function of ticks, which go by with its readings and between the calls of the hook.
-- * Canvas models front-end/src/hooks/chat-page/useWorkspaceCanvas.js, with the width in Canvas.Width,
--   and Canvas.Page front-end/src/hooks/chat-page/useChatPageCanvas.js.
-- * Settings models front-end/src/config/userSettings.js, and Settings.Sync
--   front-end/src/contexts/UserSettingsSync.jsx: a commit runs those of the effects that depend on
--   what has changed. LlmSelection models front-end/src/config/llmSelection.js.
-- * Outputs models front-end/src/features/chat/conversationOutputs.js; Outputs.Fences is its pattern,
--   as a function that goes through a text once.
-- * Welcome models front-end/src/features/chat/welcomeSuggestions.js, LocalStorage
--   front-end/src/hooks/useLocalStorage.js, and FormValidation
--   front-end/src/hooks/useFormValidation.js.
-- * Composer models front-end/src/features/chat/chatDraftStore.js with the form of
--   front-end/src/features/chat/ChatInput.jsx: drafts, and messages that are sent and may be refused;
--   Composer.Accepted runs the form with `handleSendMessage`, up to its request.
--
-- Ids that the code draws at random are arguments, and so are the language's functions on case and
-- dates. Loops are structural recursions, but for the one that numbers the id of an edge
-- (`Diagram.Edges.free_id`), which has fuel: two rounds more than there are ids, which is enough
-- since the ids that it tries are all different.
--
-- Not modelled: React components and styles, the network, the identity provider, navigation, the
-- layout of diagrams, charts, and the back end.
pub mod Prelude
pub mod Sse
pub mod Registry
pub mod Message
pub mod Session
pub mod Titles
pub mod Items
pub mod Timeline
pub mod Response
pub mod Store
pub mod Chat
pub mod ConversationList
pub mod Conversations
pub mod Steps
pub mod Interactions
pub mod Notifications
pub mod QueryCache
pub mod Database
pub mod Diagram
pub mod Account
pub mod Auth
pub mod Executions
pub mod Requests
pub mod ToolResults
pub mod UiActions
pub mod Canvas
pub mod Settings
pub mod LlmSelection
pub mod Outputs
pub mod Welcome
pub mod LocalStorage
pub mod FormValidation
pub mod Composer
