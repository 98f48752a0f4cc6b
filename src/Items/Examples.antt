-- ===== src/Items/Examples.antt =====
-- A timeline with two calls of one tool.
use moonlit_ai_agent.Prelude.{◌≡◌, refl, none, List, [], ◌∷◌, codes, text_eq}
use moonlit_ai_agent.Prelude.Json.{Value}
use moonlit_ai_agent.Message.{Item, tool, text, ToolStatus}
use moonlit_ai_agent.Items.{end_tool}
use moonlit_ai_agent.Items.Tools.{end_tool-none}

abbrev call : ToolStatus → Item
call status = tool none (codes "run_query") status Value.null Value.null

abbrev two_calls : List Item
two_calls = call ToolStatus.running ∷ call ToolStatus.running ∷ text none (codes "so") ∷ []

end_tool-none_example : end_tool (codes "list_tables") Value.null Value.null two_calls ≡ two_calls
unfolding text_eq
end_tool-none_example = end_tool-none (codes "list_tables") Value.null Value.null two_calls refl
