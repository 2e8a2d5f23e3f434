-- ===== src/Execute/Files.antt =====
-- Files that a tool names: `_FILE_TOOL_NAMES`, `_is_file_tool_result` and
-- `_collect_external_file_path` of app/services/execute_service.py. `none` is an exception of Python,
-- raised where a value is not of the type that the code takes it for.
use text.Mathlib.Text.{◌==◌, starts_with}
use claude_multi_agent.Base.{
  String, Bool, true, false, not, ◌&&◌, ◌||◌, Option, none, some, List, [], ◌∷◌, ◌++◌,
  if◌then◌else◌,
}
use claude_multi_agent.Json.{Json, str, arr, obj, end, get_or, truthy}
use claude_multi_agent.Streaming.{Event}

abbrev file_tool_names : List String
file_tool_names =
    "write_file" ∷ "create_file" ∷ "edit_file" ∷ "replace_file" ∷ "Write" ∷ "Edit" ∷ "write"
    ∷ "create" ∷ "save_file" ∷ []

abbrev is_one_of : String → List String → Bool
is_one_of t [] = false
is_one_of t (n ∷ ns) = n == t || is_one_of t ns

-- `tool_name in _FILE_TOOL_NAMES`: a list or a dictionary cannot be looked up in a set.
names_file_tool : Json → Option Bool
names_file_tool (str t) = some (is_one_of t file_tool_names)
names_file_tool (arr xs) = none
names_file_tool (obj fs) = none
names_file_tool v = some false

unfoldable pub is_file_tool_result : Event → Option Bool
unfolding names_file_tool
is_file_tool_result e = names_file_tool (get_or "tool_name" (str "") e.body)

add_path : Json → List String → Option (List String)
add_path (str p) paths =
    if starts_with p "/" && not (starts_with p "/workspace/")
    then some (paths ++ (p ∷ []))
    else some paths
add_path v paths = if truthy v then none else some paths

path_of : Json → List String → Option (List String)
path_of (obj input) paths = add_path (get_or "file_path" (str "") input) paths
path_of v paths = none

of_file_tool : Option Bool → Event → List String → Option (List String)
of_file_tool none e paths = none
of_file_tool (some false) e paths = some paths
of_file_tool (some true) e paths = path_of (get_or "input" (obj end) e.body) paths

unfoldable pub collect_external_file_path : Event → List String → Option (List String)
unfolding of_file_tool path_of add_path names_file_tool
collect_external_file_path e paths =
    if e.event == "tool_call"
    then of_file_tool (names_file_tool (get_or "tool_name" (str "") e.body)) e paths
    else some paths
