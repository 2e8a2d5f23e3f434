-- ===== src/Progress.antt =====
-- The progress phrases: app/utils/progress_messages.py. `choice` stands for `random.choice`, whose
-- `none` is the IndexError of an empty list.
mod Phrases
mod Tests
use Prim.Native.String.{◌++◌}
use text.Mathlib.Text.{◌==◌, starts_with}
use claude_multi_agent.Base.{String, Bool, Option, none, some, List, [], ◌∷◌, if◌then◌else◌}

abbrev pub Table : Type 0
Table = List (String × List String)

abbrev phase_messages : Table
phase_messages =
    (
      "thinking",
      "考えています..." ∷ "回答を検討中..." ∷ "最適な回答を考えています..." ∷ "内容を分析しています..." ∷ "リクエストを処理中..." ∷ [],
    )
    ∷ ("generating", "回答を作成しています..." ∷ "テキストを生成中..." ∷ "回答を準備しています..." ∷ "内容を整理しています..." ∷ [])
    ∷ []

abbrev builtin_tool_messages : Table
builtin_tool_messages =
    ("Read", "ファイルを読み込んでいます..." ∷ "ファイル内容を取得中..." ∷ [])
    ∷ ("Write", "ファイルを作成しています..." ∷ "ファイルに書き込んでいます..." ∷ [])
    ∷ ("Edit", "ファイルを編集しています..." ∷ "コードを修正中..." ∷ [])
    ∷ ("Bash", "コマンドを実行しています..." ∷ "ターミナル処理を実行中..." ∷ [])
    ∷ ("Glob", "ファイルを検索しています..." ∷ "パターンに一致するファイルを探しています..." ∷ [])
    ∷ ("Grep", "テキストを検索しています..." ∷ "コード内を検索中..." ∷ [])
    ∷ ("Task", "サブタスクを処理しています..." ∷ "並行処理を実行中..." ∷ [])
    ∷ ("WebFetch", "Webページを取得しています..." ∷ "Web情報を読み込み中..." ∷ [])
    ∷ ("WebSearch", "Web検索を実行しています..." ∷ "インターネットで情報を検索中..." ∷ [])
    ∷ ("TodoRead", "タスク一覧を確認しています..." ∷ [])
    ∷ ("TodoWrite", "タスクを更新しています..." ∷ [])
    ∷ ("NotebookEdit", "ノートブックを編集しています..." ∷ [])
    ∷ ("mcp__file-presentation__present_files", "ファイルを提示しています..." ∷ "結果ファイルを準備中..." ∷ [])
    ∷ ("mcp__file-tools__list_workspace_files", "ワークスペースのファイル一覧を取得中..." ∷ [])
    ∷ ("mcp__file-tools__read_image_file", "画像ファイルを読み込んでいます..." ∷ "画像を分析中..." ∷ [])
    ∷ ("mcp__file-tools__inspect_excel_file", "Excelファイルの構造を確認中..." ∷ [])
    ∷ ("mcp__file-tools__read_excel_sheet", "Excelデータを取得しています..." ∷ "スプレッドシートを読み込み中..." ∷ [])
    ∷ ("mcp__file-tools__inspect_pdf_file", "PDFファイルの構造を確認中..." ∷ [])
    ∷ ("mcp__file-tools__read_pdf_pages", "PDFテキストを抽出しています..." ∷ "PDFを読み込み中..." ∷ [])
    ∷ ("mcp__file-tools__convert_pdf_to_images", "PDFを画像に変換しています..." ∷ "PDF画像化処理中..." ∷ [])
    ∷ ("mcp__file-tools__inspect_word_file", "Wordファイルの構造を確認中..." ∷ [])
    ∷ ("mcp__file-tools__read_word_section", "Wordテキストを取得しています..." ∷ "ドキュメントを読み込み中..." ∷ [])
    ∷ ("mcp__file-tools__inspect_pptx_file", "PowerPointの構造を確認中..." ∷ [])
    ∷ ("mcp__file-tools__read_pptx_slides", "PowerPointスライドを読み込んでいます..." ∷ "プレゼンテーションを処理中..." ∷ [])
    ∷ ("mcp__file-tools__inspect_image_file", "画像の情報を取得しています..." ∷ [])
    ∷ []

abbrev default_mcp_messages : List String
default_mcp_messages = ("MCPツールを実行しています..." ∷ "外部ツールを処理中..." ∷ "ツールの応答を待っています..." ∷ [])

abbrev default_tool_messages : List String
default_tool_messages = ("処理を実行しています..." ∷ "ツールを実行中..." ∷ [])

-- The entry of a key, behind `in` and `[key]`.
find_messages : String → Table → Option (List String)
find_messages k [] = none
find_messages k ((j, ms) ∷ t) = if j == k then some ms else find_messages k t

module _ (choice : List String → Option String) where
  by_phase : String → Option String
  by_phase phase = elim (find_messages phase phase_messages) [
    | none ↦ some "処理中..."
    | some ms ↦ choice ms
  ]

  by_tool : String → Option String
  by_tool tool_name = elim (find_messages tool_name builtin_tool_messages) [
    | none ↦
        choice
          (if starts_with tool_name "mcp__" then default_mcp_messages else default_tool_messages)
    | some ms ↦ choice ms
  ]

  -- `get_initial_message`, where an absent tool name is the empty text.
  unfoldable pub get_initial_message : String → String → Option String
  unfolding by_phase by_tool find_messages
  get_initial_message phase String.[] = by_phase phase
  get_initial_message phase (String.◌∷◌ c name) =
      if phase == "tool" then by_tool (String.◌∷◌ c name) else by_phase phase
