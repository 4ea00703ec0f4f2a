-- ===== src/Client/Console.antt =====
-- The console's lines, which QWC_GetConsoleOutput of src/main.c hands out.
use qwnet_library.Connection.{ConsoleLine, Step}
use qwnet_library.Prelude.{ℕ, true, Option, none, some, List, [], ◌∷◌, if◌then◌else◌}
use qwnet_library.Prelude.Action.{done}

-- What QWC_GetConsoleOutput returns: no value at all, NULL, or a line.
pub data Answer : Type 0 where
  indeterminate : Answer
  nothing : Answer
  line : List ℕ → Answer

-- The first line that is not `done`, and the list with it marked.
unfoldable pub take_line : List ConsoleLine → Option (List ℕ × List ConsoleLine)
take_line [] = none
take_line (l ∷ ls) =
    let later = take_line ls in
    if l.taken
    then elim later [ none ↦ none | some found ↦ some (found.0, l ∷ found.1) ]
    else some (l.text, record l { taken = true } ∷ ls)

-- QWC_GetConsoleOutput. Of an empty list it returns by `return;`, without a value.
unfoldable pub get_console_output : Step Answer
unfolding take_line
get_console_output c = elim c.console_output [
  | [] ↦ done (indeterminate, c)
  | l ∷ ls ↦ elim (take_line (l ∷ ls)) [
    | none ↦ done (nothing, c)
    | some found ↦ done (line found.0, record c { console_output = found.1 })
  ]
]

-- The strings that QWC_Destroy frees.
unfoldable pub freed_lines : List ConsoleLine → List (List ℕ)
freed_lines [] = []
freed_lines (l ∷ ls) = let rest = freed_lines ls in if l.taken then rest else l.text ∷ rest
