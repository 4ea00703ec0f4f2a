-- ===== src/Client/Lines.antt =====
-- Each line of the console in src/main.c is handed out once, and in order.
-- What happens to the console: the parser adds a line, or the program asks for one.
use mathlib.Core.Path.{subst}
use qwnet_library.Client.Console.{
  Answer, indeterminate, nothing, line, take_line, get_console_output, freed_lines,
}
use qwnet_library.Connection.{ConsoleLine, Connection, Step, granted}
use qwnet_library.Parse.Commands.{string_add}
use qwnet_library.Prelude.{
  ℕ, ◌+◌, ◌≡◌, refl, sym, ap, ◌∙◌, inl, inr, true, false, Option, none, some, List, [], ◌∷◌, ◌++◌,
  append-nil, append_assoc, if◌then◌else◌, Bool-cases,
}
use qwnet_library.Prelude.Action.{Outcome, done, pure, ◌>>=◌, ◌>>◌}

pub data Event : Type 0 where
  prints : List ℕ → Event
  asks : Event

abbrev given : Answer → List (List ℕ) → List (List ℕ)
given indeterminate rest = rest
given nothing rest = rest
given (line text) rest = text ∷ rest

-- The lines that are handed out.
unfoldable pub handed : List Event → Step (List (List ℕ))
handed [] = pure []
handed (prints text ∷ es) = do string_add text; handed es
handed (asks ∷ es) = do a ← get_console_output; rest ← handed es; pure (given a rest)

unfoldable pub printed : List Event → List (List ℕ)
printed [] = []
printed (prints text ∷ es) = text ∷ printed es
printed (asks ∷ es) = printed es

pub record IsSaving (c : Connection) : Type 0 where
  pub asked : c.save_console_output ≡ true
  pub memory : (k : ℕ) → c.oracle.grants k ≡ true

freed_lines-append :
    (ls : List ConsoleLine) (text : List ℕ)
    → freed_lines (ls ++ (record { text = text; taken = false } ∷ []))
      ≡ freed_lines ls ++ (text ∷ [])
unfolding freed_lines
freed_lines-append [] text = refl
freed_lines-append (l ∷ ls) text = elim (Bool-cases l.taken) [
  | inl gone ↦ rw (gone) (freed_lines-append ls text)
  | inr here ↦ rw (here) (ap (λ ts. l.text ∷ ts) (freed_lines-append ls text))
]

-- The first line left, in the list and in what is left of it.
abbrev Taken : List ConsoleLine → Option (List ℕ × List ConsoleLine) → Type 0
Taken ls none = freed_lines ls ≡ []
Taken ls (some found) = freed_lines ls ≡ found.0 ∷ freed_lines found.1

skipped-Taken :
    (l : ConsoleLine) (ls : List ConsoleLine) (later : Option (List ℕ × List ConsoleLine))
    → l.taken ≡ true
    → Taken ls later
    → Taken (l ∷ ls) (elim later [ none ↦ none | some found ↦ some (found.0, l ∷ found.1) ])
unfolding freed_lines
skipped-Taken l ls none gone h = rw gone h
skipped-Taken l ls (some found) gone h = rw gone h

take_line-Taken : (ls : List ConsoleLine) → Taken ls (take_line ls)
unfolding take_line freed_lines
take_line-Taken [] = refl
take_line-Taken (l ∷ ls) = elim (Bool-cases l.taken) [
  | inr here ↦ rw (here) refl
  | inl gone ↦
      subst
        (λ b. Taken (l ∷ ls) (
          if b
          then elim (take_line ls) [ none ↦ none | some found ↦ some (found.0, l ∷ found.1) ]
          else some (l.text, record l { taken = true } ∷ ls)))
        (sym gone) (skipped-Taken l ls (take_line ls) gone (take_line-Taken ls))
]

-- The lines that are handed out and those that are left make up, in order, what was there before.
pub record HandedOut (before : List (List ℕ)) (result : Outcome (List (List ℕ) × Connection))
    : Type 0 where
  pub lines : List (List ℕ)
  pub after : Connection
  pub returns : result ≡ done (lines, after)
  pub in_order : lines ++ freed_lines after.console_output ≡ before

-- QWC_GetConsoleOutput hands out the first line that is left.
record Asked (c : Connection) (result : Outcome (Answer × Connection)) : Type 0 where
  answer : Answer
  asked : Connection
  answers : result ≡ done (answer, asked)
  still : IsSaving asked
  first : given answer (freed_lines asked.console_output) ≡ freed_lines c.console_output

found-Asked :
    (c : Connection) (o : Option (List ℕ × List ConsoleLine))
    → IsSaving c
    → Taken c.console_output o
    → Asked c (elim o [
      | none ↦ done (nothing, c)
      | some found ↦ done (line found.0, record c { console_output = found.1 })
    ])
found-Asked c none saving h = record {
  answer = nothing;
  asked = c;
  answers = refl;
  still = saving;
  first = refl;
}
found-Asked c (some found) saving h = record {
  answer = line found.0;
  asked = record c { console_output = found.1 };
  answers = refl;
  still = record { asked = saving.asked; memory = saving.memory };
  first = sym h;
}

get_console_output-Asked : (c : Connection) → IsSaving c → Asked c (get_console_output c)
unfolding get_console_output
get_console_output-Asked c saving =
    elim c.console_output
        as (λ ls.
          (c.console_output ≡ ls)
          → Asked c (elim ls [
            | [] ↦ done (indeterminate, c)
            | l ∷ ls' ↦ elim (take_line (l ∷ ls')) [
              | none ↦ done (nothing, c)
              | some found ↦ done (line found.0, record c { console_output = found.1 })
            ]
          ])) [
            | [] ↦ λ e. record {
              answer = indeterminate;
              asked = c;
              answers = refl;
              still = saving;
              first = refl;
            }
            | l ∷ ls' ↦ λ e.
                found-Asked c (take_line (l ∷ ls')) saving
                  (subst (λ ls. Taken ls (take_line (l ∷ ls'))) (sym e) (take_line-Taken (l ∷ ls')))
          ]
      refl

given-append : (a : Answer) (xs ys : List (List ℕ)) → given a xs ++ ys ≡ given a (xs ++ ys)
given-append indeterminate xs ys = refl
given-append nothing xs ys = refl
given-append (line text) xs ys = refl

-- A line that is kept.
abbrev kept : List ℕ → Connection → Connection
kept text c = record c {
  calls = c.calls + 1 + 1;
  console_output = c.console_output ++ (record { text = text; taken = false } ∷ []);
}

string_add-kept :
    (text : List ℕ) (c : Connection) → IsSaving c → string_add text c ≡ done (tt, kept text c)
unfolding string_add granted
string_add-kept text c saving =
    rw (saving.asked, ◌>>=◌)
      (rw (saving.memory c.calls, ◌>>=◌) (rw (saving.memory (c.calls + 1), ◌>>=◌) refl))

-- While the program saves the console's output and there is memory for it, QWC_GetConsoleOutput hands
-- out each line once and in the order in which they were printed, whatever the order of the calls;
-- those not handed out in the end are the ones that QWC_Destroy frees.
pub handed-HandedOut :
    (es : List Event) (c : Connection)
    → IsSaving c
    → HandedOut (freed_lines c.console_output ++ printed es) (handed es c)
unfolding handed printed
handed-HandedOut [] c saving = record {
  lines = [];
  after = c;
  returns = refl;
  in_order = sym (append-nil _);
}
handed-HandedOut (prints text ∷ es) c saving =
    let rest =
      handed-HandedOut es (kept text c) (record { asked = saving.asked; memory = saving.memory }) in
    record {
      lines = rest.lines;
      after = rest.after;
      returns = rw (string_add-kept text c saving, ◌>>=◌) rest.returns;
      in_order =
          rest.in_order
          ∙ ap (λ ts. ts ++ printed es) (freed_lines-append c.console_output text)
          ∙ append_assoc (freed_lines c.console_output) (text ∷ []) (printed es);
    }
handed-HandedOut (asks ∷ es) c saving =
    let ask = get_console_output-Asked c saving in
    let rest = handed-HandedOut es ask.asked ask.still in
    record {
      lines = given ask.answer rest.lines;
      after = rest.after;
      returns = rw (ask.answers, ◌>>=◌) (rw (rest.returns, ◌>>=◌) refl);
      in_order =
          given-append ask.answer rest.lines (freed_lines rest.after.console_output)
          ∙ ap (given ask.answer) rest.in_order
          ∙ sym (given-append ask.answer (freed_lines ask.asked.console_output) (printed es))
          ∙ ap (λ ts. ts ++ printed es) ask.first;
    }
