-- ===== src/Parse/Closed.antt =====
-- The file of a finished download in src/main.c is closed but stays set.
use qwnet_library.Connection.{opened, closed, Connection, send_command}
use qwnet_library.Msg.{Reader, read_short, read_byte}
use qwnet_library.Msg.Safety.{read_byte-Safe, read_short-Safe}
use qwnet_library.Msg.Steps.{IsSafe}
use qwnet_library.Parse.Download.{
  close_file, close_if_set, write_file, finish_download, parse_download,
}
use qwnet_library.Parse.Loops.{IsOpen, send_command-Keeps}
use qwnet_library.Prelude.{ℕ, ◌≡◌, refl, ◌∙◌, List, arith, minus_one}
use qwnet_library.Prelude.Action.{done, fault, ◌>>=◌}
use qwnet_library.Prelude.Keeps.{returns}
use qwnet_library.Prelude.Text.{codes}

-- Each later block of any message ends in a call of stdio on the closed file.
parse_download-closed :
    (c : Connection) → IsSafe c.msg → c.download_file ≡ closed → parse_download c ≡ fault
unfolding parse_download write_file close_if_set
parse_download-closed c h e =
    let size = returns read_short read_short-Safe c.msg h in
    let percent = returns read_byte read_byte-Safe size.after size.keeps in
    ground (arith, size.equation, percent.equation)

-- What the end of a download leaves.
pub record Finished (c : Connection) : Type 0 where
  pub after : Connection
  pub finishes : finish_download c ≡ done (tt, after)
  pub same_msg : after.msg ≡ c.msg
  pub still_set : after.download_file ≡ closed
  pub next_faults : (r : Reader) → IsSafe r → parse_download (record after { msg = r }) ≡ fault

-- On an open connection with an open file, the end of a download closes the file and leaves it set;
-- after that ParseDownload faults on it for any message.
pub finish_download-Finished :
    (c : Connection) (name contents : List ℕ)
    → IsOpen c
    → c.download_file ≡ opened name contents
    → Finished c
unfolding finish_download close_file
finish_download-Finished c name contents h e =
    let said =
      returns (send_command 128 (codes "say download finished"))
        (send_command-Keeps 128 (codes "say download finished")) c h in
    let after = record said.after {
      download_file = closed;
      download_file_percentage = minus_one;
    } in
    let still : said.after.download_file ≡ opened name contents = said.related.1 ∙ e in
    record {
      after = after;
      finishes = rw (said.equation, ◌>>=◌) (rw (still, ◌>>=◌) refl);
      same_msg = said.related.0;
      still_set = refl;
      next_faults = λ r s. parse_download-closed (record after { msg = r }) s refl;
    }
