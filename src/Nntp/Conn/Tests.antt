-- ===== src/Nntp/Conn/Tests.antt =====
-- A connection to a scripted server: status lines, blocks and single lines are taken in turn, and the
-- commands are counted.
use nzb_indexer.Base.{ℕ, suc, ◌≡◌, refl, false, none, List, [], ◌∷◌, ◌++◌, pos, arith}
use nzb_indexer.Base.Bytes.{Bytes, cut_prefix}
use nzb_indexer.Nntp.Errors.{proto, eof, network, classify_error, connection}
use nzb_indexer.Nntp.Overview.{ensure_angle}
use nzb_indexer.Nntp.Conn.{
  Wire, NetConn, Reading, Status, got, failed, Called, is_eof, ybegin, simple_cmd, authenticate,
  overview_with, overview_lines, header_lines, body_header, body, join_lines, close,
}
use nzb_indexer.Nntp.Conn.Header.{IsSound, body_header-IsSound}
use nzb_indexer.Nntp.Conn.Commands.{authenticate_lem}

abbrev Script : Type 0
Script = List (Reading Status) × List (Reading (List Bytes)) × List (Reading Bytes) × ℕ

abbrev next_status : Script → Reading Status × Script
next_status ([], blocks, lines, n) = (failed network, ([], blocks, lines, n))
next_status (r ∷ rs, blocks, lines, n) = (r, (rs, blocks, lines, n))

abbrev next_block : Script → Reading (List Bytes) × Script
next_block (rs, [], lines, n) = (failed network, (rs, [], lines, n))
next_block (rs, b ∷ blocks, lines, n) = (b, (rs, blocks, lines, n))

abbrev next_line : Script → Reading Bytes × Script
next_line (rs, blocks, [], n) = (failed eof, (rs, blocks, [], n))
next_line (rs, blocks, l ∷ lines, n) = (l, (rs, blocks, lines, n))

abbrev server : Wire Script
server = record {
  cmd = λ command (rs, blocks, lines, n). (none, (rs, blocks, lines, suc n));
  read_code_line = λ expected s. next_status s;
  read_dot_lines = next_block;
  dot_line = next_line;
  close = λ s. (none, s);
}

abbrev new_conn : NetConn
new_conn = record { over_cmd = none; spent = false }

abbrev code : ℕ → Reading Status
code n = got (record { code = n; line = [] })

program : Unit {0}
unfolding simple_cmd authenticate overview_with overview_lines header_lines body_header body
    join_lines is_eof cut_prefix ensure_angle close
program = tt

-- The server does not know XOVER; the second call sends one command.
abbrev old_server : Script
old_server =
    (failed (proto 500) ∷ code 224 ∷ code 224 ∷ [], got ((1 ∷ []) ∷ []) ∷ got [] ∷ [], [], 0)

abbrev first_call : Called server (List Bytes)
first_call = overview_lines server new_conn (pos 1) (pos 2) old_server

abbrev header_script : Script
header_script = (code 222 ∷ [], [], got (65 ∷ []) ∷ got (ybegin ++ (32 ∷ [])) ∷ got [] ∷ [], 0)

abbrev short_script : Script
short_script = (code 222 ∷ [], [], got (65 ∷ []) ∷ [], 0)

header_found :
    (body_header server new_conn (97 ∷ []) header_script).answer ≡ got (ybegin ++ (32 ∷ []))
unfolding program
header_found = refl

short_body_is_reusable : (body_header server new_conn (97 ∷ []) short_script).conn ≡ new_conn
unfolding program
short_body_is_reusable = refl

joined :
    (body server (97 ∷ []) (code 222 ∷ [], got ((65 ∷ []) ∷ (66 ∷ []) ∷ []) ∷ [], [], 0)).0
    ≡ got (65 ∷ 13 ∷ 10 ∷ 66 ∷ [])
unfolding program
joined = refl

body_header-IsSound_example :
    IsSound server new_conn
      (97 ∷ [])
      header_script
      (body_header server new_conn (97 ∷ []) header_script)
body_header-IsSound_example = body_header-IsSound server new_conn (97 ∷ []) header_script

abbrev login_script : Script
login_script = (code 381 ∷ code 481 ∷ [], [], [], 0)

authenticate_lem_example :
    classify_error (authenticate server (97 ∷ []) [] login_script).0 ≡ connection
unfolding program
authenticate_lem_example =
    (authenticate_lem server 97 [] [] login_script (code 481 ∷ [], [], [], 1) ([], [], [], 2)
        (record { code = 381; line = [] }) (record { code = 481; line = [] }) refl refl).1
      (λ h. absurd (ground arith))
