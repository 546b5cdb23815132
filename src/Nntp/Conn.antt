-- ===== src/Nntp/Conn.antt =====
-- internal/nntp/conn.go, the connection: the commands that are sent and the answers that are read. The
-- wire is a world that the calls step through. One caller holds a connection at a time, so the
-- pipeline's tickets, StartResponse and EndResponse, are left out, as is the greeting of a new one.
mod Header
mod Commands
mod Tests
use nzb_indexer.Base.{
  ℕ, zero, suc, Bool, true, false, Option, none, some, List, [], ◌∷◌, ◌++◌, ◌==◌, ◌||◌,
  if◌then◌else◌, ℤ,
}
use nzb_indexer.Base.Bytes.{Bytes, cut_prefix}
use nzb_indexer.Nntp.Errors.{Error, eof, no_yenc_header, other, wrap, join, is_unrecognized}
use nzb_indexer.Nntp.Overview.{
  Overview, GroupInfo, AvailableGroup, parse_overviews, parse_active, parse_group, ensure_angle,
}

pub data OverCommand : Type 0 where
  xover over : OverCommand

pub data Command : Type 0 where
  authinfo_user authinfo_pass group body_of : Bytes → Command
  overview_range : OverCommand → ℤ → ℤ → Command
  list_active date quit mode_reader : Command

-- What a read gives: the answer, or an error.
pub data Reading (A : Type 0) : Type 0 where
  got : A → Reading A
  failed : Error → Reading A

-- A status line: its code and its text.
pub record Status : Type 0 where
  pub code : ℕ
  pub line : Bytes

-- The calls of net/textproto and of the socket. `read_code_line` is given the code that is expected,
-- or 0 for any; `dot_line` reads one line of a block through the dot reader.
pub record Wire (S : Type 0) : Type 0 where
  pub cmd : Command → S → Option Error × S
  pub read_code_line : ℕ → S → Reading Status × S
  pub read_dot_lines : S → Reading (List Bytes) × S
  pub dot_line : S → Reading Bytes × S
  pub close : S → Option Error × S

-- `over_cmd` is `none` for the empty string.
pub record NetConn : Type 0 where
  pub over_cmd : Option OverCommand
  pub spent : Bool

-- `errors.Is(err, io.EOF)`
unfoldable pub is_eof : Error → Bool
is_eof eof = true
is_eof (wrap e) = is_eof e
is_eof (join e f) = is_eof e || is_eof f
is_eof _ = false

-- "=ybegin"
abbrev pub ybegin : Bytes
ybegin = 61 ∷ 121 ∷ 98 ∷ 101 ∷ 103 ∷ 105 ∷ 110 ∷ []

abbrev pub starts_ybegin : Option Bytes → Bool
starts_ybegin none = false
starts_ybegin (some rest) = true

abbrev pub alternative : OverCommand → OverCommand
alternative over = xover
alternative xover = over

abbrev command_or_xover : Option OverCommand → OverCommand
command_or_xover none = xover
command_or_xover (some c) = c

abbrev parse_group_reading : Bytes → Option GroupInfo → Reading GroupInfo
parse_group_reading name none = failed (other 0)
parse_group_reading name (some info) = got info

-- A step on a reading that keeps the error.
abbrev map_reading : {A B : Type 0} → (A → Reading B) → Reading A → Reading B
map_reading f (got a) = f a
map_reading f (failed err) = failed err

module _ {S : Type 0} (wire : Wire S) where
  -- A command, and what follows it unless it could not be sent.
  abbrev after_cmd : {A : Type 0} → Option Error × S → (S → Reading A × S) → Reading A × S
  after_cmd (some err, s) next = (failed err, s)
  after_cmd (none, s) next = next s

  abbrev after_code :
      {A : Type 0} → Reading Status × S → (Status → S → Reading A × S) → Reading A × S
  after_code (failed err, s) next = (failed err, s)
  after_code (got status, s) next = next status s

  -- A command that expects a code, and what is read after it.
  abbrev pub ask : {A : Type 0} → Command → ℕ → (Status → S → Reading A × S) → S → Reading A × S
  ask command expected next s =
      after_cmd (wire.cmd command s) (λ t. after_code (wire.read_code_line expected t) next)

  unfoldable pub simple_cmd : Command → S → Reading Status × S
  simple_cmd command s = ask command 0 (λ status t. (got status, t)) s

  abbrev error_of : {A : Type 0} → Reading A × S → Option Error × S
  error_of (got a, s) = (none, s)
  error_of (failed err, s) = (some err, s)

  unfoldable pub mode_reader_cmd : S → Option Error × S
  mode_reader_cmd s = error_of (ask mode_reader 20 (λ status t. (got status, t)) s)

  abbrev after_pass : Reading Status × S → Option Error × S
  after_pass (failed err, s) = (some err, s)
  after_pass (got status, s) = if status.code == 281 then (none, s) else (some (other 1), s)

  abbrev after_user : Bytes → Reading Status × S → Option Error × S
  after_user pass (failed err, s) = (some err, s)
  after_user pass (got status, s) =
      let passed = after_pass (simple_cmd (authinfo_pass pass) s) in
      if status.code == 281
      then (none, s)
      else if status.code == 381
      then passed
      else (some (other 2), s)

  unfoldable pub authenticate : Bytes → Bytes → S → Option Error × S
  authenticate [] pass s = (none, s)
  authenticate (b ∷ user) pass s = after_user pass (simple_cmd (authinfo_user (b ∷ user)) s)

  unfoldable pub select_group : Bytes → S → Reading GroupInfo × S
  select_group name s =
      ask (group name) 211
        (λ status t. (parse_group_reading name (parse_group name (status.line)), t)) s

  unfoldable pub overview_with : OverCommand → ℤ → ℤ → S → Reading (List Bytes) × S
  overview_with c begin end s =
      ask (overview_range c begin end) 224 (λ status t. wire.read_dot_lines t) s

  -- A call's answer with the connection after it.
  pub record Called (A : Type 0) : Type 0 where
    pub conn : NetConn
    pub world : S
    pub answer : Reading A

  abbrev after_alternative : NetConn → OverCommand → Reading (List Bytes) × S → Called (List Bytes)
  after_alternative c alt (got lines, s) = record {
    conn = record c { over_cmd = some alt };
    world = s;
    answer = got lines;
  }
  after_alternative c alt (failed err, s) = record { conn = c; world = s; answer = failed err }

  abbrev after_overview :
      NetConn → OverCommand → ℤ → ℤ → Reading (List Bytes) × S → Called (List Bytes)
  after_overview c chosen begin end (got lines, s) = record {
    conn = c;
    world = s;
    answer = got lines;
  }
  after_overview c chosen begin end (failed err, s) =
      let second =
        after_alternative c (alternative chosen) (overview_with (alternative chosen) begin end s) in
      if is_unrecognized err then second else record { conn = c; world = s; answer = failed err }

  -- The lines, by the command that the server takes.
  unfoldable pub overview_lines : NetConn → ℤ → ℤ → S → Called (List Bytes)
  overview_lines c begin end s =
      let chosen = command_or_xover (c.over_cmd) in
      after_overview (record c { over_cmd = some chosen }) chosen begin end
        (overview_with chosen begin end s)

  unfoldable pub overview : (ℕ → Bytes → Option ℕ) → NetConn → ℤ → ℤ → S → Called (List Overview)
  overview parse c begin end s =
      let lines = overview_lines c begin end s in
      record {
        conn = lines.conn;
        world = lines.world;
        answer = map_reading (λ ls. got (parse_overviews parse ls)) lines.answer;
      }

  unfoldable pub list_active_groups : S → Reading (List AvailableGroup) × S
  list_active_groups s =
      let lines = ask list_active 215 (λ status t. wire.read_dot_lines t) s in
      (map_reading (λ ls. got (parse_active ls)) (lines.0), lines.1)

  -- `strings.Join(lines, "\r\n")`
  unfoldable pub join_lines : List Bytes → Bytes
  join_lines [] = []
  join_lines (line ∷ []) = line
  join_lines (line ∷ next ∷ lines) = line ++ (13 ∷ 10 ∷ join_lines (next ∷ lines))

  unfoldable pub body : Bytes → S → Reading Bytes × S
  body message_id s =
      let lines =
        ask (body_of (ensure_angle message_id)) 222 (λ status t. wire.read_dot_lines t) s in
      (map_reading (λ ls. got (join_lines ls)) (lines.0), lines.1)

  abbrev after_line : NetConn → Reading Bytes × S → (S → Called Bytes) → Called Bytes
  after_line c (failed err, s) next =
      if is_eof err
      then record { conn = c; world = s; answer = failed no_yenc_header }
      else record { conn = record c { spent = true }; world = s; answer = failed err }
  after_line c (got line, s) next =
      let later = next s in
      if starts_ybegin (cut_prefix ybegin line)
      then record { conn = record c { spent = true }; world = s; answer = got line }
      else later

  -- The loop, over the `left` lines that may still be read.
  unfoldable pub header_lines : NetConn → ℕ → S → Called Bytes
  header_lines c zero s = record {
    conn = record c { spent = true };
    world = s;
    answer = failed no_yenc_header;
  }
  header_lines c (suc left) s = after_line c (wire.dot_line s) (header_lines c left)

  abbrev after_body : NetConn → Reading Status × S → Called Bytes
  after_body c (failed err, s) = record { conn = c; world = s; answer = failed err }
  after_body c (got status, s) = header_lines c 8 s

  unfoldable pub body_header : NetConn → Bytes → S → Called Bytes
  body_header c message_id s =
      after_body c (ask (body_of (ensure_angle message_id)) 222 (λ status t. (got status, t)) s)

  unfoldable pub ping : S → Option Error × S
  ping s = error_of (simple_cmd date s)

  abbrev after_quit : Option Error × S → Option Error × S
  after_quit (some err, s) = wire.close s
  after_quit (none, s) = wire.close (wire.read_code_line 205 s).1

  unfoldable pub close : NetConn → S → Option Error × S
  close c s = if c.spent then wire.close s else after_quit (wire.cmd quit s)
