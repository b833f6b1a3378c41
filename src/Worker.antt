-- ===== src/Worker.antt =====
-- crates/glacier-007-dll/src/worker.rs: the DLL's end of the pipe. A client's connection is the
-- sequence of what its frames turn out to be, each with whether the answer could be written. The
-- requests that other parts of the DLL serve are of the parameter type `Other`.
pub mod Session
mod Examples
use openforge_aio.Prelude.{
  ℕ, ◌+◌, ◌^◌, ◌%◌, ◌≡◌, Bool, true, false, Option, none, some, List, [], ◌∷◌, ◌++◌, length, ltb,
  ◌==◌, if◌then◌else◌,
}
use openforge_aio.Prelude.Result.{Result, ok, err}
use openforge_aio.Prelude.Int.{ℤ}
use openforge_aio.Prelude.Text.{Text, codes}
use openforge_aio.Memory.{Os, ReadError}
use openforge_aio.Memory
use openforge_aio.Frame.{max_frame_bytes}
use openforge_aio.GlacierValue.{GlacierValue, ValueKind}
use openforge_aio.LogRing.{LogRing, LogLevel}
use openforge_aio.LogRing
use openforge_aio.Freeze.{Freezes}
use openforge_aio.Freeze
use openforge_aio.CodePatch.{Patcher}
use openforge_aio.CodePatch

abbrev pub protocol_version : ℕ
protocol_version = 6

module _ (os : Os) (Other Answer : Type 0) (serve_other : Other → os.Mem → Answer × os.Mem) where
  -- The requests of crates/glacier-protocol/src/lib.rs.
  pub data Request : Type 0 where
    hello : ℕ → Request
    ping disconnect : Request
    set_log_level : LogLevel → Request
    drain_log : ℕ → Request
    read_bytes : ℕ → ℕ → Request
    write_bytes : ℕ → List ℕ → Request
    start_freeze : ℕ → ℤ → Option ℤ → GlacierValue → ValueKind → ℕ → ℕ → Request
    stop_freeze query_freeze_stats : ℕ → Request
    code_patch : ℕ → List ℕ → List ℕ → Request
    restore_patch : ℕ → List ℕ → Request
    other : Other → Request

  -- The responses, with what the texts of the errors are formatted from.
  pub data Response : Type 0 where
    welcome pong disconnect_ack write_ok : Response
    log_lines : List Text → Response
    bytes : List ℕ → Response
    read_too_large write_too_large : ℕ → Response
    read_failed write_failed : ℕ → ReadError → Response
    empty_write hello_already_received hello_required : Response
    version_mismatch : ℕ → Response
    decode_error framing_error : Response
    freeze : Freeze.Response → Response
    patch : CodePatch.Response → Response
    answer : Answer → Response

  pub record Server : Type 0 where
    pub patcher : Patcher os
    pub freezes : Freezes
    pub log : LogRing

  abbrev pub read_reply : ℕ → Result ReadError (List ℕ) → Response
  read_reply addr (ok buf) = bytes buf
  read_reply addr (err e) = read_failed addr e

  unfoldable pub handle_read_bytes : os.Mem → ℕ → ℕ → Response
  handle_read_bytes m addr len =
      if len == 0
      then bytes []
      else if ltb max_frame_bytes len
      then read_too_large len
      else read_reply addr (Memory.read_bytes os m addr len)

  abbrev pub write_reply : ℕ → Result ReadError (Unit {0}) → Response
  write_reply addr (ok u) = write_ok
  write_reply addr (err e) = write_failed addr e

  unfoldable pub handle_write_bytes : os.Mem → ℕ → List ℕ → Response × os.Mem
  handle_write_bytes m addr bs =
      if length bs == 0
      then (empty_write, m)
      else if ltb max_frame_bytes (length bs % 2 ^ 32)
      then (write_too_large (length bs), m)
      else (let (written, m') = Memory.write_bytes os m addr bs in (write_reply addr written, m'))

  abbrev pub with_mem : Server → os.Mem → Server
  with_mem s m = record s { patcher = record { mem = m; patches = s.patcher.patches } }

  -- `drain_log` asks for all lines by 0.
  unfoldable pub handle_request : Server → Request → Response × Server
  unfolding handle_read_bytes handle_write_bytes
  handle_request s (hello v) = (hello_already_received, s)
  handle_request s ping = (pong, s)
  handle_request s disconnect = (disconnect_ack, s)
  handle_request s (set_log_level l) = (log_lines [], record s { log = LogRing.set_level s.log l })
  handle_request s (drain_log max_lines) =
      let cap = if max_lines == 0 then length s.log.lines else max_lines in
      let (lines, log) = LogRing.drain s.log cap in (log_lines lines, record s { log = log })
  handle_request s (read_bytes addr len) = (handle_read_bytes s.patcher.mem addr len, s)
  handle_request s (write_bytes addr bs) =
      let (reply, m) = handle_write_bytes s.patcher.mem addr bs in (reply, with_mem s m)
  handle_request s
        (start_freeze box_va write_offset source_offset value value_kind guard_min guard_max) =
      let (reply, reg) =
        Freeze.start_freeze s.freezes box_va write_offset source_offset value value_kind guard_min
          guard_max in
      (freeze reply, record s { freezes = reg })
  handle_request s (stop_freeze handle) =
      let (reply, reg) = Freeze.stop_freeze s.freezes handle in
      (freeze reply, record s { freezes = reg })
  handle_request s (query_freeze_stats handle) = (freeze (Freeze.query_stats s.freezes handle), s)
  handle_request s (code_patch addr original patched) =
      let (reply, patcher) = CodePatch.code_patch os s.patcher addr original patched in
      (patch reply, record s { patcher = patcher })
  handle_request s (restore_patch addr original) =
      let (reply, patcher) = CodePatch.restore_patch os s.patcher addr original in
      (patch reply, record s { patcher = patcher })
  handle_request s (other r) =
      let (reply, m) = serve_other r s.patcher.mem in (answer reply, with_mem s m)

  -- What `read_frame` and `decode` make of the next frame.
  pub data Incoming : Type 0 where
    eof undecodable framing : Incoming
    io : Text → Incoming
    request : Request → Incoming

  abbrev pub is_disconnect : Response → Bool
  is_disconnect disconnect_ack = true
  is_disconnect _ = false

  abbrev pub replied : Response → List Response × Server → List Response × Server
  replied r (rs, s) = (r ∷ rs, s)

  abbrev pub logged : Server → LogLevel → Text → Server
  logged s l line = record s { log = LogRing.push s.log l line }

  -- The loop of `serve_client`; the flag is `handshake_done`. The answers that it tries to write.
  unfoldable pub serve_client : Bool → Server → List (Incoming × Bool) → List Response × Server
  unfolding handle_request
  serve_client shaken s [] = ([], s)
  serve_client shaken s ((eof, written) ∷ es) = ([], s)
  serve_client shaken s ((undecodable, written) ∷ es) = (decode_error ∷ [], s)
  serve_client shaken s ((framing, written) ∷ es) = (framing_error ∷ [], s)
  serve_client shaken s ((io text, written) ∷ es) =
      ([], logged s LogRing.LogLevel.warn (codes "pipe IO error: " ++ text))
  serve_client false s ((request (hello v), written) ∷ es) =
      let rest = serve_client true s es in
      if v == protocol_version
      then (if written then replied welcome rest else (welcome ∷ [], s))
      else (version_mismatch v ∷ [], s)
  serve_client false s ((request r, written) ∷ es) = (hello_required ∷ [], s)
  serve_client true s ((request r, written) ∷ es) =
      let (reply, s') = handle_request s r in
      let rest = serve_client true s' es in
      if written
      then (if is_disconnect reply then (reply ∷ [], s') else replied reply rest)
      else (reply ∷ [], s')

  -- A connection, from the connect to the tear-down; `drained` is the order in which the patch
  -- registry is emptied.
  unfoldable pub connection :
      Server → List (Incoming × Bool) → List (ℕ × List ℕ) → List Response × Server
  unfolding serve_client
  connection s es drained =
      let (replies, s') =
        serve_client false (logged s LogRing.LogLevel.info (codes "client connected")) es in
      let restored : Server = record s' { patcher = CodePatch.restore_all os s'.patcher drained } in
      (replies, logged restored LogRing.LogLevel.info (codes "client disconnected"))
