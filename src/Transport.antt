-- ===== src/Transport.antt =====
-- crates/host-common/src/transport.rs: the host's end of the pipe. ReadFile and WriteFile are the
-- operations of `Win32`, a parameter; `Win32Laws` states what their documentation says of the bytes
-- that a pipe in byte mode carries.
pub mod Fuel
pub mod Bytes
mod Examples
use openforge_aio.Prelude.{
  ℕ, zero, suc, ◌+◌, ◌-◌, ◌≤◌, ◌≡◌, Bool, true, false, ◌||◌, List, [], ◌∷◌, ◌++◌, length, take,
  drop, ◌==◌, if◌then◌else◌,
}
use openforge_aio.Prelude.Result.{Result, ok, err}
use openforge_aio.Frame.{FrameError, oversize, empty, encode_framed, parse_len_prefix}

pub record Win32 : Type 1 where
  pub Pipe : Type 0
  -- WriteFile: the count of bytes written, or the code of GetLastError.
  pub write_file : Pipe → List ℕ → Result ℕ ℕ × Pipe
  -- ReadFile of at most so many bytes: the bytes, or the code of GetLastError.
  pub read_file : Pipe → ℕ → Result ℕ (List ℕ) × Pipe
  -- The bytes written so far, and the bytes that are still to be read.
  pub sent : Pipe → List ℕ
  pub incoming : Pipe → List ℕ

pub record Win32Laws (w : Win32) : Type 0 where
  -- A write sends a first part of the buffer, and one that fails sends nothing.
  pub write_ok :
      (p : w.Pipe) (buf : List ℕ) (n : ℕ)
      → (w.write_file p buf).0 ≡ ok n
      → (n ≤ length buf) × (w.sent (w.write_file p buf).1 ≡ w.sent p ++ take n buf)
  pub write_err :
      (p : w.Pipe) (buf : List ℕ) (code : ℕ)
      → (w.write_file p buf).0 ≡ err code
      → w.sent (w.write_file p buf).1 ≡ w.sent p
  -- A read takes the next bytes, not more than asked for; a write takes none.
  pub read_ok :
      (p : w.Pipe) (n : ℕ) (bs : List ℕ)
      → (w.read_file p n).0 ≡ ok bs
      → (length bs ≤ n) × (w.incoming p ≡ bs ++ w.incoming (w.read_file p n).1)
  pub write_incoming :
      (p : w.Pipe) (buf : List ℕ) → w.incoming (w.write_file p buf).1 ≡ w.incoming p

-- `HostCommonError`, as far as this module raises it.
pub data HostCommonError : Type 0 where
  disconnected : HostCommonError
  win32_write win32_read : ℕ → HostCommonError
  frame_oversize : ℕ → ℕ → HostCommonError
  frame_empty : HostCommonError
  postcard : HostCommonError

abbrev pub error_broken_pipe : ℕ
error_broken_pipe = 109

abbrev pub error_no_data : ℕ
error_no_data = 232

module _ (w : Win32) where
  abbrev pub write_error : ℕ → HostCommonError
  write_error code =
      if code == error_broken_pipe || code == error_no_data then disconnected else win32_write code

  abbrev pub read_error : ℕ → HostCommonError
  read_error code = if code == error_broken_pipe then disconnected else win32_read code

  -- What follows a call of WriteFile.
  abbrev pub wrote :
      (ℕ → Result HostCommonError (Unit {0}) × w.Pipe)
      → w.Pipe
      → Result ℕ ℕ
      → Result HostCommonError (Unit {0}) × w.Pipe
  wrote next p (err code) = (err (write_error code), p)
  wrote next p (ok written) = if written == 0 then (err disconnected, p) else next written

  -- The loop of `write_all`; as many rounds as there are bytes are enough.
  unfoldable pub write_loop : ℕ → w.Pipe → List ℕ → Result HostCommonError (Unit {0}) × w.Pipe
  write_loop fuel p [] = (ok tt, p)
  write_loop zero p (b ∷ bs) = (err disconnected, p)
  write_loop (suc fuel) p (b ∷ bs) =
      let (res, p') = w.write_file p (b ∷ bs) in
      wrote (λ written. write_loop fuel p' (drop written (b ∷ bs))) p' res

  unfoldable pub write_all : w.Pipe → List ℕ → Result HostCommonError (Unit {0}) × w.Pipe
  unfolding write_loop
  write_all p buf = write_loop (length buf) p buf

  -- What follows a call of ReadFile.
  abbrev pub got_some :
      (List ℕ → Result HostCommonError (List ℕ) × w.Pipe)
      → w.Pipe
      → Result ℕ (List ℕ)
      → Result HostCommonError (List ℕ) × w.Pipe
  got_some next p (err code) = (err (read_error code), p)
  got_some next p (ok got) = if length got == 0 then (err disconnected, p) else next got

  -- The loop of `read_exact`, with the count of bytes that are missing; as many rounds are enough.
  unfoldable pub read_loop : ℕ → w.Pipe → ℕ → List ℕ → Result HostCommonError (List ℕ) × w.Pipe
  read_loop fuel p zero filled = (ok filled, p)
  read_loop zero p (suc n) filled = (err disconnected, p)
  read_loop (suc fuel) p (suc n) filled =
      let (res, p') = w.read_file p (suc n) in
      got_some (λ got. read_loop fuel p' (suc n - length got) (filled ++ got)) p' res

  unfoldable pub read_exact : w.Pipe → ℕ → Result HostCommonError (List ℕ) × w.Pipe
  unfolding read_loop
  read_exact p n = read_loop n p n []

  -- `parse_len` of `GlacierProtocol`, crates/glacier-host/src/client.rs.
  abbrev pub parse_len : Result FrameError ℕ → Result HostCommonError ℕ
  parse_len (ok len) = ok len
  parse_len (err (oversize got max)) = err (frame_oversize got max)
  parse_len (err (empty got)) = err frame_empty

  module _ {Answer : Type 0} (decode : List ℕ → Result (Unit {0}) Answer) where
    abbrev pub decoded : Result (Unit {0}) Answer → Result HostCommonError Answer
    decoded (ok a) = ok a
    decoded (err u) = err postcard

    abbrev pub body_read :
        Result HostCommonError (List ℕ) × w.Pipe → Result HostCommonError Answer × w.Pipe
    body_read (ok body, p) = (decoded (decode body), p)
    body_read (err e, p) = (err e, p)

    abbrev pub len_parsed :
        Result HostCommonError ℕ → w.Pipe → Result HostCommonError Answer × w.Pipe
    len_parsed (ok len) p = body_read (read_exact p len)
    len_parsed (err e) p = (err e, p)

    abbrev pub prefix_read :
        Result HostCommonError (List ℕ) × w.Pipe → Result HostCommonError Answer × w.Pipe
    prefix_read (ok prefix, p) = len_parsed (parse_len (parse_len_prefix prefix)) p
    prefix_read (err e, p) = (err e, p)

    -- Crate postcard decodes the body.
    unfoldable pub recv_frame : w.Pipe → Result HostCommonError Answer × w.Pipe
    recv_frame p = prefix_read (read_exact p 4)

    abbrev pub frame_sent :
        Result HostCommonError (Unit {0}) × w.Pipe → Result HostCommonError Answer × w.Pipe
    frame_sent (ok u, p) = recv_frame p
    frame_sent (err e, p) = (err e, p)

    -- `send_frame`, with the body that crate postcard encodes the request as.
    unfoldable pub send_frame : w.Pipe → List ℕ → Result HostCommonError Answer × w.Pipe
    send_frame p body = frame_sent (write_all p (encode_framed body))
