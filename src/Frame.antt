-- ===== src/Frame.antt =====
-- crates/glacier-protocol/src/lib.rs: the length prefix of the frames on the pipe. The codec of a
-- message's body, crate postcard, is not modelled: a frame is made of the bytes of a body.
use openforge_aio.Prelude.{
  ℕ, ◌*◌, ◌^◌, ◌%◌, ◌≤◌, ◌<◌, ◌≡◌, refl, false, List, ◌++◌, length, ltb, ◌==◌, if◌then◌else◌, arith,
}
use openforge_aio.Prelude.Result.{Result, ok, err}
use openforge_aio.Prelude.Bytes.{to_le, from_le, from_le-to_le}

abbrev pub max_frame_bytes : ℕ
max_frame_bytes = 256 * 1024 * 1024

pub data FrameError : Type 0 where
  oversize : ℕ → ℕ → FrameError
  empty : ℕ → FrameError

-- `encode_framed` behind the codec: the prefix is the length as a `u32`.
unfoldable pub encode_framed : List ℕ → List ℕ
encode_framed body = to_le 4 (length body % 2 ^ 32) ++ body

unfoldable pub parse_len_prefix : List ℕ → Result FrameError ℕ
parse_len_prefix prefix =
    let len = from_le prefix in
    if len == 0
    then err (empty 0)
    else if ltb max_frame_bytes len
    then err (oversize len max_frame_bytes)
    else ok len

-- The prefix of a body that is not empty and within the limit gives its length back.
pub parse_len_prefix_ok :
    (body : List ℕ)
    → 0 < length body
    → length body ≤ max_frame_bytes
    → parse_len_prefix (to_le 4 (length body % 2 ^ 32)) ≡ ok (length body)
unfolding parse_len_prefix
parse_len_prefix_ok body some_bytes small =
    let fits : length body % 2 ^ 32 ≡ length body = omega arith in
    let back : from_le (to_le 4 (length body)) ≡ length body =
      from_le-to_le 4 (length body) (omega arith) in
    let filled : (length body == 0) ≡ false = ground arith in
    let within : ltb max_frame_bytes (length body) ≡ false = ground arith in
    rw (fits, back, filled, within) refl
