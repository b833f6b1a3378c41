-- ===== src/Memory.antt =====
-- crates/dll-common/src/local_reader.rs: reads and writes of the game's own address space through
-- ReadProcessMemory and WriteProcessMemory. The Win32 calls are the operations of `Os`, a
-- parameter of everything that uses them; `OsLaws` states what their documentation says of the
-- bytes of the address space.
pub mod Bytes
pub mod Flat
pub mod Laws
use openforge_aio.Prelude.{
  ℕ, ◌+◌, ◌^◌, ◌≤◌, ◌<◌, ◌≡◌, Bool, true, false, ◌&&◌, Option, none, some, List, [], ◌∷◌, length,
  ltb, leb, ◌==◌, if◌then◌else◌,
}
use openforge_aio.Prelude.Result.{Result, ok, err, ◌>>=◌}
use openforge_aio.Prelude.Bytes.{from_le}
use openforge_aio.Memory.Bytes.{overwrite, slice}

pub record Os : Type 1 where
  -- The address space and its page protections.
  pub Mem : Type 0
  -- ReadProcessMemory: FALSE, or the bytes that it copied.
  pub read : Mem → ℕ → ℕ → Option (List ℕ)
  -- WriteProcessMemory: FALSE, or the count of bytes written; and the memory behind the call.
  pub write : Mem → ℕ → List ℕ → Option ℕ × Mem
  -- VirtualProtect: FALSE, or the old protection.
  pub protect : Mem → ℕ → ℕ → ℕ → Option ℕ × Mem
  -- FlushInstructionCache
  pub flush : Mem → ℕ → ℕ → Mem
  -- The byte at an address.
  pub view : Mem → ℕ → ℕ

-- What the documentation of the calls says of the bytes: a read copies a part of them, a write
-- that succeeds stores all bytes and nothing else, one that fails stores nothing, and the other
-- calls store nothing.
pub record OsLaws (os : Os) : Type 0 where
  pub read_lem :
      (m : os.Mem) (addr len : ℕ) (bs : List ℕ)
      → os.read m addr len ≡ some bs
      → bs ≡ slice (os.view m) addr (length bs)
  pub write_some :
      (m : os.Mem) (addr : ℕ) (bs : List ℕ) (put : ℕ)
      → (os.write m addr bs).0 ≡ some put
      → (put ≡ length bs)
        × ((x : ℕ) → os.view (os.write m addr bs).1 x ≡ overwrite (os.view m) addr bs x)
  pub write_none :
      (m : os.Mem) (addr : ℕ) (bs : List ℕ)
      → (os.write m addr bs).0 ≡ none
      → (x : ℕ) → os.view (os.write m addr bs).1 x ≡ os.view m x
  pub protect_lem :
      (m : os.Mem) (addr len flags x : ℕ) → os.view (os.protect m addr len flags).1 x ≡ os.view m x
  pub flush_lem : (m : os.Mem) (addr len x : ℕ) → os.view (os.flush m addr len) x ≡ os.view m x

pub data ReadError : Type 0 where
  failed bad_pointer : ReadError

-- Not null, not the first pages, not the kernel half.
unfoldable pub looks_readable : ℕ → Bool
looks_readable addr = leb 0x10000 addr && ltb addr 0x8000_0000_0000

module _ (os : Os) where
  abbrev pub copied : ℕ → Option (List ℕ) → Result ReadError (List ℕ)
  copied len none = err failed
  copied len (some bs) = if length bs == len then ok bs else err failed

  unfoldable pub read_bytes : os.Mem → ℕ → ℕ → Result ReadError (List ℕ)
  read_bytes m addr len =
      if len == 0
      then ok []
      else if looks_readable addr
      then copied len (os.read m addr len)
      else err bad_pointer

  unfoldable pub read_u32 : os.Mem → ℕ → Result ReadError ℕ
  unfolding read_bytes
  read_u32 m addr = do b ← read_bytes m addr 4; ok (from_le b)

  unfoldable pub read_u64 : os.Mem → ℕ → Result ReadError ℕ
  unfolding read_bytes
  read_u64 m addr = do b ← read_bytes m addr 8; ok (from_le b)

  -- `usize` has 64 bits.
  unfoldable pub read_ptr : os.Mem → ℕ → Result ReadError ℕ
  unfolding read_u64
  read_ptr m addr = read_u64 m addr

  abbrev pub stored : ℕ → Option ℕ → Result ReadError (Unit {0})
  stored len none = err failed
  stored len (some put) = if put == len then ok tt else err failed

  unfoldable pub write_bytes : os.Mem → ℕ → List ℕ → Result ReadError (Unit {0}) × os.Mem
  write_bytes m addr src =
      if length src == 0
      then (ok tt, m)
      else if looks_readable addr
      then (let (put, m') = os.write m addr src in (stored (length src) put, m'))
      else (err bad_pointer, m)
