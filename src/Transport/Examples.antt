-- ===== src/Transport/Examples.antt =====
-- Runs of crates/host-common/src/transport.rs on a pipe that moves a few bytes at a time, and its
-- theorems there.
use openforge_aio.Prelude.{
  ℕ, ◌<◌, ◌≡◌, refl, sym, ap, ◌∙◌, List, [], ◌∷◌, ◌++◌, length, take, drop, min, length-take,
  take-append-drop, arith,
}
use openforge_aio.Prelude.Result.{Result, ok, err}
use openforge_aio.Frame.{encode_framed, parse_len_prefix}
use openforge_aio.Transport.{
  Win32, Win32Laws, write_all, write_loop, read_exact, read_loop, recv_frame, send_frame,
  frame_oversize,
}
use openforge_aio.Transport.Fuel.{write_loop_fuel, read_loop_fuel}
use openforge_aio.Transport.Bytes.{
  Sent, write_all_lem, Delivers, read_exact_lem, recv_frame-encode_framed,
}

-- The bytes to come, and the bytes sent; a call moves `k` bytes at most.
abbrev slow : ℕ → Win32
slow k = record {
  Pipe = List ℕ × List ℕ;
  write_file = λ p buf. (ok (min k (length buf)), (p.0, p.1 ++ take (min k (length buf)) buf));
  read_file = λ p n. (ok (take (min k n) p.0), (drop (min k n) p.0, p.1));
  sent = λ p. p.1;
  incoming = λ p. p.0;
}

slow-Win32Laws : (k : ℕ) → Win32Laws (slow k)
slow-Win32Laws k = record {
  write_ok = λ p buf n e.
      let same : min k (length buf) ≡ n = ground (arith, e) in
      (omega arith, ap (λ i. p.1 ++ take i buf) same);
  write_err = λ p buf code e. ground (arith, e);
  read_ok = λ p n bs e.
      let same : take (min k n) p.0 ≡ bs = ground (arith, e) in
      (
        omega (arith, ap length same, length-take (min k n) p.0),
        sym (take-append-drop (min k n) p.0) ∙ ap (λ xs. xs ++ drop (min k n) p.0) same,
      );
  write_incoming = λ p buf. refl;
}

slow-Delivers : (k : ℕ) → 0 < k → Delivers (slow k) (slow-Win32Laws k)
slow-Delivers k h p n some_bytes there =
    (take (min k n) p.0, refl, omega (arith, length-take (min k n) p.0))

abbrev echo : List ℕ → Result (Unit {0}) (List ℕ)
echo body = ok body

write_all_lem_example :
    Sent
      (slow 2)
      (slow-Win32Laws 2)
      ([], [])
      (1 ∷ 2 ∷ 3 ∷ [])
      (write_all (slow 2) ([], []) (1 ∷ 2 ∷ 3 ∷ []))
write_all_lem_example = write_all_lem (slow 2) (slow-Win32Laws 2) ([], []) (1 ∷ 2 ∷ 3 ∷ [])

write_loop_fuel_example :
    write_loop (slow 2) 3 ([], []) (1 ∷ 2 ∷ 3 ∷ [])
    ≡ write_loop (slow 2) 9 ([], []) (1 ∷ 2 ∷ 3 ∷ [])
write_loop_fuel_example =
    write_loop_fuel (slow 2) 3 9 ([], []) (1 ∷ 2 ∷ 3 ∷ []) (omega arith) (omega arith)

read_loop_fuel_example :
    read_loop (slow 2) 3 (1 ∷ 2 ∷ 3 ∷ [], []) 3 [] ≡ read_loop (slow 2) 9 (1 ∷ 2 ∷ 3 ∷ [], []) 3 []
read_loop_fuel_example =
    read_loop_fuel (slow 2) 3 9 (1 ∷ 2 ∷ 3 ∷ [], []) 3 [] (omega arith) (omega arith)

read_exact_lem_example :
    ((read_exact (slow 2) (1 ∷ 2 ∷ 3 ∷ 4 ∷ [], []) 3).0 ≡ ok (1 ∷ 2 ∷ 3 ∷ []))
    × ((read_exact (slow 2) (1 ∷ 2 ∷ 3 ∷ 4 ∷ [], []) 3).1.0 ≡ 4 ∷ [])
read_exact_lem_example =
    read_exact_lem (slow 2) (slow-Win32Laws 2) (1 ∷ 2 ∷ 3 ∷ 4 ∷ [], []) 3
      (slow-Delivers 2 (omega arith)) (omega arith)

recv_frame-encode_framed_example :
    ((recv_frame (slow 3) echo (encode_framed (7 ∷ 8 ∷ 9 ∷ []) ++ 5 ∷ [], [])).0
      ≡ ok (7 ∷ 8 ∷ 9 ∷ []))
    × ((recv_frame (slow 3) echo (encode_framed (7 ∷ 8 ∷ 9 ∷ []) ++ 5 ∷ [], [])).1.0 ≡ 5 ∷ [])
recv_frame-encode_framed_example =
    recv_frame-encode_framed (slow 3) (slow-Win32Laws 3) echo
      (encode_framed (7 ∷ 8 ∷ 9 ∷ []) ++ 5 ∷ [], []) (7 ∷ 8 ∷ 9 ∷ []) (5 ∷ [])
      (slow-Delivers 3 (omega arith)) (omega arith) (omega arith) refl

-- A frame of 2^28 + 1 bytes is refused by its prefix.
refuses_oversize :
    (recv_frame (slow 3) echo (1 ∷ 0 ∷ 0 ∷ 16 ∷ [], [])).0
    ≡ err (frame_oversize 268435457 268435456)
unfolding recv_frame read_exact read_loop parse_len_prefix
refuses_oversize = refl

sends_and_receives :
    send_frame (slow 3) echo (1 ∷ 0 ∷ 0 ∷ 0 ∷ 42 ∷ [], []) (7 ∷ 8 ∷ [])
    ≡ (ok (42 ∷ []), ([], 2 ∷ 0 ∷ 0 ∷ 0 ∷ 7 ∷ 8 ∷ []))
unfolding send_frame recv_frame read_exact read_loop parse_len_prefix write_all write_loop
    encode_framed
sends_and_receives = refl
