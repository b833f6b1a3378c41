-- ===== src/Transport/Bytes.antt =====
-- What crates/host-common/src/transport.rs moves through the pipe.
use openforge_aio.Prelude.{
  ℕ, zero, suc, ◌+◌, ◌-◌, ◌^◌, ◌%◌, ◌≤◌, ◌<◌, ◌≡◌, refl, sym, ap, ◌∙◌, false, List, [], ◌∷◌, ◌++◌,
  append-nil, append_assoc, length, take, drop, length-append, take-append-drop, ◌==◌, arith,
  Bool-cases, inl, inr, ◌⊎◌,
}
use openforge_aio.Prelude.Result.{Result, ok, err, Result-cases}
use openforge_aio.Prelude.Bytes.{to_le, length-to_le}
use openforge_aio.Frame.{max_frame_bytes, encode_framed, parse_len_prefix_ok}
use openforge_aio.Transport.{
  Win32, Win32Laws, HostCommonError, disconnected, write_error, write_loop, write_all, read_loop,
  read_exact, decoded, recv_frame,
}

take-take-drop :
    {A : Type 0} (m n : ℕ) (xs : List A) → take m xs ++ take n (drop m xs) ≡ take (m + n) xs
take-take-drop zero n xs = let e : zero + n ≡ n = omega arith in rw e refl
take-take-drop (suc m) zero [] = let e : suc m + 0 ≡ suc m = omega arith in rw e refl
take-take-drop (suc m) (suc n) [] =
    let e : suc m + suc n ≡ suc (m + suc n) = omega arith in rw e refl
take-take-drop (suc m) n (x ∷ xs) =
    let e : suc m + n ≡ suc (m + n) = omega arith in
    rw e (ap (λ ys. x ∷ ys) (take-take-drop m n xs))

module _ (w : Win32) (laws : Win32Laws w) where
  -- The whole buffer was sent, or an error is reported behind a first part of it.
  unfoldable pub Sent : w.Pipe → List ℕ → Result HostCommonError (Unit {0}) × w.Pipe → Type 0
  Sent p buf r =
      ((r.0 ≡ ok tt) × (w.sent r.1 ≡ w.sent p ++ buf))
      ⊎ ((e : HostCommonError) × (n : ℕ) × (r.0 ≡ err e) × (w.sent r.1 ≡ w.sent p ++ take n buf))

  write_loop_lem : (fuel : ℕ) (p : w.Pipe) (buf : List ℕ) → Sent p buf (write_loop w fuel p buf)
  unfolding write_loop Sent
  write_loop_lem fuel p [] = inl (refl, sym (append-nil (w.sent p)))
  write_loop_lem zero p (b ∷ bs) = inr (disconnected, 0, refl, sym (append-nil (w.sent p)))
  write_loop_lem (suc fuel) p (b ∷ bs) =
      let p' = (w.write_file p (b ∷ bs)).1 in
      elim (Result-cases (w.write_file p (b ∷ bs)).0) [
        | inr (code, e) ↦ rw e (
            inr (
              write_error w code,
              0,
              refl,
              laws.write_err p (b ∷ bs) code e ∙ sym (append-nil (w.sent p)),
            ))
        | inl (n, e) ↦
            let (_, put) = laws.write_ok p (b ∷ bs) n e in
            elim (Bool-cases (n == 0)) [
              | inl stuck ↦ rw (e, stuck) (inr (disconnected, n, refl, put))
              | inr some_bytes ↦
                  rw (e, some_bytes)
                    (elim (write_loop_lem fuel p' (drop n (b ∷ bs))) [
                      | inl (fine, all) ↦ inl (
                        fine,
                        all
                            ∙ ap (λ xs. xs ++ drop n (b ∷ bs)) put
                            ∙ append_assoc (w.sent p) (take n (b ∷ bs)) (drop n (b ∷ bs))
                            ∙ ap (λ xs. w.sent p ++ xs) (take-append-drop n (b ∷ bs)),
                      )
                      | inr (er, k, failed, part) ↦ inr (
                        er,
                        n + k,
                        failed,
                        part
                            ∙ ap (λ xs. xs ++ take k (drop n (b ∷ bs))) put
                            ∙ append_assoc (w.sent p) (take n (b ∷ bs)) (take k (drop n (b ∷ bs)))
                            ∙ ap (λ xs. w.sent p ++ xs) (take-take-drop n k (b ∷ bs)),
                      )
                    ])
            ]
      ]

  -- A write that reports success sent exactly the buffer, behind what was sent before; one that
  -- reports an error sent a first part of it.
  pub write_all_lem : (p : w.Pipe) (buf : List ℕ) → Sent p buf (write_all w p buf)
  unfolding write_all
  write_all_lem p buf = write_loop_lem (length buf) p buf

  -- ReadFile waits for data: while bytes are to come it gives at least one.
  abbrev pub Delivers : Type 0
  Delivers =
      (p : w.Pipe) (n : ℕ)
      → 0 < n
      → 0 < length (w.incoming p)
      → (bs : List ℕ) × ((w.read_file p n).0 ≡ ok bs) × (0 < length bs)

  take-front :
      (n : ℕ) (xs ys : List ℕ) → length xs ≤ n → take n (xs ++ ys) ≡ xs ++ take (n - length xs) ys
  take-front n [] ys h = let e : n - 0 ≡ n = omega arith in rw e refl
  take-front zero (x ∷ xs) ys h = elim h [ ]
  take-front (suc n) (x ∷ xs) ys h =
      let e : suc n - suc (length xs) ≡ n - length xs = omega arith in
      rw e (ap (λ zs. x ∷ zs) (take-front n xs ys (omega arith)))

  drop-front :
      (n : ℕ) (xs ys : List ℕ) → length xs ≤ n → drop n (xs ++ ys) ≡ drop (n - length xs) ys
  drop-front n [] ys h = let e : n - 0 ≡ n = omega arith in rw e refl
  drop-front zero (x ∷ xs) ys h = elim h [ ]
  drop-front (suc n) (x ∷ xs) ys h =
      let e : suc n - suc (length xs) ≡ n - length xs = omega arith in
      rw e (drop-front n xs ys (omega arith))

  read_loop_lem :
      (fuel : ℕ) (p : w.Pipe) (n : ℕ) (filled : List ℕ)
      → Delivers
      → n ≤ fuel
      → n ≤ length (w.incoming p)
      → ((read_loop w fuel p n filled).0 ≡ ok (filled ++ take n (w.incoming p)))
        × (w.incoming (read_loop w fuel p n filled).1 ≡ drop n (w.incoming p))
  unfolding read_loop
  read_loop_lem fuel p zero filled live enough there = (ap ok (sym (append-nil filled)), refl)
  read_loop_lem zero p (suc n) filled live enough there = elim enough [ ]
  read_loop_lem (suc fuel) p (suc n) filled live enough there =
      let p' = (w.read_file p (suc n)).1 in
      let (got, e, some_bytes) = live p (suc n) (omega arith) (omega arith) in
      let (short, split) = laws.read_ok p (suc n) got e in
      let filled_up : (length got == 0) ≡ false = ground arith in
      let sizes = length-append got (w.incoming p') in
      let left : suc n - length got ≤ length (w.incoming p') =
        omega (arith, ap length split, sizes) in
      let (read, kept) =
        read_loop_lem fuel p' (suc n - length got) (filled ++ got) live (omega arith) left in
      (
        rw (e, filled_up)
            (read
              ∙ ap ok (
                  append_assoc filled got (take (suc n - length got) (w.incoming p'))
                  ∙ ap (λ xs. filled ++ xs)
                      (sym (take-front (suc n) got (w.incoming p') short)
                        ∙ ap (take (suc n)) (sym split)))),
        rw (e, filled_up)
            (kept
              ∙ sym (drop-front (suc n) got (w.incoming p') short)
              ∙ ap (drop (suc n)) (sym split)),
      )

  -- On a pipe that delivers, an exact read whose bytes are to come takes just these, however
  -- ReadFile splits them.
  pub read_exact_lem :
      (p : w.Pipe) (n : ℕ)
      → Delivers
      → n ≤ length (w.incoming p)
      → ((read_exact w p n).0 ≡ ok (take n (w.incoming p)))
        × (w.incoming (read_exact w p n).1 ≡ drop n (w.incoming p))
  unfolding read_exact
  read_exact_lem p n live there = read_loop_lem n p n [] live (omega arith) there

  take-all : (xs ys : List ℕ) → take (length xs) (xs ++ ys) ≡ xs
  take-all [] ys = refl
  take-all (x ∷ xs) ys = ap (λ zs. x ∷ zs) (take-all xs ys)

  drop-all : (xs ys : List ℕ) → drop (length xs) (xs ++ ys) ≡ ys
  drop-all [] ys = refl
  drop-all (x ∷ xs) ys = drop-all xs ys

  -- On a pipe that delivers, a frame of 1 to 2^28 bytes that was framed by `encode_framed` is
  -- received as what its body decodes to, and what comes behind it is still to be read.
  pub recv_frame-encode_framed :
      {Answer : Type 0} (decode : List ℕ → Result (Unit {0}) Answer) (p : w.Pipe)
      (body rest : List ℕ)
      → Delivers
      → 0 < length body
      → length body ≤ max_frame_bytes
      → w.incoming p ≡ encode_framed body ++ rest
      → ((recv_frame w decode p).0 ≡ decoded w decode (decode body))
        × (w.incoming (recv_frame w decode p).1 ≡ rest)
  unfolding recv_frame encode_framed
  recv_frame-encode_framed decode p body rest live some_bytes small coming =
      let prefix : List ℕ = to_le 4 (length body % 2 ^ 32) in
      let four : length prefix ≡ 4 = length-to_le 4 (length body % 2 ^ 32) in
      let split : w.incoming p ≡ prefix ++ (body ++ rest) =
        coming ∙ append_assoc prefix body rest in
      let sizes = length-append prefix (body ++ rest) in
      let sizes' = length-append body rest in
      let (head, behind) = read_exact_lem p 4 live (omega (arith, ap length split, sizes, four)) in
      let p' = (read_exact w p 4).1 in
      let got : (read_exact w p 4).0 ≡ ok prefix =
        head ∙ ap (λ xs. ok (take 4 xs)) split ∙ ap ok (take-all prefix (body ++ rest)) in
      let left : w.incoming p' ≡ body ++ rest =
        behind ∙ ap (drop 4) split ∙ drop-all prefix (body ++ rest) in
      let len = parse_len_prefix_ok body some_bytes small in
      let (tail, last) =
        read_exact_lem p' (length body) live (omega (arith, ap length left, sizes')) in
      let got_body : (read_exact w p' (length body)).0 ≡ ok body =
        tail ∙ ap (λ xs. ok (take (length body) xs)) left ∙ ap ok (take-all body rest) in
      (
        rw (got, len, got_body) refl,
        rw (got, len, got_body) (last ∙ ap (drop (length body)) left ∙ drop-all body rest),
      )
