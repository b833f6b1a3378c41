-- ===== src/Worker/Session.antt =====
-- What a client can have the DLL do over crates/glacier-007-dll/src/worker.rs.
use openforge_aio.Prelude.{
  ℕ, ◌≤◌, ◌≡◌, refl, ap, ◌∙◌, Bool, true, false, List, [], ◌∷◌, ◌++◌, length, ltb, ◌==◌, arith, All,
  if-lem, ◌%◌, ◌^◌,
}
use openforge_aio.Prelude.Result.{Result, ok, err}
use openforge_aio.Memory
use openforge_aio.Frame.{max_frame_bytes}
use openforge_aio.Memory.{Os, ReadError}
use openforge_aio.Worker.{
  protocol_version, Request, hello, ping, disconnect, Response, decode_error, framing_error, Server,
  read_reply, handle_read_bytes, write_reply, handle_write_bytes, handle_request, Incoming, eof,
  undecodable, framing, io, request, is_disconnect, replied, logged, serve_client, connection,
}
use openforge_aio.Worker
use openforge_aio.LogRing
use openforge_aio.Prelude.Text.{codes}

module _ (os : Os) (Other Answer : Type 0) (serve_other : Other → os.Mem → Answer × os.Mem) where
  -- The first frame is a `Hello` of the DLL's version.
  abbrev pub opens : List (Incoming os Other Answer serve_other × Bool) → Bool
  opens ((request (hello v), written) ∷ es) = v == protocol_version
  opens es = false

  -- A client whose first frame is not a `Hello` of the DLL's version gets one answer at most, and
  -- the memory, the patches and the freezes are as before.
  pub serve_client-gate :
      (s : Server os Other Answer serve_other)
      (es : List (Incoming os Other Answer serve_other × Bool))
      → opens es ≡ false
      → ((serve_client os Other Answer serve_other false s es).1.patcher ≡ s.patcher)
        × ((serve_client os Other Answer serve_other false s es).1.freezes ≡ s.freezes)
        × (length (serve_client os Other Answer serve_other false s es).0 ≤ 1)
  unfolding serve_client
  serve_client-gate s [] h = (refl, refl, omega arith)
  serve_client-gate s ((eof, written) ∷ es) h = (refl, refl, omega arith)
  serve_client-gate s ((undecodable, written) ∷ es) h = (refl, refl, omega arith)
  serve_client-gate s ((framing, written) ∷ es) h = (refl, refl, omega arith)
  serve_client-gate s ((io text, written) ∷ es) h = (refl, refl, omega arith)
  serve_client-gate s ((request (hello v), written) ∷ es) h = rw h (refl, refl, omega arith)
  serve_client-gate s ((request r, written) ∷ es) h = (refl, refl, omega arith)

  -- Requests as they come in, each with its answer written.
  abbrev pub sent_all :
      List (Request os Other Answer serve_other)
      → List (Incoming os Other Answer serve_other × Bool)
  sent_all [] = []
  sent_all (r ∷ rs) = (request r, true) ∷ sent_all rs

  -- The server behind a list of requests, and their answers.
  abbrev pub after :
      Server os Other Answer serve_other
      → List (Request os Other Answer serve_other)
      → Server os Other Answer serve_other
  after s [] = s
  after s (r ∷ rs) = after (handle_request os Other Answer serve_other s r).1 rs

  abbrev pub answers :
      Server os Other Answer serve_other
      → List (Request os Other Answer serve_other)
      → List (Response os Other Answer serve_other)
  answers s [] = []
  answers s (r ∷ rs) =
      let (reply, s') = handle_request os Other Answer serve_other s r in reply ∷ answers s' rs

  abbrev pub stays : Request os Other Answer serve_other → Bool
  stays disconnect = false
  stays _ = true

  read_stays :
      (addr : ℕ) (r : Result ReadError (List ℕ))
      → is_disconnect os Other Answer serve_other (read_reply os Other Answer serve_other addr r)
        ≡ false
  read_stays addr (ok b) = refl
  read_stays addr (err e) = refl

  write_stays :
      (addr : ℕ) (r : Result ReadError (Unit {0}))
      → is_disconnect os Other Answer serve_other (write_reply os Other Answer serve_other addr r)
        ≡ false
  write_stays addr (ok b) = refl
  write_stays addr (err e) = refl

  read_bytes_stays :
      (m : os.Mem) (addr len : ℕ)
      → is_disconnect os Other Answer serve_other
          (handle_read_bytes os Other Answer serve_other m addr len)
        ≡ false
  unfolding handle_read_bytes
  read_bytes_stays m addr len =
      let P : Response os Other Answer serve_other → Type 0 =
        λ r. is_disconnect os Other Answer serve_other r ≡ false in
      if-lem P (len == 0) _ _ (λ e. refl)
        (λ e.
          if-lem P (ltb max_frame_bytes len) _ _ (λ e'. refl)
            (λ e'. read_stays addr (Memory.read_bytes os m addr len)))

  write_bytes_stays :
      (m : os.Mem) (addr : ℕ) (bs : List ℕ)
      → is_disconnect os Other Answer serve_other
          (handle_write_bytes os Other Answer serve_other m addr bs).0
        ≡ false
  unfolding handle_write_bytes
  write_bytes_stays m addr bs =
      let P : Response os Other Answer serve_other × os.Mem → Type 0 =
        λ r. is_disconnect os Other Answer serve_other r.0 ≡ false in
      if-lem P (length bs == 0) _ _ (λ e. refl)
        (λ e.
          if-lem P (ltb max_frame_bytes (length bs % 2 ^ 32)) _ _ (λ e'. refl)
            (λ e'. write_stays addr (Memory.write_bytes os m addr bs).0))

  reply_stays :
      (s : Server os Other Answer serve_other) (r : Request os Other Answer serve_other)
      → stays r ≡ true
      → is_disconnect os Other Answer serve_other (handle_request os Other Answer serve_other s r).0
        ≡ false
  unfolding handle_request
  reply_stays s disconnect h = cc h
  reply_stays s (Worker.Request.read_bytes addr len) h = read_bytes_stays s.patcher.mem addr len
  reply_stays s (Worker.Request.write_bytes addr bs) h = write_bytes_stays s.patcher.mem addr bs
  reply_stays s _ h = refl

  -- What ends the service: the end of the stream, a frame that is no request, a `Disconnect`, or an
  -- answer that cannot be written.
  abbrev pub Ends : List (Incoming os Other Answer serve_other × Bool) → Type 0
  Ends [] = Unit
  Ends ((request disconnect, written) ∷ es) = Unit
  Ends ((request r, false) ∷ es) = Unit
  Ends ((request r, true) ∷ es) = ⊥
  Ends (e ∷ es) = Unit

  -- The last answer, for the event that ends the service, and the server behind it.
  abbrev pub last_answer :
      Server os Other Answer serve_other
      → List (Incoming os Other Answer serve_other × Bool)
      → List (Response os Other Answer serve_other)
  last_answer s [] = []
  last_answer s ((eof, written) ∷ es) = []
  last_answer s ((undecodable, written) ∷ es) = decode_error ∷ []
  last_answer s ((framing, written) ∷ es) = framing_error ∷ []
  last_answer s ((io text, written) ∷ es) = []
  last_answer s ((request r, written) ∷ es) =
      (handle_request os Other Answer serve_other s r).0 ∷ []

  abbrev pub last_server :
      Server os Other Answer serve_other
      → List (Incoming os Other Answer serve_other × Bool)
      → Server os Other Answer serve_other
  last_server s ((request r, written) ∷ es) = (handle_request os Other Answer serve_other s r).1
  last_server s ((io text, written) ∷ es) =
      logged os Other Answer serve_other s LogRing.LogLevel.warn (codes "pipe IO error: " ++ text)
  last_server s es = s

  -- The requests that are served in full, and the event that ends the service, with all that the
  -- client sends behind it.
  abbrev pub Served :
      Server os Other Answer serve_other
      → List (Incoming os Other Answer serve_other × Bool)
      → List (Response os Other Answer serve_other) × Server os Other Answer serve_other
      → Type 0
  Served s es out =
      (rs : List (Request os Other Answer serve_other)) × (end : List
        (Incoming os Other Answer serve_other × Bool))
      × (es ≡ sent_all rs ++ end)
      × All (λ r. stays r ≡ true) rs
      × Ends end
      × (out.0 ≡ answers s rs ++ last_answer (after s rs) end)
      × (out.1 ≡ last_server (after s rs) end)

  Served-cons :
      (s : Server os Other Answer serve_other) (r : Request os Other Answer serve_other)
      (es : List (Incoming os Other Answer serve_other × Bool))
      → stays r ≡ true
      → Served (handle_request os Other Answer serve_other s r).1 es (
          serve_client os Other Answer serve_other true
            (handle_request os Other Answer serve_other s r).1
            es)
      → Served s
          ((request r, true) ∷ es)
          (serve_client os Other Answer serve_other true s ((request r, true) ∷ es))
  unfolding serve_client
  Served-cons s r es h (rs, end, split, all, ends, replies, left) = rw (reply_stays s r h) (
    r ∷ rs,
    end,
    ap (λ l. (request r, true) ∷ l) split,
    (h, all),
    ends,
    ap (λ l. (handle_request os Other Answer serve_other s r).0 ∷ l) replies,
    left,
  )

  -- After the handshake the client's frames are served in order, each on the state that the ones
  -- before it left and with exactly one answer, up to the first that ends the service: a
  -- `Disconnect`, a frame that is no request, or a request whose answer cannot be written. That one
  -- is acknowledged, refused or served itself, and nothing behind it is looked at.
  pub serve_client-Served :
      (s : Server os Other Answer serve_other)
      (es : List (Incoming os Other Answer serve_other × Bool))
      → Served s es (serve_client os Other Answer serve_other true s es)
  unfolding serve_client handle_request
  serve_client-Served s [] = ([], [], refl, tt, tt, refl, refl)
  serve_client-Served s ((eof, written) ∷ es) = ([], (eof, written) ∷ es, refl, tt, tt, refl, refl)
  serve_client-Served s ((undecodable, written) ∷ es) =
      ([], (undecodable, written) ∷ es, refl, tt, tt, refl, refl)
  serve_client-Served s ((framing, written) ∷ es) =
      ([], (framing, written) ∷ es, refl, tt, tt, refl, refl)
  serve_client-Served s ((io text, written) ∷ es) =
      ([], (io text, written) ∷ es, refl, tt, tt, refl, refl)
  serve_client-Served s ((request disconnect, true) ∷ es) =
      ([], (request disconnect, true) ∷ es, refl, tt, tt, refl, refl)
  serve_client-Served s ((request disconnect, false) ∷ es) =
      ([], (request disconnect, false) ∷ es, refl, tt, tt, refl, refl)
  serve_client-Served s ((request r, false) ∷ es) =
      ([], (request r, false) ∷ es, refl, tt, tt, refl, refl)
  serve_client-Served s ((request r, true) ∷ es) =
      Served-cons s r es refl
        (serve_client-Served (handle_request os Other Answer serve_other s r).1 es)

  -- A request that starts or stops no freeze.
  abbrev pub keeps_freezes : Request os Other Answer serve_other → Bool
  keeps_freezes (Worker.Request.start_freeze a b c d e f g) = false
  keeps_freezes (Worker.Request.stop_freeze handle) = false
  keeps_freezes _ = true

  abbrev pub KeepsFreezes : Incoming os Other Answer serve_other × Bool → Type 0
  KeepsFreezes (request r, written) = keeps_freezes r ≡ true
  KeepsFreezes e = Unit {0}

  handle_request-freezes :
      (s : Server os Other Answer serve_other) (r : Request os Other Answer serve_other)
      → keeps_freezes r ≡ true
      → (handle_request os Other Answer serve_other s r).1.freezes ≡ s.freezes
  unfolding handle_request
  handle_request-freezes s (Worker.Request.start_freeze a b c d e f g) h = cc h
  handle_request-freezes s (Worker.Request.stop_freeze handle) h = cc h
  handle_request-freezes s _ h = refl

  serve_client-freezes :
      (shaken : Bool) (s : Server os Other Answer serve_other)
      (es : List (Incoming os Other Answer serve_other × Bool))
      → All KeepsFreezes es
      → (serve_client os Other Answer serve_other shaken s es).1.freezes ≡ s.freezes
  unfolding serve_client
  serve_client-freezes shaken s [] h = refl
  serve_client-freezes shaken s ((eof, written) ∷ es) h = refl
  serve_client-freezes shaken s ((undecodable, written) ∷ es) h = refl
  serve_client-freezes shaken s ((framing, written) ∷ es) h = refl
  serve_client-freezes shaken s ((io text, written) ∷ es) h = refl
  serve_client-freezes false s ((request (hello v), written) ∷ es) h =
      let P : List (Response os Other Answer serve_other) × Server os Other Answer serve_other
          → Type 0 =
        λ r. r.1.freezes ≡ s.freezes in
      if-lem P (v == protocol_version) _ _
        (λ e. if-lem P written _ _ (λ e'. serve_client-freezes true s es h.1) (λ e'. refl))
        (λ e. refl)
  serve_client-freezes false s ((request r, written) ∷ es) h = refl
  serve_client-freezes true s ((request r, written) ∷ es) h =
      let P : List (Response os Other Answer serve_other) × Server os Other Answer serve_other
          → Type 0 =
        λ r. r.1.freezes ≡ s.freezes in
      let now = handle_request-freezes s r h.0 in
      let s' = (handle_request os Other Answer serve_other s r).1 in
      if-lem P written _ _
        (λ e.
          if-lem P
            (is_disconnect os Other Answer serve_other
              (handle_request os Other Answer serve_other s r).0)
            _ _ (λ e'. now) (λ e'. serve_client-freezes true s' es h.1 ∙ now))
        (λ e. now)

  -- A connection in which no request starts or stops a freeze leaves the freezes as they were,
  -- however it ends: a disconnect stops none of them.
  pub connection-freezes :
      (s : Server os Other Answer serve_other)
      (es : List (Incoming os Other Answer serve_other × Bool)) (drained : List (ℕ × List ℕ))
      → All KeepsFreezes es
      → (connection os Other Answer serve_other s es drained).1.freezes ≡ s.freezes
  unfolding connection
  connection-freezes s es drained h =
      serve_client-freezes false
        (logged os Other Answer serve_other s LogRing.LogLevel.info (codes "client connected")) es h
