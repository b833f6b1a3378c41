-- ===== src/Worker/Examples.antt =====
-- Runs of crates/glacier-007-dll/src/worker.rs over a flat address space, and its theorems there.
use openforge_aio.Prelude.{◌≤◌, ◌≡◌, refl, Bool, true, false, List, [], ◌∷◌, ◌++◌, length}
use openforge_aio.Memory.{Os, looks_readable}
use openforge_aio.Memory
use openforge_aio.Memory.Bytes.{slice}
use openforge_aio.Memory.Flat.{flat}
use openforge_aio.LogRing
use openforge_aio.Worker.{
  Request, hello, ping, disconnect, Response, welcome, pong, disconnect_ack, hello_required, bytes,
  freeze, Server, handle_read_bytes, handle_request, Incoming, eof, request, serve_client,
  connection,
}
use openforge_aio.Worker
use openforge_aio.Worker.Session.{
  sent_all, Served, serve_client-gate, serve_client-Served, connection-freezes,
}

abbrev os : Os
os = flat 0x10000 0x20000

abbrev nothing_else : Unit {0} → os.Mem → Unit {0} × os.Mem
nothing_else u m = (tt, m)

abbrev Client : Type 0
Client = List (Incoming os (Unit {0}) (Unit {0}) nothing_else × Bool)

abbrev idle : Server os (Unit {0}) (Unit {0}) nothing_else
idle = record {
  patcher = record { mem = λ x. 0x90; patches = [] };
  freezes = record { slots = []; next_handle = 1 };
  log = LogRing.new;
}

abbrev requests : List (Request os (Unit {0}) (Unit {0}) nothing_else)
requests = ping ∷ Worker.Request.read_bytes 0x12000 2 ∷ []

abbrev bye : Client
bye = (request disconnect, true) ∷ (request ping, true) ∷ []

abbrev impatient : Client
impatient = (request ping, true) ∷ (request (hello 6), true) ∷ []

serve_client-gate_example :
    ((serve_client os (Unit {0}) (Unit {0}) nothing_else false idle impatient).1.patcher
      ≡ idle.patcher)
    × ((serve_client os (Unit {0}) (Unit {0}) nothing_else false idle impatient).1.freezes
        ≡ idle.freezes)
    × (length (serve_client os (Unit {0}) (Unit {0}) nothing_else false idle impatient).0 ≤ 1)
serve_client-gate_example =
    serve_client-gate os (Unit {0}) (Unit {0}) nothing_else idle impatient refl

serve_client-Served_example :
    Served os
      (Unit {0})
      (Unit {0})
      nothing_else
      idle
      (sent_all os (Unit {0}) (Unit {0}) nothing_else requests ++ bye)
      (serve_client os
        (Unit {0})
        (Unit {0})
        nothing_else
        true
        idle
        (sent_all os (Unit {0}) (Unit {0}) nothing_else requests ++ bye))
serve_client-Served_example =
    serve_client-Served os (Unit {0}) (Unit {0}) nothing_else idle
      (sent_all os (Unit {0}) (Unit {0}) nothing_else requests ++ bye)

connection-freezes_example :
    (connection os
      (Unit {0})
      (Unit {0})
      nothing_else
      idle
      ((request (hello 6), true) ∷ bye)
      []).1.freezes
    ≡ idle.freezes
connection-freezes_example =
    connection-freezes os (Unit {0}) (Unit {0}) nothing_else idle ((request (hello 6), true) ∷ bye)
      [] (refl, (refl, (refl, tt)))

serves_in_order :
    (connection os
      (Unit {0})
      (Unit {0})
      nothing_else
      idle
      ((request (hello 6), true) ∷ (sent_all os (Unit {0}) (Unit {0}) nothing_else requests ++ bye))
      []).0
    ≡ welcome ∷ pong ∷ bytes (0x90 ∷ 0x90 ∷ []) ∷ disconnect_ack ∷ []
unfolding connection serve_client handle_request handle_read_bytes Memory.read_bytes looks_readable
    slice
serves_in_order = refl

asks_for_hello :
    (connection os (Unit {0}) (Unit {0}) nothing_else idle impatient []).0 ≡ hello_required ∷ []
unfolding connection serve_client
asks_for_hello = refl
