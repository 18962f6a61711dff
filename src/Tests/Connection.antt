-- ===== src/Tests/Connection.antt =====
-- A connection whose world is the list of what was written.
use roosterwake.Prelude.{ℕ, ◌+◌, true, false, List, some, [], ◌∷◌, arith, take}
use roosterwake.Prelude.Bytes.{Bytes}
use roosterwake.Ws.Connection.{open_state, no_fail, cached, Conn, Stack, Link, Callbacks}
use roosterwake.Ws.Connection.Bounded.{Fits, Keeps}
use roosterwake.Ws.Receive.Reached.{happen, received, tick, here, then_came, Reached-Fits}
use roosterwake.Tests.Samples.{codes}

abbrev pub wire : Stack (List Bytes)
wire = record {
  rand = λ w. (7, w);
  now = λ w. 5;
  sndbuf = λ w. 4096;
  write = λ bytes w. (true, bytes ∷ w);
  output = λ w. (true, w);
  release = λ pcb w. w;
  new_pcb = λ tls host w. (some 1, w);
  dial = λ pcb port w. (true, w);
  lookup_host = λ host w. (cached, w);
  recved = λ pcb n w. w;
  sha1 = take 20;
  base64 = some;
}

abbrev pub unused : Conn
unused = record {
  state = open_state;
  fail = no_fail;
  close_code = 0;
  url = record { tls = true; host = codes "relay.example"; port = 443; path = codes "/v1" };
  pcb = some 1;
  key_b64 = [];
  accept_b64 = [];
  rx = [];
  msg = [];
  msg_active = false;
  last_rx = 0;
  deadline = 0;
}

pub unused-Fits : Fits unused
unused-Fits = record { rx = omega arith; msg = omega arith }

-- An application that counts its messages
abbrev counter : Callbacks ℕ (List Bytes)
counter = record {
  on_open = λ l. l;
  on_text = λ l text. record l { ctx = l.ctx + 1 };
  on_binary = λ l bytes. (true, l);
  on_close = λ l why code. l;
}

counter-Keeps : Keeps counter
counter-Keeps = record {
  open_kept = λ l f. f;
  text_kept = λ l text f. f;
  binary_kept = λ l bytes f. f;
  close_kept = λ l why code f. f;
}

abbrev counting : Link ℕ (List Bytes)
counting = record { ws = unused; ctx = 0; world = [] }

-- The first half of a message in two fragments
abbrev half : Bytes
half = 1 ∷ 2 ∷ b'h' ∷ b'i' ∷ []

Reached-Fits_example :
    Fits (happen wire counter tick (happen wire counter (received 1 (some half) true) counting)).ws
Reached-Fits_example =
    Reached-Fits wire counter counter-Keeps
      (then_came (then_came here (received 1 (some half) true)) tick) unused-Fits
