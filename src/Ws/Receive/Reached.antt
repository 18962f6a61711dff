-- ===== src/Ws/Receive/Reached.antt =====
-- Every connection that firmware/src/ws/ws.c reaches by what lwIP and the application do to it.
use roosterwake.Prelude.{ℕ, Bool, not, ◌&&◌, Option, none, some, ◌≡◌, refl, sym, subst, arith}
use roosterwake.Prelude.Options.{if_holds}
use roosterwake.Prelude.Bytes.{Bytes}
use roosterwake.Config.Token.{random_words}
use roosterwake.Net.Url.{Url, url_parse, plaintext_permitted}
use roosterwake.Ws.Handshake.{key_encode, compute_accept, build_request}
use roosterwake.Ws.Connection.{
  WsFail, connect, dns, local_fail, Lookup, cached, in_progress, refused, Stack, Link, Callbacks,
  ws_subprotocol, send_text, send_upgrade, teardown, abort, close, ws_task,
}
use roosterwake.Ws.Connection.Untouched.{tcp_write_all-Same, send_text-Same}
use roosterwake.Ws.Receive.{
  is_resolving, on_recv, on_connected, on_err, on_poll, start_connect, dns_done, connect_fresh,
  ws_connect,
}
use roosterwake.Ws.Connection.Bounded.{
  Fits, Keeps, LinkFits, ResultFits, teardown-Fits, close-Fits, ws_task-Fits,
}
use roosterwake.Ws.Receive.Bounded.{on_recv-Fits}

-- What happens to a connection: a callback of lwIP, or a call of the application.
pub data Happening : Type 0 where
  received : ℕ → Option Bytes → Bool → Happening
  connected polled : ℕ → Bool → Happening
  failed tick : Happening
  resolved : Bool → Happening
  dialled : Option Bytes → Happening
  said : Bytes → Happening
  closed_with : ℕ → Bytes → Happening
  aborted : WsFail → Happening

unfoldable pub happen : {C W : Type 0} → Stack W → Callbacks C W → Happening → Link C W → Link C W
happen net cb (received pcb p err_ok) l = (on_recv net cb pcb p err_ok l).1
happen net cb (connected pcb err_ok) l = (on_connected net cb pcb err_ok l).1
happen net cb (polled pcb err_ok) l = (on_poll net cb pcb l).1
happen net cb failed l = on_err net cb l
happen net cb tick l = ws_task net cb.on_close l
happen net cb (resolved found) l = dns_done net cb found l
happen net cb (dialled url) l = (ws_connect net cb l url).1
happen net cb (said text) l = (send_text net l text).1
happen net cb (closed_with code reason) l = close net cb.on_close l code reason
happen net cb (aborted why) l = abort net cb.on_close l why

-- The connections that are reached from `first`.
pub data Reached {C W : Type 0} (net : Stack W) (cb : Callbacks C W) (first : Link C W)
    : Link C W → Type 0 where
  here : Reached net cb first first
  then_came :
      {l : Link C W}
      → Reached net cb first l
      → (h : Happening) → Reached net cb first (happen net cb h l)

module _ {C W : Type 0} (net : Stack W) where
  send_upgrade-Fits : (l : Link C W) → Fits l.ws → Fits (send_upgrade net l).1.ws
  unfolding send_upgrade
  send_upgrade-Fits l f =
      by_request
        (build_request 512 l.ws.url.host l.ws.url.port l.ws.url.tls l.ws.url.path key_b64
          ws_subprotocol)
        refl
    where
      key_b64 : Bytes
      key_b64 = key_encode net.base64 (random_words net.rand 4 l.world).0

      keyed : Link C W
      keyed = record l {
        ws = record l.ws {
          key_b64 = key_b64;
          accept_b64 = compute_accept net.sha1 net.base64 key_b64;
        };
        world = (random_words net.rand 4 l.world).1;
      }

      g : Fits keyed.ws
      g = record { rx = f.rx; msg = f.msg }

      by_request :
          (r : Option Bytes)
          → build_request 512 l.ws.url.host l.ws.url.port l.ws.url.tls l.ws.url.path key_b64
              ws_subprotocol
            ≡ r
          → Fits (send_upgrade net l).1.ws
      by_request none e = rw (e, send_upgrade) g
      by_request (some r) e =
          rw (e, send_upgrade) (subst Fits (sym (tcp_write_all-Same net keyed r).0) g)

  module _ (cb : Callbacks C W) (keeps : Keeps cb) where
    down : (l : Link C W) (why : WsFail) (code : ℕ) → Fits (teardown net cb.on_close l why code).ws
    down = teardown-Fits net cb.on_close keeps.close_kept

    on_connected-Fits :
        (pcb : ℕ) (err_ok : Bool) (l : Link C W)
        → Fits l.ws
        → Fits (on_connected net cb pcb err_ok l).1.ws
    unfolding on_connected
    on_connected-Fits pcb err_ok l f = if_holds ResultFits (not err_ok) (down l connect 0) (
        if_holds LinkFits _ (send_upgrade-Fits _ (record { rx = f.rx; msg = f.msg }))
          (down _ local_fail 0))

    start_connect-Fits : (l : Link C W) → Fits l.ws → Fits (start_connect net cb l).1.ws
    unfolding start_connect
    start_connect-Fits l f = by_pcb (net.new_pcb l.ws.url.tls l.ws.url.host l.world).0 refl
      where
        by_pcb :
            (p : Option ℕ)
            → (net.new_pcb l.ws.url.tls l.ws.url.host l.world).0 ≡ p
            → Fits (start_connect net cb l).1.ws
        by_pcb none e = rw (e, start_connect) (record { rx = f.rx; msg = f.msg })
        by_pcb (some pcb) e =
            rw (e, start_connect)
              (if_holds ResultFits
                (not
                  (net.dial pcb l.ws.url.port (net.new_pcb l.ws.url.tls l.ws.url.host l.world).1).0)
                (down _ connect 0) (record { rx = f.rx; msg = f.msg }))

    dns_done-Fits : (found : Bool) (l : Link C W) → Fits l.ws → Fits (dns_done net cb found l).ws
    unfolding dns_done
    dns_done-Fits found l f = if_holds LinkFits (not (is_resolving l.ws.state)) f (
        if_holds LinkFits (not found) (keeps.close_kept _ dns 0 (record { rx = f.rx; msg = f.msg }))
          (start_connect-Fits l f))

    connect_fresh-Fits :
        (l : Link C W) (url : Option Bytes) → Fits (connect_fresh net cb l url).1.ws
    unfolding connect_fresh
    connect_fresh-Fits l url = by_url (url_parse url) refl
      where
        by_lookup :
            (u : Url)
            → url_parse url ≡ some u
            → (k : Lookup) → (net.lookup_host u.host l.world).0 ≡ k
            → Fits (connect_fresh net cb l url).1.ws
        by_lookup u e cached g =
            rw (e, connect_fresh, g)
              (if_holds ResultFits (not u.tls && not (plaintext_permitted (some u.host)))
                (record { rx = omega arith; msg = omega arith })
                (start_connect-Fits _ (record { rx = omega arith; msg = omega arith })))
        by_lookup u e in_progress g =
            rw (e, connect_fresh, g)
              (if_holds ResultFits (not u.tls && not (plaintext_permitted (some u.host)))
                (record { rx = omega arith; msg = omega arith })
                (record { rx = omega arith; msg = omega arith }))
        by_lookup u e refused g =
            rw (e, connect_fresh, g)
              (if_holds ResultFits (not u.tls && not (plaintext_permitted (some u.host)))
                (record { rx = omega arith; msg = omega arith })
                (record { rx = omega arith; msg = omega arith }))

        by_url : (u : Option Url) → url_parse url ≡ u → Fits (connect_fresh net cb l url).1.ws
        by_url none e = rw (e, connect_fresh) (record { rx = omega arith; msg = omega arith })
        by_url (some u) e = by_lookup u e (net.lookup_host u.host l.world).0 refl

    happen-Fits : (h : Happening) (l : Link C W) → Fits l.ws → Fits (happen net cb h l).ws
    unfolding happen on_poll on_err abort ws_connect
    happen-Fits (received pcb p err_ok) l f = on_recv-Fits net cb keeps pcb p err_ok l f
    happen-Fits (connected pcb err_ok) l f = on_connected-Fits pcb err_ok l f
    happen-Fits (polled pcb err_ok) l f = ws_task-Fits net cb.on_close keeps.close_kept l f
    happen-Fits failed l f = down _ _ 0
    happen-Fits tick l f = ws_task-Fits net cb.on_close keeps.close_kept l f
    happen-Fits (resolved found) l f = dns_done-Fits found l f
    happen-Fits (dialled url) l f = connect_fresh-Fits _ url
    happen-Fits (said text) l f = subst Fits (sym (send_text-Same net l text).0) f
    happen-Fits (closed_with code reason) l f =
        close-Fits net cb.on_close keeps.close_kept l code reason f
    happen-Fits (aborted why) l f = down l why 0

    -- In every connection that is reached from one whose receive buffer holds at most 2062 bytes and whose
    -- message buffer holds at most 2048, the buffers hold no more, with callbacks that keep these bounds.
    pub Reached-Fits : {first l : Link C W} → Reached net cb first l → Fits first.ws → Fits l.ws
    Reached-Fits here f = f
    Reached-Fits (then_came r h) f = happen-Fits h _ (Reached-Fits r f)
