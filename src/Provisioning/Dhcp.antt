-- ===== src/Provisioning/Dhcp.antt =====
-- The setup hotspot's DHCP codec, firmware/src/provisioning/dhcp_msg.c. A NULL message is `none`; a message type
-- is its number.
pub mod Reply
use roosterwake.Prelude.{
  ℕ, zero, suc, ◌+◌, ◌-◌, ◌/◌, ◌%◌, ◌^◌, Bool, true, false, not, ◌&&◌, ◌||◌, Option, none, some, [],
  ◌∷◌, ltb, leb, ◌==◌, if◌then◌else◌, length, take, replicate,
}
use roosterwake.Prelude.Bytes.{Bytes, byte_at, blit, slice, eq_bytes}
use roosterwake.Prelude.Options.{◌>>=◌}
use roosterwake.Provisioning.Network.{be16, be32, net32}

-- `rw_dhcp_request_t`
pub record DhcpRequest : Type 0 where
  pub type : ℕ
  pub xid : ℕ
  pub flags : ℕ
  pub chaddr : Bytes
  pub hlen : ℕ
  pub ciaddr : ℕ
  pub requested_ip : ℕ
  pub server_id : ℕ
  pub broadcast : Bool

-- `k_cookie`
abbrev pub cookie : Bytes
cookie = 0x63 ∷ 0x82 ∷ 0x53 ∷ 0x63 ∷ []

-- The switch over an option of `optlen` bytes at `val`.
unfoldable pub take_option : DhcpRequest → ℕ → ℕ → Bytes → ℕ → DhcpRequest
take_option out code optlen buf val =
    if code == 53
    then (if optlen == 1 then record out { type = byte_at buf val } else out)
    else if code == 50
    then (if optlen == 4 then record out { requested_ip = be32 buf val } else out)
    else if code == 54
    then (if optlen == 4 then record out { server_id = be32 buf val } else out)
    else out

-- The walk over the options from `i` on. A round goes a byte on at least.
unfoldable pub walk_options : ℕ → Bytes → ℕ → DhcpRequest → DhcpRequest
walk_options zero buf i out = out
walk_options (suc fuel) buf i out =
    let code = byte_at buf i in
    let optlen = byte_at buf (i + 1) in
    let padded = walk_options fuel buf (i + 1) out in
    let next = walk_options fuel buf (i + 2 + optlen) (take_option out code optlen buf (i + 2)) in
    if leb (length buf) i
    then out
    else if code == 255
    then out
    else if code == 0
    then padded
    else if ltb (length buf) (i + 2)
    then out
    else if ltb (length buf) (i + 2 + optlen)
    then out
    else next

-- The fixed part of a request
unfoldable pub fixed_part : Bytes → DhcpRequest
fixed_part buf = record {
  type = 0;
  xid = be32 buf 4;
  flags = be16 buf 10;
  chaddr = slice buf 28 16;
  hlen = if ltb 16 (byte_at buf 2) then 16 else byte_at buf 2;
  ciaddr = be32 buf 12;
  requested_ip = 0;
  server_id = 0;
  broadcast = not (be16 buf 10 / 2 ^ 15 == 0);
}

-- `rw_dhcp_parse`
unfoldable pub dhcp_parse : Option Bytes → Option DhcpRequest
dhcp_parse none = none
dhcp_parse (some buf) =
    let out = walk_options (length buf) buf 240 (fixed_part buf) in
    if ltb (length buf) 240
    then none
    else if not (byte_at buf 0 == 1)
    then none
    else if not (eq_bytes (slice buf 236 4) cookie)
    then none
    else if out.type == 0
    then none
    else some out

-- `rw_dhcp_reply_cfg_t`
pub record ReplyCfg : Type 0 where
  pub server_ip : ℕ
  pub subnet_mask : ℕ
  pub offered_ip : ℕ
  pub lease_secs : ℕ

-- A reply that is being written: the buffer, and where the next option goes.
pub record ReplyBuffer : Type 0 where
  pub out : Bytes
  pub pos : ℕ

-- `put_opt`
unfoldable pub put_opt : ℕ → Bytes → ReplyBuffer → Option ReplyBuffer
put_opt code val r =
    if ltb (length r.out) (r.pos + 2 + length val)
    then none
    else some (record {
      out =
          blit (blit (blit r.out r.pos (code ∷ [])) (r.pos + 1) (length val ∷ [])) (r.pos + 2) val;
      pos = r.pos + 2 + length val;
    })

-- `put_opt32`
unfoldable pub put_opt32 : ℕ → ℕ → ReplyBuffer → Option ReplyBuffer
put_opt32 code value r = put_opt code (net32 value) r

-- The fixed part of a reply, in a buffer of `out_len` bytes.
unfoldable pub reply_head : DhcpRequest → ReplyCfg → ℕ → ℕ → Bytes
reply_head req cfg type out_len =
    let out0 = replicate out_len 0 in
    let out1 = blit out0 0 (2 ∷ []) in
    let out2 = blit out1 1 (1 ∷ []) in
    let out3 = blit out2 2 (6 ∷ []) in
    let out4 = blit out3 4 (net32 req.xid) in
    let out5 = blit out4 10 (req.flags / 2 ^ 8 % 256 ∷ []) in
    let out6 = blit out5 11 (req.flags % 256 ∷ []) in
    let out7 = blit out6 28 req.chaddr in
    let out8 = if type == 6 then out7 else blit out7 16 (net32 cfg.offered_ip) in
    let out9 = if type == 6 then out8 else blit out8 20 (net32 cfg.server_ip) in
    blit out9 236 cookie

-- The options that an offer and an acknowledgement have and a refusal has not.
unfoldable pub lease_options : ReplyCfg → ℕ → ReplyBuffer → Option ReplyBuffer
lease_options cfg type r = if type == 6 then some r else do
  r1 ← put_opt32 1 cfg.subnet_mask r
  r2 ← put_opt32 3 cfg.server_ip r1
  r3 ← put_opt32 6 cfg.server_ip r2
  put_opt32 51 cfg.lease_secs r3

-- The end option and the padding up to 300 bytes.
unfoldable pub end_reply : ReplyBuffer → Option Bytes
end_reply r =
    let size =
      if ltb (r.pos + 1) 300
      then (if ltb (length r.out) 300 then length r.out else 300)
      else r.pos + 1 in
    if ltb (length r.out) (r.pos + 1)
    then none
    else some (
        take size
          (blit (blit r.out r.pos (255 ∷ [])) (r.pos + 1) (replicate (size - (r.pos + 1)) 0)))

-- `rw_dhcp_build_reply`: the bytes of the reply, or `none` for 0.
unfoldable pub build_reply : DhcpRequest → ReplyCfg → ℕ → ℕ → Option Bytes
build_reply req cfg type out_len =
    if not (type == 2) && not (type == 5) && not (type == 6)
    then none
    else if ltb out_len (240 + 32)
    then none
    else do
      r1 ← put_opt 53 (type ∷ []) (record { out = reply_head req cfg type out_len; pos = 240 })
      r2 ← put_opt32 54 cfg.server_ip r1
      r3 ← lease_options cfg type r2
      end_reply r3

-- `rw_dhcp_reply_dest`; no request is `none`.
unfoldable pub reply_dest : Option DhcpRequest → ℕ → ℕ
reply_dest none offered_ip = 0xFFFF_FFFF
reply_dest (some req) offered_ip =
    if not req.broadcast && not (req.ciaddr == 0) then req.ciaddr else 0xFFFF_FFFF
