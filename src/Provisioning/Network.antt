-- ===== src/Provisioning/Network.antt =====
-- Numbers in network byte order, as the accessors of firmware/src/provisioning/dns_msg.c and dhcp_msg.c read and
-- write them.
use roosterwake.Prelude.{ℕ, ◌+◌, ◌*◌, ◌/◌, ◌%◌, ◌^◌, [], ◌∷◌}
use roosterwake.Prelude.Bytes.{Bytes, byte_at}

-- `rd16`
unfoldable pub be16 : Bytes → ℕ → ℕ
be16 p i = (byte_at p i * 2 ^ 8 + byte_at p (i + 1)) % 2 ^ 16

-- `rd32`
unfoldable pub be32 : Bytes → ℕ → ℕ
be32 p i =
    (byte_at p i * 2 ^ 24
      + byte_at p (i + 1) * 2 ^ 16
      + byte_at p (i + 2) * 2 ^ 8
      + byte_at p (i + 3))
    % 2 ^ 32

-- The bytes that `wr16` and `wr32` store.
unfoldable pub net16 : ℕ → Bytes
net16 v = v / 2 ^ 8 % 256 ∷ v % 256 ∷ []

unfoldable pub net32 : ℕ → Bytes
net32 v = v / 2 ^ 24 % 256 ∷ v / 2 ^ 16 % 256 ∷ v / 2 ^ 8 % 256 ∷ v % 256 ∷ []
