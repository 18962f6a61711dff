-- ===== src/Ws/Frame/Mask.antt =====
-- Masking a payload.
use Prim.Native.Nat.{bit_xor}
use mathlib.Core.Path.{ap₂}
use roosterwake.Prelude.{ℕ, suc, ◌+◌, ◌%◌, ◌≡◌, refl, ap, ◌∙◌, [], ◌∷◌, ◌++◌, length, arith}
use roosterwake.Prelude.Bits.{bit_xor_twice}
use roosterwake.Prelude.Bytes.{Bytes, byte_at}
use roosterwake.Ws.Frame.{apply_mask}

-- Masking twice with one mask and offset gives the payload back.
pub apply_mask_twice :
    (payload mask : Bytes) (offset : ℕ)
    → apply_mask (apply_mask payload mask offset) mask offset ≡ payload
unfolding apply_mask
apply_mask_twice [] mask offset = refl
apply_mask_twice (d ∷ rest) mask offset =
    ap₂ ◌∷◌ (bit_xor_twice d (byte_at mask (offset % 4))) (apply_mask_twice rest mask (offset + 1))

-- A payload that is masked in two pieces, each at its place, is masked as in one.
pub apply_mask-append :
    (front back mask : Bytes) (offset : ℕ)
    → apply_mask (front ++ back) mask offset
      ≡ apply_mask front mask offset ++ apply_mask back mask (offset + length front)
unfolding apply_mask
apply_mask-append [] back mask offset = ap (apply_mask back mask) (omega arith)
apply_mask-append (d ∷ front) back mask offset = ap (◌∷◌ (bit_xor d (byte_at mask (offset % 4)))) (
    apply_mask-append front back mask (offset + 1)
    ∙ ap (λ n. apply_mask front mask (offset + 1) ++ apply_mask back mask n) (omega arith))

pub length-apply_mask :
    (payload mask : Bytes) (offset : ℕ) → length (apply_mask payload mask offset) ≡ length payload
unfolding apply_mask
length-apply_mask [] mask offset = refl
length-apply_mask (d ∷ rest) mask offset = ap suc (length-apply_mask rest mask (offset + 1))
